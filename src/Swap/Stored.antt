-- ===== src/Swap/Stored.antt =====
-- electrumx/server/swap_index.py: how an order is stored, as a CBOR dict. `dumps` and `loads` of the
-- package cbor2 are parameters; a value is an integer, bytes, a text or None.
pub mod RoundTrip
use Prim.Native.String.{String}
use rxin_dexer.Prelude.{ℕ, Bool, true, false, Option, none, some, List, [], ◌∷◌, ◌==◌}
use rxin_dexer.Prelude.Dict.{Dict, lookup, insert, remove_if}
use rxin_dexer.Prelude.Result.{Result, ok, err, value_error, ◌>>=◌, from_option}
use rxin_dexer.Util.{Bytes}
use rxin_dexer.Swap.{SwapOrderInfo}
use rxin_dexer.Swap.OrderStatus
use rxin_dexer.Swap.OrderSide

pub data Value : Type 0 where
  int : ℕ → Value
  bytes : Bytes → Value
  str : Bytes → Value
  nothing : Value

abbrev pub of_text : Option Bytes → Value
of_text none = nothing
of_text (some t) = str t

abbrev pub of_bytes : Option Bytes → Value
of_bytes none = nothing
of_bytes (some t) = bytes t

-- The values that are left out: None, 0 and `b''`.
abbrev pub is_default : Value → Bool
is_default nothing = true
is_default (int n) = n == 0
is_default (bytes []) = true
is_default (bytes (b ∷ bs)) = false
is_default (str t) = false

-- The dict of all the fields.
abbrev pub all_fields : SwapOrderInfo → Dict Value
all_fields o =
    ("oid", bytes o.order_id)
    ∷ ("txh", bytes o.tx_hash)
    ∷ ("v", int o.vout)
    ∷ ("h", int o.height)
    ∷ ("ts", int o.timestamp)
    ∷ ("ms", bytes o.maker_scripthash)
    ∷ ("ma", of_text o.maker_address)
    ∷ ("br", bytes o.base_ref)
    ∷ ("qr", bytes o.quote_ref)
    ∷ ("bt", of_text o.base_ticker)
    ∷ ("qt", of_text o.quote_ticker)
    ∷ ("sd", int o.side)
    ∷ ("pr", int o.price)
    ∷ ("am", int o.amount)
    ∷ ("fa", int o.filled_amount)
    ∷ ("ra", int o.remaining_amount)
    ∷ ("mf", int o.min_fill)
    ∷ ("fr", int o.fee_rate)
    ∷ ("st", int o.status)
    ∷ ("eh", int o.expiry_height)
    ∷ ("ch", int o.cancel_height)
    ∷ ("ct", of_bytes o.cancel_txid)
    ∷ ("fc", int o.fill_count)
    ∷ ("lfh", int o.last_fill_height)
    ∷ ("afp", int o.avg_fill_price)
    ∷ []

-- Without the defaults, but always with the side and the status.
unfoldable pub fields_of : SwapOrderInfo → Dict Value
fields_of o =
    insert "st" (int o.status) (insert "sd" (int o.side) (remove_if is_default (all_fields o)))

-- `d.get(key, default)`, by the type that the field has. A value of another type, which the code
-- never stores, is outside the model: it counts as an error.
abbrev int_or : ℕ → Option Value → Result ℕ
int_or default none = ok default
int_or default (some (int n)) = ok n
int_or default (some other) = err value_error

abbrev bytes_or_empty : Option Value → Result Bytes
bytes_or_empty none = ok []
bytes_or_empty (some (bytes b)) = ok b
bytes_or_empty (some other) = err value_error

abbrev text_or_none : Option Value → Result (Option Bytes)
text_or_none none = ok none
text_or_none (some (str t)) = ok (some t)
text_or_none (some nothing) = ok none
text_or_none (some other) = err value_error

abbrev bytes_or_none : Option Value → Result (Option Bytes)
bytes_or_none none = ok none
bytes_or_none (some (bytes t)) = ok (some t)
bytes_or_none (some nothing) = ok none
bytes_or_none (some other) = err value_error

unfoldable pub get_int : String → ℕ → Dict Value → Result ℕ
get_int key default d = int_or default (lookup key d)

unfoldable pub get_bytes : String → Dict Value → Result Bytes
get_bytes key d = bytes_or_empty (lookup key d)

unfoldable pub get_text : String → Dict Value → Result (Option Bytes)
get_text key d = text_or_none (lookup key d)

unfoldable pub get_optional_bytes : String → Dict Value → Result (Option Bytes)
get_optional_bytes key d = bytes_or_none (lookup key d)

unfoldable pub order_of : Dict Value → Result SwapOrderInfo
order_of d = do
  order_id ← get_bytes "oid" d
  tx_hash ← get_bytes "txh" d
  vout ← get_int "v" 0 d
  height ← get_int "h" 0 d
  timestamp ← get_int "ts" 0 d
  maker_scripthash ← get_bytes "ms" d
  maker_address ← get_text "ma" d
  base_ref ← get_bytes "br" d
  quote_ref ← get_bytes "qr" d
  base_ticker ← get_text "bt" d
  quote_ticker ← get_text "qt" d
  side ← get_int "sd" OrderSide.sell d
  price ← get_int "pr" 0 d
  amount ← get_int "am" 0 d
  filled_amount ← get_int "fa" 0 d
  remaining_amount ← get_int "ra" 0 d
  min_fill ← get_int "mf" 0 d
  fee_rate ← get_int "fr" 0 d
  status ← get_int "st" OrderStatus.open_order d
  expiry_height ← get_int "eh" 0 d
  cancel_height ← get_int "ch" 0 d
  cancel_txid ← get_optional_bytes "ct" d
  fill_count ← get_int "fc" 0 d
  last_fill_height ← get_int "lfh" 0 d
  avg_fill_price ← get_int "afp" 0 d
  ok (record {
    order_id = order_id;
    tx_hash = tx_hash;
    vout = vout;
    height = height;
    timestamp = timestamp;
    maker_scripthash = maker_scripthash;
    maker_address = maker_address;
    base_ref = base_ref;
    quote_ref = quote_ref;
    base_ticker = base_ticker;
    quote_ticker = quote_ticker;
    side = side;
    price = price;
    amount = amount;
    filled_amount = filled_amount;
    remaining_amount = remaining_amount;
    min_fill = min_fill;
    fee_rate = fee_rate;
    status = status;
    expiry_height = expiry_height;
    cancel_height = cancel_height;
    cancel_txid = cancel_txid;
    fill_count = fill_count;
    last_fill_height = last_fill_height;
    avg_fill_price = avg_fill_price;
  })

module _ (dumps : Dict Value → Bytes) (loads : Bytes → Result (Dict Value)) where
  unfoldable pub to_bytes : SwapOrderInfo → Bytes
  to_bytes o = dumps (fields_of o)

  unfoldable pub from_bytes : Bytes → Result SwapOrderInfo
  from_bytes b = do d ← loads b; order_of d
