-- ===== src/Swap/Parse.antt =====
-- electrumx/server/swap_index.py: the advertisements of swap orders. In the parsers an error stands for
-- `return None` as well as for an exception, which the caller turns into None.
use rxin_dexer.Prelude.{
  ℕ, ◌+◌, ◌/◌, ◌%◌, Bool, not, ◌&&◌, ◌||◌, Option, none, some, List, [], ◌∷◌, ◌++◌, ltb, ◌==◌,
  if◌then◌else◌, length, drop, list_eq, replicate,
}
use rxin_dexer.Prelude.Result.{Result, ok, err, value_error, ◌>>=◌, guard, from_option}
use rxin_dexer.Util.{Bytes, of_le, pack_le_uint}
use rxin_dexer.Chunks.{parse_swap_chunks}
use rxin_dexer.Swap.{SwapOrderInfo}
use rxin_dexer.Swap.OrderStatus
use rxin_dexer.Swap.OrderSide
use rxin_dexer.Swap.Terms.{parse_multi_txout, Coin, maker_from_script, parse_script_int}

-- `SwapOrderInfo()`, with the place of the advertisement.
abbrev pub new_order : Bytes → ℕ → ℕ → ℕ → SwapOrderInfo
new_order tx_hash vout height timestamp = record {
  order_id = [];
  tx_hash = tx_hash;
  vout = vout;
  height = height;
  timestamp = timestamp;
  maker_scripthash = [];
  maker_address = none;
  base_ref = [];
  quote_ref = [];
  base_ticker = none;
  quote_ticker = none;
  side = OrderSide.sell;
  price = 0;
  amount = 0;
  filled_amount = 0;
  remaining_amount = 0;
  min_fill = 0;
  fee_rate = 0;
  status = OrderStatus.open_order;
  expiry_height = 0;
  cancel_height = 0;
  cancel_txid = none;
  fill_count = 0;
  last_fill_height = 0;
  avg_fill_price = 0;
}

-- The chunk at the index, if there is one, and the chunks behind it.
unfoldable pub next_chunk : List Bytes → Result (Bytes × List Bytes)
next_chunk [] = err value_error
next_chunk (c ∷ chunks) = ok (c, chunks)

-- A chunk that must have this length.
unfoldable pub next_sized : ℕ → List Bytes → Result (Bytes × List Bytes)
next_sized n [] = err value_error
next_sized n (c ∷ chunks) = if length c == n then ok (c, chunks) else err value_error

-- A chunk that must be one byte.
unfoldable pub next_byte : List Bytes → Result (ℕ × List Bytes)
next_byte ((b ∷ []) ∷ chunks) = ok (b, chunks)
next_byte _ = err value_error

-- `FLAG_HAS_WANT` and `FLAG_HAS_EXPIRY`
abbrev has_want : ℕ → Bool
has_want flags = flags % 2 == 1

abbrev has_expiry : ℕ → Bool
has_expiry flags = flags / 2 % 2 == 1

-- The wanted token; without one it is the zero id.
unfoldable pub next_want : ℕ → List Bytes → Result (Bytes × List Bytes)
next_want flags chunks =
    if has_want flags then next_sized 32 chunks else ok (replicate 32 0, chunks)

unfoldable pub next_expiry : ℕ → List Bytes → Result (ℕ × List Bytes)
next_expiry flags chunks =
    if has_expiry flags then (do c ← next_sized 4 chunks; ok (of_le c.0, c.1)) else ok (0, chunks)

-- `len(remaining) < 2`; else the price terms, which are the first.
unfoldable pub price_terms : List Bytes → Result Bytes
price_terms (terms ∷ signature ∷ more) = ok terms
price_terms _ = err value_error

-- What a v2 or v3 advertisement says.
pub record Advertised : Type 0 where
  pub offered_type : ℕ
  pub token_id : Bytes
  pub want_token_id : Bytes
  pub expiry_height : ℕ
  pub utxo_hash : Bytes
  pub utxo_index : ℕ
  pub terms : Bytes

-- The chunks from the flags on.
unfoldable pub v2_fields : List Bytes → ℕ → Result Advertised
v2_fields chunks version = do
  flags ← next_byte chunks
  allowed ← guard (not (has_expiry flags.0 && not (version == 3))) value_error
  offered_type ← next_byte flags.1
  marker ← next_byte offered_type.1
  token_id ← next_sized 32 marker.1
  want ← next_want flags.0 token_id.1
  expiry ← next_expiry flags.0 want.1
  utxo_hash ← next_sized 32 expiry.1
  index_data ← next_chunk utxo_hash.1
  utxo_index ← from_option (parse_script_int index_data.0) value_error
  terms ← price_terms index_data.1
  ok (record {
    offered_type = offered_type.0;
    token_id = token_id.0;
    want_token_id = want.0;
    expiry_height = expiry.0;
    utxo_hash = utxo_hash.0;
    utxo_index = utxo_index;
    terms = terms;
  })

-- `id + struct.pack('<I', n)`
unfoldable pub with_index : Bytes → ℕ → Result Bytes
with_index hash n = do b ← pack_le_uint 4 n; ok (hash ++ b)

-- The sides of the pair: a bid has the wanted token as its base, any other order the offered one.
abbrev pub side_of : ℕ → ℕ
side_of offered_type = if offered_type == 0 then OrderSide.buy else OrderSide.sell

-- The order before its price terms.
unfoldable pub v2_order : Advertised → SwapOrderInfo → Result SwapOrderInfo
v2_order a o = do
  order_id ← with_index a.utxo_hash a.utxo_index
  offered_ref ← with_index a.token_id 0
  want_ref ← with_index a.want_token_id 0
  ok (record o {
    order_id = order_id;
    expiry_height = a.expiry_height;
    side = side_of a.offered_type;
    base_ref = if side_of a.offered_type == OrderSide.buy then want_ref else offered_ref;
    quote_ref = if side_of a.offered_type == OrderSide.buy then offered_ref else want_ref;
    status = OrderStatus.open_order;
  })

-- `sum(v for v, _ in outputs)`
unfoldable pub total : List (ℕ × Bytes) → ℕ
total [] = 0
total ((v, script) ∷ outputs) = v + total outputs

-- `if sh`, and else what the other outputs give.
unfoldable pub maker_or : Bytes × Option Bytes → Bytes × Option Bytes → Bytes × Option Bytes
maker_or ([], address) rest = rest
maker_or (b ∷ scripthash, address) rest = (b ∷ scripthash, address)

module _ (sha256 : Bytes → Bytes) (coin : Option Coin) where
  -- The maker of the first output that has one.
  unfoldable pub first_maker : List (ℕ × Bytes) → Bytes × Option Bytes
  first_maker [] = ([], none)
  first_maker ((v, script) ∷ outputs) =
      maker_or (maker_from_script sha256 coin script) (first_maker outputs)

  abbrev with_maker : Bytes × Option Bytes → SwapOrderInfo → SwapOrderInfo
  with_maker ([], address) o = o
  with_maker (b ∷ scripthash, address) o = record o {
    maker_scripthash = b ∷ scripthash;
    maker_address = address;
  }

  -- `if not outputs: return`, and else the amounts and the maker.
  unfoldable pub with_outputs : Option (List (ℕ × Bytes)) → SwapOrderInfo → SwapOrderInfo
  with_outputs none o = o
  with_outputs (some []) o = o
  with_outputs (some (output ∷ outputs)) o =
      let sum = total (output ∷ outputs) in
      with_maker (first_maker (output ∷ outputs))
        (record o { amount = sum; remaining_amount = sum; price = sum })

  unfoldable pub apply_price_terms : Bytes → SwapOrderInfo → SwapOrderInfo
  apply_price_terms blob o = with_outputs (parse_multi_txout blob) o

  -- The chunks include OP_RETURN; the fields begin behind the version.
  unfoldable pub parse_rswp_v2 : List Bytes → SwapOrderInfo → ℕ → Result SwapOrderInfo
  parse_rswp_v2 chunks o version = do
    enough ← guard (not (ltb (length chunks) 10)) value_error
    a ← v2_fields (drop 3 chunks) version
    made ← v2_order a o
    ok (apply_price_terms a.terms made)

  unfoldable pub parse_rswp_v1 : List Bytes → SwapOrderInfo → Result SwapOrderInfo
  parse_rswp_v1 chunks o = do
    enough ← guard (not (ltb (length chunks) 9)) value_error
    legacy_type ← next_byte (drop 3 chunks)
    token_id ← next_sized 32 legacy_type.1
    utxo_hash ← next_sized 32 token_id.1
    index_data ← next_chunk utxo_hash.1
    utxo_index ← from_option (parse_script_int index_data.0) value_error
    terms ← next_chunk index_data.1
    signature ← next_chunk terms.1
    order_id ← with_index utxo_hash.0 utxo_index
    base_ref ← with_index token_id.0 0
    ok (record o {
      order_id = order_id;
      base_ref = base_ref;
      side = OrderSide.sell;
      status = OrderStatus.open_order;
    })

  -- The version decides which parser is used.
  unfoldable pub parse_version : List Bytes → Bytes → SwapOrderInfo → Result SwapOrderInfo
  parse_version chunks (version ∷ []) o =
      if version == 2 || version == 3
      then parse_rswp_v2 chunks o version
      else if version == 1
      then parse_rswp_v1 chunks o
      else err value_error
  parse_version chunks _ o = err value_error

  -- "RSWP", and then the version.
  unfoldable pub parse_chunks : List Bytes → SwapOrderInfo → Result SwapOrderInfo
  parse_chunks (c0 ∷ protocol_id ∷ version ∷ c3 ∷ chunks) o =
      if list_eq protocol_id (82 ∷ 83 ∷ 87 ∷ 80 ∷ [])
      then parse_version (c0 ∷ protocol_id ∷ version ∷ c3 ∷ chunks) version o
      else err value_error
  parse_chunks _ o = err value_error

  unfoldable pub parse_rswp_advertisement : Bytes → Bytes → ℕ → ℕ → ℕ → Option SwapOrderInfo
  parse_rswp_advertisement script tx_hash vout height timestamp =
      elim (parse_chunks (parse_swap_chunks script) (new_order tx_hash vout height timestamp)) [
        | ok o ↦ some o
        | err exception ↦ none
      ]
