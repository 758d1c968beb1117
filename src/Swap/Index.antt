-- ===== src/Swap/Index.antt =====
-- electrumx/server/swap_index.py: SwapIndex. `pruned_to` stands for `_last_undo_pruned + 1`, and the
-- undo caches are empty between flushes. What an exception leaves of the state is kept beside it.
pub mod Close
pub mod Lost
pub mod Reorg
pub mod Restored
pub mod Books
pub mod BookKeys
pub mod OrderWrites
use rxin_dexer.Prelude.{
  ℕ, zero, suc, ◌+◌, ◌-◌, Bool, true, false, not, ◌&&◌, ◌||◌, Option, none, some, List, [], ◌∷◌,
  ◌++◌, leb, ◌==◌, if◌then◌else◌,
}
use rxin_dexer.Prelude.Dict.{Dict}
use rxin_dexer.Prelude.Result.{Result, ok, err, Error, ◌>>=◌}
use rxin_dexer.Util.{Bytes}
use rxin_dexer.Tx.{Tx, TxOutput, ◌<>◌}
use rxin_dexer.Undo.{pack_be_uint}
use rxin_dexer.Store.{Db, Op, put, delete}
use rxin_dexer.Store.Cache.{Cache, get, set}
use rxin_dexer.UndoLog.{Staged, flush_pruned, backup}
use rxin_dexer.Predict.{is_op_return}
use rxin_dexer.Swap.{SwapOrderInfo, max_uint64, order_amounts_in_range, backing_utxo_offers_token}
use rxin_dexer.Swap.OrderStatus
use rxin_dexer.Swap.OrderSide
use rxin_dexer.Swap.Stored.{Value, to_bytes, from_bytes}
use rxin_dexer.Swap.Terms.{Coin}
use rxin_dexer.Swap.Parse.{parse_rswp_advertisement}

-- The prefixes of SwapDBKeys: "SO", "SP", "SM" and "SWU".
abbrev pub order_prefix : Bytes
order_prefix = 83 ∷ 79 ∷ []

abbrev pub pair_prefix : Bytes
pair_prefix = 83 ∷ 80 ∷ []

abbrev pub maker_prefix : Bytes
maker_prefix = 83 ∷ 77 ∷ []

abbrev pub undo_prefix : Bytes
undo_prefix = 83 ∷ 87 ∷ 85 ∷ []

pub record SwapIndex : Type 0 where
  pub enabled : Bool
  pub order_cache : Cache SwapOrderInfo
  pub order_height : Cache ℕ
  pub history_cache : List (ℕ × (Bytes × Bytes))
  pub pruned_to : ℕ

abbrev pub is_terminal : SwapOrderInfo → Bool
is_terminal o =
    o.status == OrderStatus.filled
    || (o.status == OrderStatus.cancelled || o.status == OrderStatus.expired)

abbrev pub is_falsy : Bytes → Bool
is_falsy [] = true
is_falsy (b ∷ bs) = false

-- `bytes([n])`
abbrev side_byte : ℕ → Result Bytes
side_byte n = pack_be_uint 1 n

-- The price as a key: a higher bid comes first. A price above the maximum fails to pack.
unfoldable pub price_key : SwapOrderInfo → Result Bytes
price_key o =
    if o.side == OrderSide.buy
    then (if leb o.price max_uint64
        then pack_be_uint 8 (max_uint64 - o.price)
        else err Error.struct_error)
    else pack_be_uint 8 o.price

unfoldable pub pair_key : SwapOrderInfo → Result (Option Bytes)
pair_key o = if is_falsy o.base_ref || is_falsy o.quote_ref then ok none else (do
  price ← price_key o
  side ← side_byte o.side
  ok (some (pair_prefix ++ (o.base_ref ++ (o.quote_ref ++ (side ++ (price ++ o.order_id)))))))

unfoldable pub maker_key : SwapOrderInfo → Option Bytes
maker_key o =
    if is_falsy o.maker_scripthash
    then none
    else some (maker_prefix ++ (o.maker_scripthash ++ o.order_id))

-- An order that is staged for the next flush.
abbrev pub stage_order : Bytes → SwapOrderInfo → ℕ → SwapIndex → SwapIndex
stage_order order_id o height x = record x {
  order_cache = set order_id o x.order_cache;
  order_height = set order_id height x.order_height;
}

abbrev pub close_order : SwapOrderInfo → ℕ → Bytes → SwapOrderInfo
close_order o height tx_hash = record o {
  status = OrderStatus.filled;
  cancel_height = height;
  cancel_txid = some tx_hash;
}

-- The two entries of an order in the books: there while it is open.
abbrev pub index_entry : Bool → ℕ → Option Bytes → List Staged
index_entry terminal h none = []
index_entry true h (some key) = record { height = h; op = delete key } ∷ []
index_entry false h (some key) = record { height = h; op = put key [] } ∷ []

abbrev pub order_writes : Bytes → SwapOrderInfo → Bytes → Option Bytes → ℕ → List Staged
order_writes order_id o value pair h =
    record { height = h; op = put (order_prefix ++ order_id) value }
    ∷ (index_entry (is_terminal o) h pair ++ index_entry (is_terminal o) h (maker_key o))

-- `_flush history`: the writes of the history, each for its height.
abbrev pub history_writes : List (ℕ × (Bytes × Bytes)) → List Staged
history_writes [] = []
history_writes ((h, (key, value)) ∷ history) =
    record { height = h; op = put key value } ∷ history_writes history

module _ (dumps : Dict Value → Bytes) (loads : Bytes → Result (Dict Value)) where
  unfoldable pub stored_order : Option Bytes → Result (Option SwapOrderInfo)
  stored_order none = ok none
  stored_order (some []) = ok none
  stored_order (some (b ∷ bs)) = do o ← from_bytes dumps loads (b ∷ bs); ok (some o)

  abbrev pub cached_order : Option SwapOrderInfo → Option Bytes → Result (Option SwapOrderInfo)
  cached_order (some o) stored = ok (some o)
  cached_order none stored = stored_order stored

  unfoldable pub get_order : Db → SwapIndex → Bytes → Result (Option SwapOrderInfo)
  get_order db x order_id =
      cached_order (get order_id x.order_cache) (db (order_prefix ++ order_id))

  -- The order that was found, closed unless it is already.
  unfoldable pub close_found : Option SwapOrderInfo → Bytes → Bytes → ℕ → SwapIndex → SwapIndex
  close_found none order_id tx_hash height x = x
  close_found (some o) order_id tx_hash height x =
      if is_terminal o then x else stage_order order_id (close_order o height tx_hash) height x

  unfoldable pub close_order_if_open : Db → Bytes → Bytes → ℕ → SwapIndex → Result SwapIndex
  close_order_if_open db order_id tx_hash height x = do
    found ← get_order db x order_id
    ok (close_found found order_id tx_hash height x)

  abbrev pub after_closing :
      Result SwapIndex
      → SwapIndex
      → (SwapIndex → SwapIndex × Result (Unit {0}))
      → SwapIndex × Result (Unit {0})
  after_closing (err exception) x next = (x, err exception)
  after_closing (ok closed) x next = next closed

  -- The loop over the spent outpoints, in the order in which the set gives them.
  unfoldable pub close_spent :
      Db → List Bytes → Bytes → ℕ → SwapIndex → SwapIndex × Result (Unit {0})
  close_spent db [] tx_hash height x = (x, ok tt)
  close_spent db (outpoint ∷ spent) tx_hash height x =
      after_closing (close_order_if_open db outpoint tx_hash height x) x
        (close_spent db spent tx_hash height)

  -- What a cached order writes: an order without a height, or one that raises, is skipped.
  unfoldable pub writes_at : Option ℕ → Result (Option Bytes) → Bytes → SwapOrderInfo → List Staged
  writes_at none pair order_id o = []
  writes_at (some height) (err exception) order_id o = []
  writes_at (some height) (ok pair) order_id o =
      order_writes order_id o (to_bytes dumps loads o) pair height

  unfoldable pub staged_orders : Cache ℕ → Cache SwapOrderInfo → List Staged
  staged_orders heights [] = []
  staged_orders heights ((order_id, o) ∷ cache) =
      writes_at (get order_id heights) (pair_key o) order_id o ++ staged_orders heights cache

  abbrev pub staged_of : SwapIndex → List Staged
  staged_of x = staged_orders x.order_height x.order_cache ++ history_writes x.history_cache

  abbrev pub flushed_index : SwapIndex → ℕ → SwapIndex
  flushed_index x pruned_to = record x {
    order_cache = [];
    order_height = [];
    history_cache = [];
    pruned_to = pruned_to;
  }

  -- `flush`: its batch, and the index after it. `blocks` is `db_height + 1`.
  unfoldable pub flush : ℕ → ℕ → Db → SwapIndex → Result (List Op × SwapIndex)
  flush reorg_limit blocks db x = if not x.enabled then ok ([], x) else (do
    out ← flush_pruned undo_prefix true reorg_limit blocks x.pruned_to db (staged_of x)
    ok (out.0, flushed_index x out.1))

unfoldable pub backup_index : Db → ℕ → SwapIndex → Result (List Op)
backup_index db height x = if not x.enabled then ok [] else backup undo_prefix db height

module _ (sha256 : Bytes → Bytes) (coin : Option Coin) where
  -- The tests on an advertised order.
  unfoldable pub admit : Db → Option SwapOrderInfo → ℕ → SwapIndex → SwapIndex
  admit db none height x = x
  admit db (some o) height x =
      if not (order_amounts_in_range o)
      then x
      else if not (backing_utxo_offers_token sha256 db o)
      then x
      else stage_order o.order_id o height x

  unfoldable pub index_output : Db → Bytes → ℕ → ℕ → ℕ → TxOutput → SwapIndex → SwapIndex
  index_output db tx_hash height timestamp vout txout x =
      if is_op_return txout.pk_script
      then admit db
          (parse_rswp_advertisement sha256 coin txout.pk_script tx_hash vout height timestamp)
          height x
      else x

  unfoldable pub index_outputs : Db → Bytes → ℕ → ℕ → ℕ → List TxOutput → SwapIndex → SwapIndex
  index_outputs db tx_hash height timestamp vout [] x = x
  index_outputs db tx_hash height timestamp vout (txout ∷ outputs) x =
      index_outputs db tx_hash height timestamp (vout + 1) outputs
        (index_output db tx_hash height timestamp vout txout x)

  abbrev after_close :
      SwapIndex × Result (Unit {0}) → (SwapIndex → SwapIndex) → SwapIndex × Result (Unit {0})
  after_close (x, err exception) next = (x, err exception)
  after_close (x, ok done) next = (next x, ok done)

  module _ (dumps : Dict Value → Bytes) (loads : Bytes → Result (Dict Value)) where
    unfoldable pub process_tx :
        Db → Bytes → Tx → ℕ → ℕ → List Bytes → SwapIndex → SwapIndex × Result (Unit {0})
    process_tx db tx_hash tx height timestamp spent x =
        if not x.enabled
        then (x, ok tt)
        else after_close (close_spent dumps loads db spent tx_hash height x)
            (index_outputs db tx_hash height timestamp 0 tx.outputs)
