-- ===== src/Examples/Swaps.antt =====
-- The theorems on electrumx/server/swap_index.py at small inputs.
use rxin_dexer.Prelude.{
  ◌≡◌, ◌≢◌, refl, inl, arith, true, Option, none, some, List, [], ◌∷◌, ◌++◌, replicate, list_eq,
}
use rxin_dexer.Prelude.Dict.{Dict}
use rxin_dexer.Prelude.Result.{Result, ok, err}
use rxin_dexer.Util.{Bytes, pack_le_uint, pack_varint, pack_varbytes, to_le}
use rxin_dexer.Undo.{encode_undo, encode_entry, encode_value, pack_be_uint}
use rxin_dexer.Store.{Db, Op, write}
use rxin_dexer.Store.Cache.{get, set}
use rxin_dexer.UndoLog.{
  undo_key, flush_pruned, flush_ops, prune_old_undo_keys, delete_range, undo_puts, by_height,
  insert_height, record_all, record_undo, append_entry, is_seen,
}
use rxin_dexer.Swap.{SwapOrderInfo}
use rxin_dexer.Swap.OrderSide
use rxin_dexer.Swap.Stored.{Value, fields_of, to_bytes, from_bytes}
use rxin_dexer.Swap.Stored.RoundTrip.{from_bytes-to_bytes_order}
use rxin_dexer.Database.{join}
use rxin_dexer.Swap.{backing_utxo_carries_token}
use rxin_dexer.Swap.Backing.{any_carries, backing_utxo_carries_token-entries}
use rxin_dexer.Swap.Terms.{parse_multi_txout}
use rxin_dexer.Swap.Terms.RoundTrip.{parse_multi_txout-txouts_bytes}
use rxin_dexer.Tx.{join_all}
use rxin_dexer.Swap.Parse.{new_order}
use rxin_dexer.Swap.Index.{
  SwapIndex, order_prefix, pair_key, price_key, maker_key, staged_orders, writes_at, flush,
  backup_index, close_order, close_spent, close_order_if_open, close_found, get_order, stored_order,
}
use rxin_dexer.Swap.Index.Close.{close_spent-get_order}
use rxin_dexer.UndoLog.Restored.{Restored}
use rxin_dexer.Swap.Index.Restored.{IsOrderKey, backup_index-orders}
use rxin_dexer.Swap.Index.Books.{flush-InBook}
use rxin_dexer.Swap.Index.Lost.{backup_index-closed_order}

-- An open order at an outpoint.
abbrev outpoint : Bytes
outpoint = replicate 36 3

abbrev sample_order : SwapOrderInfo
sample_order = record (new_order (replicate 32 9) 1 100 0) {
  order_id = outpoint;
  base_ref = replicate 36 4;
  quote_ref = replicate 36 0;
  side = OrderSide.buy;
  price = 5;
  amount = 5;
  remaining_amount = 5;
}

-- The dict that the stand-in for the CBOR decoder finds in every byte string.
abbrev dumps : Dict Value → Bytes
dumps d = 161 ∷ []

abbrev loads : Bytes → Result (Dict Value)
loads b = ok (fields_of sample_order)

abbrev index : SwapIndex
index = record {
  enabled = true;
  order_cache = (outpoint, sample_order) ∷ [];
  order_height = (outpoint, 100) ∷ [];
  history_cache = [];
  pruned_to = 0;
}

abbrev spent : List Bytes
spent = outpoint ∷ (1 ∷ []) ∷ outpoint ∷ []

abbrev empty_db : Db
empty_db k = none

abbrev closed_index : SwapIndex
closed_index = (close_spent dumps loads empty_db spent (replicate 32 8) 101 index).0

close_spent-get_order_example :
    get_order dumps loads empty_db closed_index outpoint
    ≡ ok (some (close_order sample_order 101 (replicate 32 8)))
unfolding close_spent close_order_if_open close_found get_order stored_order get set list_eq
close_spent-get_order_example =
    close_spent-get_order dumps loads empty_db (replicate 32 8) 101 spent index closed_index
      outpoint refl

none-ne-some : {A : Type 0} {a : A} → none ≢ some a
none-ne-some e = cc e

from_bytes-to_bytes_order_example :
    from_bytes dumps loads (to_bytes dumps loads sample_order) ≡ ok sample_order
from_bytes-to_bytes_order_example =
    from_bytes-to_bytes_order dumps loads sample_order refl none-ne-some

abbrev value_or : {A : Type 0} → Result A → A → A
value_or (ok a) other = a
value_or (err e) other = other

abbrev closed_pair : Option Bytes
closed_pair = value_or (pair_key (close_order sample_order 101 (replicate 32 8))) none

abbrev or_nothing : Option Bytes → Bytes
or_nothing none = []
or_nothing (some b) = b

-- The order closed at height 101, before it was ever flushed.
abbrev flushed : List Op × SwapIndex
flushed = value_or (flush dumps loads 2 101 empty_db closed_index) ([], index)

abbrev key_101 : Bytes
key_101 = 83 ∷ 87 ∷ 85 ∷ 0 ∷ 0 ∷ 0 ∷ 101 ∷ []

backup_index-orders_example :
    (ops : List Op) × (backup_index (write flushed.0 empty_db) 101 closed_index ≡ ok ops)
    × Restored
        (IsOrderKey closed_index.order_height closed_index.order_cache 101)
        key_101
        empty_db
        (write flushed.0 empty_db)
        (write ops (write flushed.0 empty_db))
unfolding flush_pruned flush_ops prune_old_undo_keys delete_range undo_key undo_puts by_height
    insert_height record_all record_undo append_entry is_seen encode_undo encode_entry encode_value
    pack_be_uint pack_le_uint to_le list_eq flush staged_orders writes_at pair_key price_key
    maker_key get to_bytes close_spent close_order_if_open close_found get_order stored_order set
backup_index-orders_example =
    backup_index-orders dumps loads 2 101 empty_db closed_index flushed 101 key_101 refl (refl, tt)
      refl refl refl (λ k. tt) refl

-- The key of the closed order in the book of its pair.
abbrev book_key : Bytes
book_key = or_nothing closed_pair

flush-InBook_example : write flushed.0 empty_db book_key ≡ none
unfolding flush_pruned flush_ops prune_old_undo_keys delete_range undo_key undo_puts by_height
    insert_height record_all record_undo append_entry is_seen encode_undo encode_entry encode_value
    pack_be_uint pack_le_uint to_le list_eq flush staged_orders writes_at pair_key price_key
    maker_key get to_bytes close_spent close_order_if_open close_found get_order stored_order set
flush-InBook_example =
    flush-InBook dumps loads 2 101 empty_db closed_index flushed 101 outpoint
      (close_order sample_order 101 (replicate 32 8)) closed_pair book_key refl (refl, tt)
      ((refl, refl), tt) refl refl refl refl (inl refl) refl

backup_index-closed_order_example :
    (ops : List Op) × (backup_index (write flushed.0 empty_db) 101 closed_index ≡ ok ops)
    × (write ops (write flushed.0 empty_db) (order_prefix ++ outpoint) ≡ none)
unfolding flush_pruned flush_ops prune_old_undo_keys delete_range undo_key undo_puts by_height
    insert_height record_all record_undo append_entry is_seen encode_undo encode_entry encode_value
    pack_be_uint pack_le_uint to_le list_eq flush staged_orders writes_at pair_key price_key
    maker_key get to_bytes close_spent close_order_if_open close_found get_order stored_order set
backup_index-closed_order_example =
    backup_index-closed_order dumps loads 2 101 empty_db closed_index flushed 101 key_101 outpoint
      (close_order sample_order 101 (replicate 32 8)) closed_pair refl refl refl refl (λ k. tt) refl
      refl refl refl refl

parse_multi_txout-txouts_bytes_example :
    parse_multi_txout
      (2 ∷ 5 ∷ 0 ∷ 0 ∷ 0 ∷ 0 ∷ 0 ∷ 0 ∷ 0 ∷ 1 ∷ 81 ∷ 0 ∷ 1 ∷ 0 ∷ 0 ∷ 0 ∷ 0 ∷ 0 ∷ 0 ∷ 0 ∷ [])
    ≡ some ((5, 81 ∷ []) ∷ (256, []) ∷ [])
unfolding join_all pack_varint pack_varbytes pack_le_uint to_le
parse_multi_txout-txouts_bytes_example =
    parse_multi_txout-txouts_bytes ((5, 81 ∷ []) ∷ (256, []) ∷ [])
      (2 ∷ 5 ∷ 0 ∷ 0 ∷ 0 ∷ 0 ∷ 0 ∷ 0 ∷ 0 ∷ 1 ∷ 81 ∷ 0 ∷ 1 ∷ 0 ∷ 0 ∷ 0 ∷ 0 ∷ 0 ∷ 0 ∷ 0 ∷ [])
      (omega arith) (omega arith) refl

-- A stand-in for SHA-256 that keeps the bytes.
abbrev same_bytes : Bytes → Bytes
same_bytes b = b

backing_utxo_carries_token-entries_example :
    backing_utxo_carries_token same_bytes
      (replicate 37 1 ++ (replicate 37 2 ++ (3 ∷ [])))
      (replicate 36 2)
    ≡ true
unfolding any_carries join list_eq
backing_utxo_carries_token-entries_example =
    backing_utxo_carries_token-entries same_bytes (replicate 37 1 ∷ replicate 37 2 ∷ []) (3 ∷ [])
      (replicate 36 2) (refl, (refl, tt)) (omega arith)
