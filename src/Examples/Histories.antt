-- ===== src/Examples/Histories.antt =====
-- Concrete histories for the theorems on electrumx/server/history.py.
use rxin_dexer.Prelude.{
  All, ◌≡◌, refl, none, some, [], ◌∷◌, ◌++◌, arith, if◌then◌else◌, list_eq, Bool-cases, inl, inr,
}
use rxin_dexer.Prelude.Result.{ok}
use rxin_dexer.Util.{Bytes, to_le, of_le}
use rxin_dexer.Store.Cache.{Cache, get, AreDistinct}
use rxin_dexer.Store.Keys.{has}
use rxin_dexer.History.{
  put_row, Rows, tx_nums, tx_nums_of_rows, History, or_empty, add_unflushed, flush, up_to,
  get_txnums, backup,
}
use rxin_dexer.History.Numbers.{Log, row_of, rows_of, nums_of, below}
use rxin_dexer.History.Unflushed.{touching, add_unflushed-touching}
use rxin_dexer.History.Flushed.{flush-get_txnums}
use rxin_dexer.History.Compact.{
  chunks, compact_hash_x, numbered, full_hist, put_items, write_items, is_same, row_at,
  delete_others, is_kept, kept_ids,
}
use rxin_dexer.History.Compact.Ordered.{Ascend}
use rxin_dexer.History.Compact.Kept.{compact_hash_x-tx_nums, AtMost, compact_hash_x-AtMost}
use rxin_dexer.History.Reorg.{Stores, backup-get_txnums}

abbrev alice : Bytes
alice = 1 ∷ 2 ∷ 3 ∷ []

abbrev bob : Bytes
bob = 4 ∷ 5 ∷ 6 ∷ []

-- Two flushes that touch one hashX, and none that touch another.
abbrev log_of : Bytes → Log
log_of hashX = if list_eq hashX alice then (1, 3 ∷ 5 ∷ []) ∷ (2, 7 ∷ 300 ∷ []) ∷ [] else []

abbrev history : History
history = record {
  unflushed = (alice, row_of (301 ∷ 302 ∷ [])) ∷ [];
  flush_count = 2;
  rows = λ hashX. rows_of (log_of hashX);
}

history-Stores : Stores history.rows log_of
unfolding nums_of
history-Stores hashX = elim (Bool-cases (list_eq hashX alice)) [
  | inl same ↦ rw same (
    refl,
    (
      (
        (omega arith, (omega arith, (omega arith, tt))),
        ((omega arith, (omega arith, tt)), ((omega arith, tt), (tt, tt))),
      ),
      (omega arith, (omega arith, (omega arith, (omega arith, tt)))),
    ),
  )
  | inr apart ↦ rw apart (refl, (tt, tt))
]

backup-get_txnums_example :
    (after : History) × (left : Bytes → Log) × (backup (bob ∷ alice ∷ []) 7 history ≡ ok after)
    × Stores after.rows left
    × ((hashX : Bytes)
        → get_txnums after hashX none
          ≡ ok (
              if has hashX (bob ∷ alice ∷ [])
              then below 7 (nums_of (log_of hashX))
              else nums_of (log_of hashX)))
backup-get_txnums_example = backup-get_txnums history log_of (bob ∷ alice ∷ []) 7 history-Stores

unflushed_row : or_empty (get alice history.unflushed) ≡ row_of (301 ∷ 302 ∷ [])
unfolding or_empty get list_eq
unflushed_row = refl

history-AreDistinct : AreDistinct history.unflushed
unfolding get
history-AreDistinct = (refl, tt)

alice_rows : history.rows alice ≡ rows_of (log_of alice)
alice_rows = refl

flush-get_txnums_example :
    (after : History) × (flush history ≡ ok after)
    × (after.unflushed ≡ [])
    × (get_txnums after alice (some 5) ≡ ok (3 ∷ 5 ∷ 7 ∷ 300 ∷ 301 ∷ []))
unfolding nums_of up_to list_eq
flush-get_txnums_example =
    flush-get_txnums history alice ((1, 3 ∷ 5 ∷ []) ∷ (2, 7 ∷ 300 ∷ []) ∷ []) (301 ∷ 302 ∷ [])
      (some 5) (omega arith) history-AreDistinct alice_rows (omega arith, (omega arith, tt))
      unflushed_row (omega arith, (omega arith, (omega arith, (omega arith, tt))))
      (omega arith, (omega arith, tt))

alice_held : tx_nums (or_empty (get alice history.unflushed)) ≡ ok (301 ∷ 302 ∷ [])
unfolding get or_empty list_eq tx_nums row_of to_le of_le
alice_held = refl

add_unflushed-touching_example :
    (after : Cache Bytes) × (add_unflushed
        ((alice ∷ bob ∷ alice ∷ []) ∷ (bob ∷ []) ∷ [])
        303
        history.unflushed
      ≡ ok after)
    × AreDistinct after
    × (tx_nums (or_empty (get alice after)) ≡ ok (301 ∷ 302 ∷ 303 ∷ []))
    × ((other : Bytes)
        → or_empty (get other after)
          ≡ or_empty (get other history.unflushed)
            ++ row_of (touching other 303 ((alice ∷ bob ∷ alice ∷ []) ∷ (bob ∷ []) ∷ [])))
unfolding get or_empty list_eq touching has
add_unflushed-touching_example =
    add_unflushed-touching ((alice ∷ bob ∷ alice ∷ []) ∷ (bob ∷ []) ∷ []) 303 history.unflushed
      alice (301 ∷ 302 ∷ []) (omega arith) history-AreDistinct alice_held

-- Two flushes with five numbers, compacted to rows of two.
abbrev two_flushes : Log
two_flushes = (1, 3 ∷ 5 ∷ []) ∷ (4, 7 ∷ 300 ∷ 301 ∷ []) ∷ []

two_flushes-Ascend : Ascend 0 (rows_of two_flushes)
unfolding rows_of
two_flushes-Ascend = (omega arith, (omega arith, tt))

compact_hash_x-tx_nums_example :
    (after : Rows) × (compact_hash_x 2 (rows_of two_flushes) ≡ ok after)
    × (after ≡ numbered 0 (chunks (row_of (3 ∷ 5 ∷ 7 ∷ 300 ∷ 301 ∷ [])) 10))
    × (tx_nums_of_rows after ≡ tx_nums_of_rows (rows_of two_flushes))
unfolding nums_of
compact_hash_x-tx_nums_example =
    compact_hash_x-tx_nums 2 two_flushes (omega arith) (omega arith) (omega arith)
      two_flushes-Ascend
      (omega arith, (omega arith, (omega arith, (omega arith, (omega arith, tt)))))

abbrev three_rows : Rows
three_rows = (0, row_of (3 ∷ 5 ∷ [])) ∷ (1, row_of (7 ∷ 300 ∷ [])) ∷ (2, row_of (301 ∷ [])) ∷ []

compacted : compact_hash_x 2 (rows_of two_flushes) ≡ ok three_rows
unfolding compact_hash_x chunks full_hist rows_of row_of to_le put_items write_items is_same row_at
    list_eq put_row delete_others is_kept kept_ids
compacted = refl

compact_hash_x-AtMost_example : All (AtMost 10) three_rows
compact_hash_x-AtMost_example =
    compact_hash_x-AtMost 2 (rows_of two_flushes) three_rows two_flushes-Ascend compacted
