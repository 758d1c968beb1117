-- ===== src/History/Compact.antt =====
-- `_compact_hashX` and the batch of `_flush_compaction` of electrumx/server/history.py on the rows of
-- one hashX: its history is cut anew into rows of a fixed size, and only what changes is written.
pub mod Ordered
pub mod Batch
pub mod Kept
use mathlib.Core.Path.{subst}
use rxin_dexer.Prelude.{
  ◌≢◌, some_injective, ℕ, zero, suc, ◌+◌, ◌-◌, ◌*◌, ◌/◌, ◌<◌, ◌≤◌, ◌≡◌, refl, sym, ap, ◌∙◌, Bool,
  true, false, Option, none, some, List, [], ◌∷◌, ◌++◌, arith, ltb, ltb→lt, ltb→le, le→ltb, lt→ltb,
  ◌==◌, ◌^◌, leb, if◌then◌else◌, list_eq, list_eq→eq, length, take, drop, take-append-drop,
  append-nil, All, Bool-cases, inl, inr, max,
}
use rxin_dexer.Prelude.Result.{Result, ok, assertion_error, struct_error, guard, ◌>>=◌, ◌>>◌}
use rxin_dexer.Util.{Bytes}
use rxin_dexer.History.{Rows, put_row}

-- `b''.join(hist_list)`
unfoldable pub full_hist : Rows → Bytes
full_hist [] = []
full_hist ((id, row) ∷ rows) = row ++ full_hist rows

-- `util.chunks`: the rounds of `range(0, len(items), size)`.
unfoldable pub chunk_rounds : ℕ → ℕ → Bytes → List Bytes
chunk_rounds zero size items = []
chunk_rounds (suc rounds) size items = take size items ∷ chunk_rounds rounds size (drop size items)

unfoldable pub chunks : Bytes → ℕ → List Bytes
unfolding chunk_rounds
chunks items size = chunk_rounds ((length items + size - 1) / size) size items

-- `hist_map.get(key)`
unfoldable pub row_at : ℕ → Rows → Option Bytes
row_at id [] = none
row_at id ((first, row) ∷ rows) =
    let rest = row_at id rows in if id == first then some row else rest

-- `hist_map.get(key) == chunk`
unfoldable pub is_same : Bytes → Option Bytes → Bool
is_same chunk none = false
is_same chunk (some row) = list_eq row chunk

-- The rows to write, from a number on.
unfoldable pub write_items : ℕ → List Bytes → Rows → Rows
write_items n [] rows = []
write_items n (chunk ∷ chunks) rows =
    let rest = write_items (n + 1) chunks rows in
    if is_same chunk (row_at n rows) then rest else (n, chunk) ∷ rest

-- The rows whose keys stay, being those removed from `keys_to_delete`.
unfoldable pub kept_ids : ℕ → List Bytes → Rows → List ℕ
kept_ids n [] rows = []
kept_ids n (chunk ∷ chunks) rows =
    let rest = kept_ids (n + 1) chunks rows in
    if is_same chunk (row_at n rows) then n ∷ rest else rest

unfoldable pub is_kept : ℕ → List ℕ → Bool
is_kept id [] = false
is_kept id (first ∷ ids) = let rest = is_kept id ids in if id == first then true else rest

-- The deletes of the batch, which come first.
unfoldable pub delete_others : List ℕ → Rows → Rows
delete_others ids [] = []
delete_others ids ((id, row) ∷ rows) =
    let rest = delete_others ids rows in if is_kept id ids then (id, row) ∷ rest else rest

-- The puts of the batch.
unfoldable pub put_items : Rows → Rows → Rows
put_items [] rows = rows
put_items ((id, row) ∷ items) rows = put_items items (put_row id row rows)

-- The rows behind a compaction, with `max_hist_row_entries`. `pack_be_uint32(n)` raises for a row
-- number that has more than 4 bytes, and behind the loop the number of rows is asserted.
unfoldable pub compact_hash_x : ℕ → Rows → Result Rows
compact_hash_x max_hist_row_entries rows = do
  let max_row_size = max_hist_row_entries * 5
  let parts = chunks (full_hist rows) max_row_size
  let nrows = (length (full_hist rows) + max_row_size - 1) / max_row_size
  guard (leb (length parts) (256 ^ 4)) struct_error
  guard (length parts - 1 + 1 == nrows) assertion_error
  ok (put_items (write_items 0 parts rows) (delete_others (kept_ids 0 parts rows) rows))

-- The rows that hold the chunks, numbered from a number on.
unfoldable pub numbered : ℕ → List Bytes → Rows
numbered n [] = []
numbered n (chunk ∷ chunks) = (n, chunk) ∷ numbered (n + 1) chunks
