-- ===== src/History.antt =====
-- electrumx/server/history.py: the numbers of the transactions that touch a hashX, unflushed in a
-- dict and flushed as rows of the history database. A row's key is the hashX and the number of the
-- flush in four big-endian bytes, so that the database is modelled by the rows of each hashX in the
-- order of their flushes, which is the order of `iterator(prefix=hashX)`.
pub mod Compact
pub mod Numbers
pub mod Unflushed
pub mod Flushed
pub mod Reorg
use mathlib.Core.List.{reverse}
use rxin_dexer.Prelude.{
  ℕ, zero, suc, ◌+◌, ◌*◌, ◌^◌, Bool, Option, none, some, List, [], ◌∷◌, ◌++◌, ltb, ◌==◌,
  if◌then◌else◌, list_eq, take,
}
use rxin_dexer.Prelude.Result.{Result, ok, err, struct_error, value_error, ◌>>=◌, ◌>>◌, guard}
use rxin_dexer.Util.{Bytes, of_le, pack_le_uint}
use rxin_dexer.Store.Cache.{Cache, get, set}
use rxin_dexer.Store.Keys.{distinct}

-- The rows of one hashX, each with the number of its flush.
abbrev pub Rows : Type 0
Rows = List (ℕ × Bytes)

pub record History : Type 0 where
  pub unflushed : Cache Bytes
  pub flush_count : ℕ
  pub rows : Bytes → Rows

unfoldable pub or_empty : Option Bytes → Bytes
or_empty none = []
or_empty (some row) = row

-- `unflushed[hashX].extend(tx_numb)` for each member of a set.
unfoldable pub extend : Bytes → List Bytes → Cache Bytes → Cache Bytes
extend tx_numb [] unflushed = unflushed
extend tx_numb (hashX ∷ hashXs) unflushed =
    extend tx_numb hashXs (set hashX (or_empty (get hashX unflushed) ++ tx_numb) unflushed)

unfoldable pub add_unflushed : List (List Bytes) → ℕ → Cache Bytes → Result (Cache Bytes)
add_unflushed [] tx_num unflushed = ok unflushed
add_unflushed (hashXs ∷ hash_xs_by_tx) tx_num unflushed = do
  tx_numb ← pack_le_uint 8 tx_num
  add_unflushed hash_xs_by_tx (tx_num + 1) (extend (take 5 tx_numb) (distinct hashXs) unflushed)

-- `batch.put(hashX + flush_id, row)` on the rows of the hashX.
unfoldable pub put_row : ℕ → Bytes → Rows → Rows
put_row id row [] = (id, row) ∷ []
put_row id row ((first, old) ∷ rows) =
    let below = put_row id row rows in
    if id == first
    then (id, row) ∷ rows
    else if ltb id first
    then (id, row) ∷ (first, old) ∷ rows
    else (first, old) ∷ below

unfoldable pub put_at : Bytes → (Rows → Rows) → (Bytes → Rows) → Bytes → Rows
put_at hashX change rows other = if list_eq other hashX then change (rows other) else rows other

-- The batch of a flush. The keys differ, so that their order does not matter.
unfoldable pub put_rows : ℕ → Cache Bytes → (Bytes → Rows) → Bytes → Rows
put_rows id [] rows = rows
put_rows id ((hashX, row) ∷ unflushed) rows =
    put_rows id unflushed (put_at hashX (put_row id row) rows)

-- A flush id of more than four bytes raises struct.error.
unfoldable pub flush : History → Result History
flush h = do
  let flush_count = h.flush_count + 1
  guard (ltb flush_count (256 ^ 4)) struct_error
  ok (record {
    unflushed = [];
    flush_count = flush_count;
    rows = put_rows flush_count h.unflushed h.rows;
  })

-- `unpack_le_uint64(tx_numb + bytes(3))` for each chunk of 5 bytes; a shorter one raises.
unfoldable pub tx_nums : Bytes → Result (List ℕ)
tx_nums [] = ok []
tx_nums (a ∷ b ∷ c ∷ d ∷ e ∷ rest) = do
  nums ← tx_nums rest
  ok (of_le (a ∷ b ∷ c ∷ d ∷ e ∷ 0 ∷ 0 ∷ 0 ∷ []) ∷ nums)
tx_nums _ = err struct_error

unfoldable pub tx_nums_of_rows : Rows → Result (List ℕ)
tx_nums_of_rows [] = ok []
tx_nums_of_rows ((id, row) ∷ rows) = do
  nums ← tx_nums row
  rest ← tx_nums_of_rows rows
  ok (nums ++ rest)

-- `limit`, where None is no limit.
unfoldable pub up_to : Option ℕ → List ℕ → List ℕ
up_to none nums = nums
up_to (some limit) nums = take limit nums

-- What the generator yields with `reverse=False`, read to its end. The generator reads a row when the
-- caller gets to it, so for rows of whole numbers it yields these numbers; a row of no whole numbers
-- raises here, and there only when it is reached.
unfoldable pub get_txnums : History → Bytes → Option ℕ → Result (List ℕ)
get_txnums h hashX limit = do nums ← tx_nums_of_rows (h.rows hashX); ok (up_to limit nums)

-- `bisect_left(a, x)` on an array in order.
unfoldable pub bisect_left : List ℕ → ℕ → ℕ
bisect_left [] x = 0
bisect_left (n ∷ a) x = let below = bisect_left a x in if ltb n x then suc below else 0

-- `array.frombytes` of a row with three zeros behind each 5 bytes, which has another exception than
-- `struct.unpack` for a row of no whole numbers.
abbrev pub as_array : Result (List ℕ) → Result (List ℕ)
as_array (ok nums) = ok nums
as_array (err exception) = err value_error

unfoldable pub frombytes : Bytes → Result (List ℕ)
frombytes hist = as_array (tx_nums hist)

-- The loop of `backup` over the rows, the last one first, and what it leaves.
unfoldable pub backup_rows : ℕ → Rows → Result Rows
backup_rows tx_count [] = ok []
backup_rows tx_count ((id, hist) ∷ rows) =
    let deleted = backup_rows tx_count rows in
    do
      a ← frombytes hist
      let idx = bisect_left a tx_count
      if ltb 0 idx then ok ((id, take (5 * idx) hist) ∷ rows) else deleted

unfoldable pub backup_all : ℕ → List Bytes → (Bytes → Rows) → Result (Bytes → Rows)
backup_all tx_count [] rows = ok rows
backup_all tx_count (hashX ∷ hashXs) rows = do
  kept ← backup_rows tx_count (reverse (rows hashX))
  backup_all tx_count hashXs (put_at hashX (λ old. reverse kept) rows)

unfoldable pub backup : List Bytes → ℕ → History → Result History
backup hashXs tx_count h = do
  rows ← backup_all tx_count hashXs h.rows
  ok (record h { flush_count = h.flush_count + 1; rows = rows })
