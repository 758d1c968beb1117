-- ===== src/History/Compact/Kept.antt =====
-- A compaction in electrumx/server/history.py keeps the history.
use native.Mathlib.Nat.{div-add-mod', mod-lt, mul-le-mul_right}
use mathlib.Core.Path.{subst}
use rxin_dexer.Prelude.{
  ℕ, zero, suc, ◌+◌, ◌-◌, ◌*◌, ◌/◌, ◌<◌, ◌≤◌, ◌≡◌, refl, sym, ap, ◌∙◌, true, List, [], ◌∷◌, ◌++◌,
  arith, ◌==◌, ◌^◌, leb, le→leb, ltb, ltb→lt, ltb→le, Bool-cases, inl, inr, length, length-take,
  length-drop, append_assoc, take, drop, take-append-drop, All,
}
use rxin_dexer.Prelude.Result.{ok, guard, assertion_error, struct_error, ◌>>=◌, >>=-eq-ok}
use rxin_dexer.Util.{Bytes, to_le}
use rxin_dexer.History.Compact.{
  full_hist, chunk_rounds, chunks, write_items, kept_ids, delete_others, put_items, compact_hash_x,
  numbered,
}
use rxin_dexer.History.{Rows, tx_nums_of_rows}
use rxin_dexer.History.Numbers.{
  Log, row_of, rows_of, nums_of, IsSmall, tx_nums-row_of, tx_nums_of_rows-rows_of, take-row_of,
  All-split,
}
use rxin_dexer.History.Compact.Ordered.{Ascend}
use rxin_dexer.History.Compact.Batch.{compacted_rows}

row_of-append : (a b : List ℕ) → row_of (a ++ b) ≡ row_of a ++ row_of b
unfolding row_of
row_of-append [] b = refl
row_of-append (n ∷ a) b =
    ap (λ (t : Bytes). take 5 (to_le 8 n) ++ t) (row_of-append a b)
    ∙ sym (append_assoc (take 5 (to_le 8 n)) (row_of a) (row_of b))

full_hist-rows_of : (log : Log) → full_hist (rows_of log) ≡ row_of (nums_of log)
unfolding full_hist rows_of nums_of
full_hist-rows_of [] = unfold row_of in refl
full_hist-rows_of ((id, ns) ∷ log) =
    ap (λ (t : Bytes). row_of ns ++ t) (full_hist-rows_of log)
    ∙ sym (row_of-append ns (nums_of log))

drop-row_of : (k : ℕ) (ns : List ℕ) → drop (5 * k) (row_of ns) ≡ row_of (drop k ns)
unfolding row_of to_le
drop-row_of zero ns = refl
drop-row_of (suc k) [] = let e : 5 * suc k ≡ suc (5 * k + 4) = omega arith in rw e refl
drop-row_of (suc k) (n ∷ ns) =
    let e : 5 * suc k ≡ suc (suc (suc (suc (suc (5 * k))))) = omega arith in rw e (drop-row_of k ns)

length-row_of : (ns : List ℕ) → length (row_of ns) ≡ 5 * length ns
unfolding row_of to_le
length-row_of [] = refl
length-row_of (n ∷ ns) = omega (arith, length-row_of ns)

-- Rows cut from a row hold its numbers, where there are enough of them.
tx_nums-chunk_rounds :
    (rounds m first : ℕ) (ns : List ℕ)
    → All IsSmall ns
    → length ns ≤ rounds * m
    → tx_nums_of_rows (numbered first (chunk_rounds rounds (5 * m) (row_of ns))) ≡ ok ns
unfolding tx_nums_of_rows numbered chunk_rounds
tx_nums-chunk_rounds zero m first [] small enough = refl
tx_nums-chunk_rounds zero m first (n ∷ ns) small enough = absurd (omega arith)
tx_nums-chunk_rounds (suc rounds) m first ns small enough =
    let whole : take m ns ++ drop m ns ≡ ns = take-append-drop m ns in
    let (front, back) =
      All-split IsSmall (take m ns) (drop m ns) (subst (All IsSmall) (sym whole) small) in
    let e : suc rounds * m ≡ m + rounds * m = grind arith in
    let rest : tx_nums_of_rows
          (numbered (first + 1) (chunk_rounds rounds (5 * m) (row_of (drop m ns))))
        ≡ ok (drop m ns) =
      tx_nums-chunk_rounds rounds m (first + 1) (drop m ns) back
        (omega (arith, e, enough, length-drop m ns)) in
    rw (take-row_of m ns, drop-row_of m ns, tx_nums-row_of (take m ns) front, rest) (ap ok whole)

length-chunk_rounds :
    (rounds size : ℕ) (items : Bytes) → length (chunk_rounds rounds size items) ≡ rounds
unfolding chunk_rounds
length-chunk_rounds zero size items = refl
length-chunk_rounds (suc rounds) size items =
    ap suc (length-chunk_rounds rounds size (drop size items))

-- The rounds of the range reach the end.
enough_rounds : (m count : ℕ) → 0 < m → count ≤ (5 * count + 5 * m - 1) / (5 * m) * m
enough_rounds m count some_entries =
    let r : ℕ = (5 * count + 5 * m - 1) / (5 * m) in
    let e : r * (5 * m) ≡ 5 * (r * m) = grind arith in
    omega (
      arith,
      e,
      div-add-mod' (5 * count + 5 * m - 1) (5 * m),
      mod-lt (5 * count + 5 * m - 1) {m = 5 * m} (omega arith),
    )

-- They are no more than there is room for.
few_rounds :
    (m count most : ℕ) → 0 < m → count ≤ most * m → (5 * count + 5 * m - 1) / (5 * m) ≤ most
few_rounds m count most some_entries fits =
    let r : ℕ = (5 * count + 5 * m - 1) / (5 * m) in
    elim (Bool-cases (ltb most r)) [
      | inr e ↦ ltb→le most r e
      | inl e ↦
          let more : most + 1 ≤ r = omega (arith, ltb→lt most r e) in
          let product : (most + 1) * (5 * m) ≤ r * (5 * m) = mul-le-mul_right (5 * m) more in
          let expand : (most + 1) * (5 * m) ≡ 5 * (most * m) + 5 * m = grind arith in
          absurd
            (omega (arith, product, expand, fits, div-add-mod' (5 * count + 5 * m - 1) (5 * m)))
    ]

-- Compacting rows whose numbers grow and that hold some transaction numbers, at most as many as 2 ^ 32
-- rows of the positive size have room for, raises nothing: behind it the rows are the parts of that size of the whole history, numbered from
-- 0, and they hold the same transaction numbers in the same order.
pub compact_hash_x-tx_nums :
    (max_hist_row_entries : ℕ) (log : Log)
    → 0 < max_hist_row_entries
    → 0 < length (nums_of log)
    → length (nums_of log) ≤ 256 ^ 4 * max_hist_row_entries
    → Ascend 0 (rows_of log)
    → All IsSmall (nums_of log)
    → (after : Rows) × (compact_hash_x max_hist_row_entries (rows_of log) ≡ ok after)
      × (after ≡ numbered 0 (chunks (row_of (nums_of log)) (5 * max_hist_row_entries)))
      × (tx_nums_of_rows after ≡ tx_nums_of_rows (rows_of log))
unfolding compact_hash_x chunks
compact_hash_x-tx_nums m log some_entries some_nums fits asc small =
    let ns : List ℕ = nums_of log in
    let size : m * 5 ≡ 5 * m = omega arith in
    let r : ℕ = (5 * length ns + 5 * m - 1) / (5 * m) in
    let parts : List Bytes = chunk_rounds r (5 * m) (row_of ns) in
    let after : Rows =
      put_items (write_items 0 parts (rows_of log))
        (delete_others (kept_ids 0 parts (rows_of log)) (rows_of log)) in
    let rounds : ℕ = r in
    let enough : length ns ≤ r * m = enough_rounds m (length ns) some_entries in
    let numbers_fit : leb r (256 ^ 4) ≡ true =
      le→leb r (256 ^ 4) (few_rounds m (length ns) (256 ^ 4) some_entries fits) in
    let positive : r - 1 + 1 ≡ r = at_least_one r m (length ns) enough some_nums in
    let counted : (r - 1 + 1 == r) ≡ true = ground arith in
    let rows : after ≡ numbered 0 parts = compacted_rows parts (rows_of log) asc in
    (
      after,
      rw
          (
            size,
            full_hist-rows_of log,
            length-row_of ns,
            length-chunk_rounds r (5 * m) (row_of ns),
            numbers_fit,
            counted,
          )
          refl,
      rows ∙ rw (length-row_of ns) refl,
      ap tx_nums_of_rows rows
          ∙ tx_nums-chunk_rounds r m 0 ns small enough
          ∙ sym (tx_nums_of_rows-rows_of log small),
    )
  where
    at_least_one : (r m count : ℕ) → count ≤ r * m → 0 < count → r - 1 + 1 ≡ r
    at_least_one zero m count enough some_count = absurd (omega arith)
    at_least_one (suc r) m count enough some_count = omega arith

-- A row of at most so many bytes.
abbrev pub AtMost : ℕ → ℕ × Bytes → Type 0
AtMost size (id, row) = length row ≤ size

numbered-AtMost :
    (size rounds first : ℕ) (items : Bytes)
    → All (AtMost size) (numbered first (chunk_rounds rounds size items))
unfolding numbered chunk_rounds
numbered-AtMost size zero first items = tt
numbered-AtMost size (suc rounds) first items = (
  omega (arith, length-take size items),
  numbered-AtMost size rounds (first + 1) (drop size items),
)

-- Whatever rows in the order of their flushes a compaction took, each of the rows that it leaves has
-- at most the bytes of `max_hist_row_entries` transaction numbers.
pub compact_hash_x-AtMost :
    (max_hist_row_entries : ℕ) (rows after : Rows)
    → Ascend 0 rows
    → compact_hash_x max_hist_row_entries rows ≡ ok after
    → All (AtMost (max_hist_row_entries * 5)) after
unfolding compact_hash_x chunks
compact_hash_x-AtMost m rows after asc run =
    let rounds : ℕ = (length (full_hist rows) + m * 5 - 1) / (m * 5) in
    let parts : List Bytes = chunk_rounds rounds (m * 5) (full_hist rows) in
    let batch : Rows =
      put_items (write_items 0 parts rows) (delete_others (kept_ids 0 parts rows) rows) in
    let (_, _, counted) =
      >>=-eq-ok (guard (leb (length parts) (256 ^ 4)) struct_error)
        (λ (fits : Unit {0}).
          guard (length parts - 1 + 1 == rounds) assertion_error >>= λ (checked : Unit {0}).
          ok batch)
        run in
    let (_, _, done) =
      >>=-eq-ok (guard (length parts - 1 + 1 == rounds) assertion_error)
        (λ (checked : Unit {0}). ok batch) counted in
    let left : numbered 0 parts ≡ after = sym (compacted_rows parts rows asc) ∙ ok_injective done in
    subst (All (AtMost (m * 5))) left (numbered-AtMost (m * 5) rounds 0 (full_hist rows))
  where
    ok_injective : {a b : Rows} → ok a ≡ ok b → a ≡ b
    ok_injective e = cc e
