-- ===== src/History/Compact/Batch.antt =====
-- The batch of a compaction in electrumx/server/history.py: deletes, then puts of what differs.
use rxin_dexer.Prelude.{
  ℕ, ◌+◌, ◌<◌, ◌≡◌, refl, ap, ◌∙◌, true, false, Option, none, some, List, [], ◌∷◌, arith, ◌==◌,
  if◌then◌else◌, list_eq→eq, Bool-cases, inl, inr,
}
use rxin_dexer.Util.{Bytes}
use rxin_dexer.History.{Rows, put_row}
use rxin_dexer.History.Compact.{
  row_at, is_same, write_items, kept_ids, is_kept, delete_others, put_items, numbered,
}
use rxin_dexer.History.Compact.Ordered.{
  Ascend, row_at-below, Ascend-weaken, rows_same, put_row-Ascend, row_at-put_row,
}

delete_others-Ascend :
    (m : ℕ) (ids : List ℕ) (rows : Rows) → Ascend m rows → Ascend m (delete_others ids rows)
unfolding delete_others
delete_others-Ascend m ids [] asc = tt
delete_others-Ascend m ids ((id, row) ∷ rows) (le, asc) = elim (Bool-cases (is_kept id ids)) [
  | inl kept ↦ rw kept (le, delete_others-Ascend (id + 1) ids rows asc)
  | inr gone ↦ rw gone (
      Ascend-weaken m (id + 1) (delete_others ids rows) (omega arith)
        (delete_others-Ascend (id + 1) ids rows asc))
]

row_at-delete_others :
    (i m : ℕ) (ids : List ℕ) (rows : Rows)
    → Ascend m rows
    → row_at i (delete_others ids rows) ≡ (if is_kept i ids then row_at i rows else none)
unfolding delete_others row_at
row_at-delete_others i m ids [] asc = elim (Bool-cases (is_kept i ids)) [
  | inl e ↦ rw e refl
  | inr e ↦ rw e refl
]
row_at-delete_others i m ids ((id, row) ∷ rows) (le, asc) =
    let rest = row_at-delete_others i (id + 1) ids rows asc in
    elim (Bool-cases (i == id)) [
      | inl same ↦
          let it : i ≡ id = ground arith in
          let above : row_at i rows ≡ none = row_at-below i (id + 1) rows (omega (arith, it)) asc in
          elim (Bool-cases (is_kept id ids)) [
            | inl kept ↦
                let here : is_kept i ids ≡ true = ap (λ (k : ℕ). is_kept k ids) it ∙ kept in
                rw (kept, same, here) refl
            | inr gone ↦
                let here : is_kept i ids ≡ false = ap (λ (k : ℕ). is_kept k ids) it ∙ gone in
                rw (gone, same, here) (rest ∙ rw here refl)
          ]
      | inr apart ↦ elim (Bool-cases (is_kept id ids)) [
        | inl kept ↦ rw (kept, apart) rest
        | inr gone ↦ rw (gone, apart) rest
      ]
    ]

put_items-Ascend : (items rows : Rows) → Ascend 0 rows → Ascend 0 (put_items items rows)
unfolding put_items
put_items-Ascend [] rows asc = asc
put_items-Ascend ((id, row) ∷ items) rows asc =
    put_items-Ascend items (put_row id row rows) (put_row-Ascend 0 id row rows (omega arith) asc)

numbered-Ascend : (n : ℕ) (parts : List Bytes) → Ascend n (numbered n parts)
unfolding numbered
numbered-Ascend n [] = tt
numbered-Ascend n (part ∷ parts) = (omega arith, numbered-Ascend (n + 1) parts)

kept_below :
    (i n : ℕ) (parts : List Bytes) (rows : Rows) → i < n → is_kept i (kept_ids n parts rows) ≡ false
unfolding kept_ids is_kept
kept_below i n [] rows lt = refl
kept_below i n (part ∷ parts) rows lt =
    let rest = kept_below i (n + 1) parts rows (omega arith) in
    let apart : (i == n) ≡ false = ground arith in
    elim (Bool-cases (is_same part (row_at n rows))) [
      | inl e ↦ rw (e, apart) rest
      | inr e ↦ rw e rest
    ]

unfoldable or_before : Option Bytes → Option Bytes → Option Bytes
or_before (some row) before = some row
or_before none before = before

same_row : (part : Bytes) (found : Option Bytes) → is_same part found ≡ true → found ≡ some part
unfolding is_same
same_row part none e = cc e
same_row part (some row) e = ap some (list_eq→eq row part e)

abbrev set_at : ℕ → Bytes → (ℕ → Option Bytes) → ℕ → Option Bytes
set_at n part before i = if i == n then some part else before i

parts_over :
    (i n : ℕ) (part : Bytes) (parts : List Bytes) (before : ℕ → Option Bytes)
    → or_before (row_at i (numbered (n + 1) parts)) (set_at n part before i)
      ≡ or_before (row_at i (numbered n (part ∷ parts))) (before i)
unfolding or_before numbered row_at
parts_over i n part parts before = elim (Bool-cases (i == n)) [
  | inr apart ↦ rw apart refl
  | inl same ↦
      let lt : i < n + 1 = ground arith in
      rw (row_at-below i (n + 1) (numbered (n + 1) parts) lt (numbered-Ascend (n + 1) parts), same)
        refl
]

-- A part that stands already is kept.
base_kept :
    (n : ℕ) (part : Bytes) (parts : List Bytes) (rows base : Rows) (before : ℕ → Option Bytes)
    (i : ℕ)
    → is_same part (row_at n rows) ≡ true
    → row_at i base
      ≡ (if is_kept i (kept_ids n (part ∷ parts) rows) then row_at i rows else before i)
    → row_at i base
      ≡ (if is_kept i (kept_ids (n + 1) parts rows) then row_at i rows else set_at n part before i)
unfolding kept_ids is_kept
base_kept n part parts rows base before i e base_is = elim (Bool-cases (i == n)) [
  | inr apart ↦ rw apart (rw (e, apart) at base_is)
  | inl same ↦
      let it : i ≡ n = ground arith in
      let there : row_at i base ≡ row_at i rows = rw (e, same) at base_is in
      let row : row_at i rows ≡ some part =
        ap (λ (k : ℕ). row_at k rows) it ∙ same_row part (row_at n rows) e in
      rw (kept_below i (n + 1) parts rows (omega (arith, it)), same) (there ∙ row)
]

-- Another part is put.
base_put :
    (n : ℕ) (part : Bytes) (parts : List Bytes) (rows base : Rows) (before : ℕ → Option Bytes)
    (i : ℕ)
    → Ascend 0 base
    → is_same part (row_at n rows) ≡ false
    → row_at i base
      ≡ (if is_kept i (kept_ids n (part ∷ parts) rows) then row_at i rows else before i)
    → row_at i (put_row n part base)
      ≡ (if is_kept i (kept_ids (n + 1) parts rows) then row_at i rows else set_at n part before i)
unfolding kept_ids
base_put n part parts rows base before i asc e base_is =
    row_at-put_row i 0 n part base asc ∙ elim (Bool-cases (i == n)) [
      | inr apart ↦ rw apart (rw e at base_is)
      | inl same ↦
          let lt : i < n + 1 = ground arith in rw (kept_below i (n + 1) parts rows lt, same) refl
    ]

-- What the batch leaves at each number, from the n-th part on, over what was there before.
put_items-write_items :
    (n : ℕ) (parts : List Bytes) (rows base : Rows) (before : ℕ → Option Bytes)
    → Ascend 0 base
    → ((i : ℕ)
        → row_at i base ≡ (if is_kept i (kept_ids n parts rows) then row_at i rows else before i))
    → (i : ℕ)
    → row_at i (put_items (write_items n parts rows) base)
      ≡ or_before (row_at i (numbered n parts)) (before i)
unfolding put_items write_items
put_items-write_items n [] rows base before asc base_is i =
    unfold kept_ids is_kept numbered row_at or_before in base_is i
put_items-write_items n (part ∷ parts) rows base before asc base_is i =
    elim (Bool-cases (is_same part (row_at n rows))) [
      | inl e ↦ rw e (
          put_items-write_items (n + 1) parts rows base (set_at n part before) asc
            (λ j. base_kept n part parts rows base before j e (base_is j)) i
          ∙ parts_over i n part parts before)
      | inr e ↦ rw e (
          put_items-write_items (n + 1) parts rows (put_row n part base) (set_at n part before)
            (put_row-Ascend 0 n part base (omega arith) asc)
            (λ j. base_put n part parts rows base before j asc e (base_is j)) i
          ∙ parts_over i n part parts before)
    ]

or_before-none : (found : Option Bytes) → or_before found none ≡ found
unfolding or_before
or_before-none none = refl
or_before-none (some row) = refl

-- Behind the batch the rows are the parts, numbered from 0.
pub compacted_rows :
    (parts : List Bytes) (rows : Rows)
    → Ascend 0 rows
    → put_items (write_items 0 parts rows) (delete_others (kept_ids 0 parts rows) rows)
      ≡ numbered 0 parts
compacted_rows parts rows asc =
    let base : Rows = delete_others (kept_ids 0 parts rows) rows in
    let base_asc : Ascend 0 base = delete_others-Ascend 0 (kept_ids 0 parts rows) rows asc in
    rows_same 0 (put_items (write_items 0 parts rows) base) (numbered 0 parts)
      (put_items-Ascend (write_items 0 parts rows) base base_asc) (numbered-Ascend 0 parts)
      (λ i.
        put_items-write_items 0 parts rows base (λ j. none) base_asc
          (λ j. row_at-delete_others j 0 (kept_ids 0 parts rows) rows asc) i
        ∙ or_before-none (row_at i (numbered 0 parts)))
