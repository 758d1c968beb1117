-- ===== src/History/Compact/Ordered.antt =====
-- Rows in the order of their numbers, by what stands at each number.
use mathlib.Core.Path.{subst}
use rxin_dexer.Prelude.{
  ◌≢◌, some_injective, ℕ, ◌+◌, ◌<◌, ◌≤◌, ◌≡◌, refl, sym, ap, ◌∙◌, true, false, none, some, [], ◌∷◌,
  arith, ltb, ltb→lt, ltb→le, ◌==◌, if◌then◌else◌, Bool-cases, inl, inr,
}
use rxin_dexer.Util.{Bytes}
use rxin_dexer.History.{Rows, put_row}
use rxin_dexer.History.Compact.{row_at}

-- The numbers of the flushes grow.
abbrev pub Ascend : ℕ → Rows → Type 0
Ascend n [] = Unit
Ascend n ((id, row) ∷ rows) = (n ≤ id) × Ascend (id + 1) rows

pub row_at-below : (i n : ℕ) (rows : Rows) → i < n → Ascend n rows → row_at i rows ≡ none
unfolding row_at
row_at-below i n [] lt asc = refl
row_at-below i n ((id, row) ∷ rows) lt (le, asc) =
    let differ : (i == id) ≡ false = ground arith in
    rw differ (row_at-below i (id + 1) rows (omega arith) asc)

pub Ascend-weaken : (m n : ℕ) (rows : Rows) → m ≤ n → Ascend n rows → Ascend m rows
Ascend-weaken m n [] le asc = tt
Ascend-weaken m n ((id, row) ∷ rows) le (le', asc) = (omega arith, asc)

row_at-first : (i : ℕ) (row : Bytes) (rows : Rows) → row_at i ((i, row) ∷ rows) ≡ some row
unfolding row_at
row_at-first i row rows = let e : (i == i) ≡ true = ground arith in rw e refl

row_at-later :
    (i id : ℕ) (row : Bytes) (rows : Rows) → i ≢ id → row_at i ((id, row) ∷ rows) ≡ row_at i rows
unfolding row_at
row_at-later i id row rows differ = let e : (i == id) ≡ false = ground arith in rw e refl

-- Two rows that are first, with everything else in order and the same, have one number.
first_same :
    (id id' : ℕ) (row row' : Bytes) (a b : Rows)
    → Ascend (id' + 1) b
    → ((i : ℕ) → row_at i ((id, row) ∷ a) ≡ row_at i ((id', row') ∷ b))
    → id' ≤ id
first_same id id' row row' a b ab same = elim (Bool-cases (ltb id id')) [
  | inr ge ↦ ltb→le id id' ge
  | inl lt ↦
      let gone : row_at id ((id', row') ∷ b) ≡ none =
        row_at-below id id' ((id', row') ∷ b) (ltb→lt id id' lt) (omega arith, ab) in
      absurd (cc (row_at-first id row a, same id, gone))
]

-- Rows in order are given by what stands at each number.
pub rows_same :
    (n : ℕ) (a b : Rows) → Ascend n a → Ascend n b → ((i : ℕ) → row_at i a ≡ row_at i b) → a ≡ b
rows_same n [] [] aa ab same = refl
rows_same n [] ((id, row) ∷ b) aa ab same =
    let gone : row_at id [] ≡ none = unfold row_at in refl in
    absurd (cc (row_at-first id row b, same id, gone))
rows_same n ((id, row) ∷ a) [] aa ab same =
    let gone : row_at id [] ≡ none = unfold row_at in refl in
    absurd (cc (row_at-first id row a, same id, gone))
rows_same n ((id, row) ∷ a) ((id', row') ∷ b) (la, aa) (lb, ab) same =
    let ids : id ≡ id' = omega (
      arith,
      first_same id id' row row' a b ab same,
      first_same id' id row' row b a aa (λ i. sym (same i)),
    ) in
    let here : row_at id ((id', row') ∷ b) ≡ some row' =
      ap (λ (k : ℕ). row_at k ((id', row') ∷ b)) ids ∙ row_at-first id' row' b in
    let rows : row ≡ row' = some_injective (sym (row_at-first id row a) ∙ same id ∙ here) in
    let ab' : Ascend (id + 1) b = subst (λ (k : ℕ). Ascend (k + 1) b) (sym ids) ab in
    let rest : a ≡ b = rows_same (id + 1) a b aa ab' (λ i. elim (Bool-cases (ltb id i)) [
      | inl lt ↦
          let above : id < i = ltb→lt id i lt in
          sym (row_at-later i id row a (λ e. absurd (omega (arith, e, above))))
          ∙ same i
          ∙ row_at-later i id' row' b (λ e. absurd (omega (arith, e, above, ids)))
      | inr ge ↦
          let below : i < id + 1 = omega (arith, ltb→le id i ge) in
          row_at-below i (id + 1) a below aa ∙ sym (row_at-below i (id + 1) b below ab')
    ]) in
    ap (λ (k : ℕ). (k, row) ∷ a) ids
    ∙ ap (λ (r : Bytes). (id', r) ∷ a) rows
    ∙ ap (λ (t : Rows). (id', row') ∷ t) rest

pub put_row-Ascend :
    (m id : ℕ) (row : Bytes) (rows : Rows) → m ≤ id → Ascend m rows → Ascend m (put_row id row rows)
unfolding put_row
put_row-Ascend m id row [] le asc = (le, tt)
put_row-Ascend m id row ((first, old) ∷ rows) le (lf, asc) = elim (Bool-cases (id == first)) [
  | inl e ↦
      let it : id ≡ first = ground arith in
      rw e (le, subst (λ (k : ℕ). Ascend (k + 1) rows) (sym it) asc)
  | inr e ↦ elim (Bool-cases (ltb id first)) [
    | inl lt ↦ rw (e, lt) (le, (omega (arith, ltb→lt id first lt), asc))
    | inr ge ↦
        let above : first + 1 ≤ id = ground arith in
        rw (e, ge) (lf, put_row-Ascend (first + 1) id row rows above asc)
  ]
]

pub row_at-put_row :
    (i m id : ℕ) (row : Bytes) (rows : Rows)
    → Ascend m rows
    → row_at i (put_row id row rows) ≡ (if i == id then some row else row_at i rows)
unfolding put_row row_at
row_at-put_row i m id row [] asc = refl
row_at-put_row i m id row ((first, old) ∷ rows) (lf, asc) = elim (Bool-cases (id == first)) [
  | inl e ↦
      let it : id ≡ first = ground arith in
      rw e (elim (Bool-cases (i == id)) [
        | inl same ↦ rw same refl
        | inr apart ↦ let other : (i == first) ≡ false = ground arith in rw (apart, other) refl
      ])
  | inr e ↦ elim (Bool-cases (ltb id first)) [
    | inl lt ↦ rw (e, lt) refl
    | inr ge ↦
        rw (e, ge)
          (elim (Bool-cases (i == first)) [
            | inr apart ↦ rw apart (row_at-put_row i (first + 1) id row rows asc)
            | inl same ↦ let other : (i == id) ≡ false = ground arith in rw (same, other) refl
          ])
  ]
]
