-- ===== src/History/Unflushed.antt =====
-- What `add_unflushed` and `flush` of electrumx/server/history.py add to the history of a hashX.
use rxin_dexer.Prelude.{
  ℕ, ◌+◌, ◌^◌, ◌≤◌, ◌≡◌, refl, sym, ap, ◌∙◌, Bool, false, List, [], ◌∷◌, ◌++◌, ◌||◌, arith, lt→ltb,
  if◌then◌else◌, list_eq, list_eq→eq, list_eq_sym, list_eq_refl, length, take, Bool-cases, inl, inr,
  append_assoc, append-nil, All,
}
use rxin_dexer.Prelude.Result.{ok}
use rxin_dexer.Util.{Bytes, to_le, pack_le_uint}
use rxin_dexer.Store.Cache.{Cache, get, set, get-set, AreDistinct, set-AreDistinct}
use rxin_dexer.Store.Keys.{has, without, distinct}
use rxin_dexer.History.{or_empty, extend, add_unflushed, tx_nums}
use rxin_dexer.History.Numbers.{row_of, IsSmall, tx_nums-row_of, tx_nums-append}

-- The numbers, from the first on, of the transactions that touch a hashX.
unfoldable pub touching : Bytes → ℕ → List (List Bytes) → List ℕ
touching hashX n [] = []
touching hashX n (hashXs ∷ rest) =
    let more = touching hashX (n + 1) rest in if has hashX hashXs then n ∷ more else more

has-without :
    (x y : Bytes) (xs : List Bytes)
    → has y (without x xs) ≡ (if list_eq x y then false else has y xs)
unfolding has without
has-without x y [] = elim (Bool-cases (list_eq x y)) [ inl e ↦ rw e refl | inr e ↦ rw e refl ]
has-without x y (z ∷ xs) = elim (Bool-cases (list_eq x z)) [
  | inl same ↦ elim (Bool-cases (list_eq x y)) [
    | inl e ↦ rw (same, e) (has-without x y xs ∙ rw e refl)
    | inr e ↦
        let apart : list_eq y z ≡ false =
          list_eq_sym y z ∙ ap (λ (t : Bytes). list_eq t y) (sym (list_eq→eq x z same)) ∙ e in
        rw (same, e, apart) (has-without x y xs ∙ rw e refl)
  ]
  | inr differ ↦ elim (Bool-cases (list_eq x y)) [
    | inr e ↦ rw (differ, e) (ap (λ (t : Bool). list_eq y z || t) (has-without x y xs ∙ rw e refl))
    | inl e ↦
        let apart : list_eq y z ≡ false =
          ap (λ (t : Bytes). list_eq t z) (sym (list_eq→eq x y e)) ∙ differ in
        rw (differ, e, apart) (has-without x y xs ∙ rw e refl)
  ]
]

-- No member occurs twice.
abbrev AreApart : List Bytes → Type 0
AreApart [] = Unit
AreApart (x ∷ xs) = (has x xs ≡ false) × AreApart xs

without-AreApart : (x : Bytes) (xs : List Bytes) → AreApart xs → AreApart (without x xs)
unfolding without
without-AreApart x [] set = tt
without-AreApart x (y ∷ ys) (fresh, set) = elim (Bool-cases (list_eq x y)) [
  | inl e ↦ rw e (without-AreApart x ys set)
  | inr e ↦ rw e ((has-without x y ys ∙ rw e fresh), without-AreApart x ys set)
]

distinct-AreApart : (xs : List Bytes) → AreApart (distinct xs)
unfolding distinct
distinct-AreApart [] = tt
distinct-AreApart (x ∷ xs) = (
  has-without x x (distinct xs) ∙ rw (list_eq_refl x) refl,
  without-AreApart x (distinct xs) (distinct-AreApart xs),
)

has-distinct : (y : Bytes) (xs : List Bytes) → has y (distinct xs) ≡ has y xs
unfolding has distinct
has-distinct y [] = refl
has-distinct y (x ∷ xs) = elim (Bool-cases (list_eq y x)) [
  | inl e ↦ rw e refl
  | inr e ↦
      let apart : list_eq x y ≡ false = list_eq_sym x y ∙ e in
      rw e (has-without x y (distinct xs) ∙ rw apart (has-distinct y xs))
]

extend-get :
    (hashX tx_numb : Bytes) (hashXs : List Bytes) (unflushed : Cache Bytes)
    → AreApart hashXs
    → or_empty (get hashX (extend tx_numb hashXs unflushed))
      ≡ or_empty (get hashX unflushed) ++ (if has hashX hashXs then tx_numb else [])
unfolding extend has
extend-get hashX tx_numb [] unflushed set = sym (append-nil (or_empty (get hashX unflushed)))
extend-get hashX tx_numb (first ∷ hashXs) unflushed (fresh, set_rest) =
    let row : Bytes = or_empty (get first unflushed) ++ tx_numb in
    extend-get hashX tx_numb hashXs (set first row unflushed) set_rest
    ∙ elim (Bool-cases (list_eq hashX first)) [
      | inr apart ↦ rw (get-set first hashX row unflushed, apart) refl
      | inl same ↦
          let it : hashX ≡ first = list_eq→eq hashX first same in
          let gone : has hashX hashXs ≡ false = ap (λ (k : Bytes). has k hashXs) it ∙ fresh in
          rw (get-set first hashX row unflushed, same, gone)
            (unfold or_empty in
              append-nil row ∙ ap (λ (k : Bytes). or_empty (get k unflushed) ++ tx_numb) (sym it))
    ]

extend-AreDistinct :
    (tx_numb : Bytes) (hashXs : List Bytes) (unflushed : Cache Bytes)
    → AreDistinct unflushed
    → AreDistinct (extend tx_numb hashXs unflushed)
unfolding extend
extend-AreDistinct tx_numb [] unflushed d = d
extend-AreDistinct tx_numb (first ∷ hashXs) unflushed d =
    extend-AreDistinct tx_numb hashXs
      (set first (or_empty (get first unflushed) ++ tx_numb) unflushed)
      (set-AreDistinct first (or_empty (get first unflushed) ++ tx_numb) unflushed d)

add_unflushed-row_of :
    (hash_xs_by_tx : List (List Bytes)) (first : ℕ) (unflushed : Cache Bytes)
    → first + length hash_xs_by_tx ≤ 256 ^ 8
    → AreDistinct unflushed
    → (after : Cache Bytes) × (add_unflushed hash_xs_by_tx first unflushed ≡ ok after)
      × AreDistinct after
      × ((hashX : Bytes)
          → or_empty (get hashX after)
            ≡ or_empty (get hashX unflushed) ++ row_of (touching hashX first hash_xs_by_tx))
unfolding add_unflushed touching row_of
add_unflushed-row_of [] first unflushed small d =
    (unflushed, refl, d, λ hashX. sym (append-nil (or_empty (get hashX unflushed))))
add_unflushed-row_of (hashXs ∷ rest) first unflushed small d =
    let tx_numb : Bytes = take 5 (to_le 8 first) in
    let one = extend tx_numb (distinct hashXs) unflushed in
    let (after, ran, d', same) =
      add_unflushed-row_of rest (first + 1) one (omega arith)
        (extend-AreDistinct tx_numb (distinct hashXs) unflushed d) in
    let packed : pack_le_uint 8 first ≡ ok (to_le 8 first) =
      unfold pack_le_uint in rw (lt→ltb first (256 ^ 8) (omega arith)) refl in
    (after, rw packed ran, d', λ hashX. same hashX ∙ once hashX)
  where
    once :
        (hashX : Bytes)
        → or_empty (get hashX (extend (take 5 (to_le 8 first)) (distinct hashXs) unflushed))
            ++ row_of (touching hashX (first + 1) rest)
          ≡ or_empty (get hashX unflushed)
            ++ row_of (
                if has hashX hashXs
                then first ∷ touching hashX (first + 1) rest
                else touching hashX (first + 1) rest)
    once hashX =
        let old = or_empty (get hashX unflushed) in
        let more = row_of (touching hashX (first + 1) rest) in
        ap (λ (t : Bytes). t ++ more)
          (extend-get hashX (take 5 (to_le 8 first)) (distinct hashXs) unflushed
            (distinct-AreApart hashXs))
        ∙ append_assoc old (if has hashX (distinct hashXs) then take 5 (to_le 8 first) else []) more
        ∙ elim (Bool-cases (has hashX hashXs)) [
          | inl e ↦ rw (has-distinct hashX hashXs, e) refl
          | inr e ↦ rw (has-distinct hashX hashXs, e) refl
        ]

touching-IsSmall :
    (hashX : Bytes) (first : ℕ) (hash_xs_by_tx : List (List Bytes))
    → first + length hash_xs_by_tx ≤ 256 ^ 5
    → All IsSmall (touching hashX first hash_xs_by_tx)
unfolding touching
touching-IsSmall hashX first [] small = tt
touching-IsSmall hashX first (hashXs ∷ rest) small =
    let later = touching-IsSmall hashX (first + 1) rest (omega arith) in
    elim (Bool-cases (has hashX hashXs)) [ inl e ↦ rw e (omega arith, later) | inr e ↦ rw e later ]

-- While transaction numbers have 5 bytes `add_unflushed` raises nothing, the cache stays a dict, and
-- the row of every hashX grows by 5 bytes for each of the transactions whose hashXs contain it. A row
-- that held some numbers, in the reading of `get_txnums`, then holds behind them the numbers of exactly
-- these transactions, in order and each once.
pub add_unflushed-touching :
    (hash_xs_by_tx : List (List Bytes)) (first : ℕ) (unflushed : Cache Bytes) (hashX : Bytes)
    (before : List ℕ)
    → first + length hash_xs_by_tx ≤ 256 ^ 5
    → AreDistinct unflushed
    → tx_nums (or_empty (get hashX unflushed)) ≡ ok before
    → (after : Cache Bytes) × (add_unflushed hash_xs_by_tx first unflushed ≡ ok after)
      × AreDistinct after
      × (tx_nums (or_empty (get hashX after)) ≡ ok (before ++ touching hashX first hash_xs_by_tx))
      × ((other : Bytes)
          → or_empty (get other after)
            ≡ or_empty (get other unflushed) ++ row_of (touching other first hash_xs_by_tx))
add_unflushed-touching hash_xs_by_tx first unflushed hashX before small d held =
    let (after, ran, d', rows) =
      add_unflushed-row_of hash_xs_by_tx first unflushed (omega arith) d in
    let ns : List ℕ = touching hashX first hash_xs_by_tx in
    let fine : tx_nums (row_of ns) ≡ ok ns =
      tx_nums-row_of ns (touching-IsSmall hashX first hash_xs_by_tx small) in
    let read = tx_nums-append (or_empty (get hashX unflushed)) (row_of ns) before ns held fine in
    (after, ran, d', ap tx_nums (rows hashX) ∙ read, rows)
