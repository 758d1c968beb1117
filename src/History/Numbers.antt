-- ===== src/History/Numbers.antt =====
-- The rows of electrumx/server/history.py as lists of transaction numbers, 5 bytes for each.
use rxin_dexer.Prelude.{
  ℕ, zero, suc, ◌+◌, ◌*◌, ◌^◌, ◌≤◌, ◌<◌, ◌≡◌, refl, sym, ap, ◌∙◌, false, List, [], ◌∷◌, ◌++◌, arith,
  ltb, ltb→lt, ltb→le, le→ltb, lt→ltb, if◌then◌else◌, take, All, Bool-cases, inl, inr, map,
  append_assoc,
}
use rxin_dexer.Prelude.Result.{ok, >>=-eq-ok}
use rxin_dexer.Util.{Bytes, to_le, of_le}
use rxin_dexer.History.{Rows, tx_nums, tx_nums_of_rows, bisect_left}

-- A row that holds these numbers, which have 5 bytes at most; of others it holds the lowest 5 bytes.
unfoldable pub row_of : List ℕ → Bytes
row_of [] = []
row_of (n ∷ ns) = take 5 (to_le 8 n) ++ row_of ns

-- The numbers of each flush, in order.
abbrev pub Log : Type 0
Log = List (ℕ × List ℕ)

unfoldable pub rows_of : Log → Rows
rows_of log = map (λ (entry : ℕ × List ℕ). (entry.0, row_of entry.1)) log

unfoldable pub nums_of : Log → List ℕ
nums_of [] = []
nums_of ((id, ns) ∷ log) = ns ++ nums_of log

abbrev pub IsSmall : ℕ → Type 0
IsSmall n = n < 256 ^ 5

pub tx_nums-row_of : (ns : List ℕ) → All IsSmall ns → tx_nums (row_of ns) ≡ ok ns
unfolding tx_nums row_of to_le of_le
tx_nums-row_of [] small = refl
tx_nums-row_of (n ∷ ns) (s, small) =
    let value : of_le (take 5 (to_le 8 n) ++ (0 ∷ 0 ∷ 0 ∷ [])) ≡ n = omega arith in
    rw (tx_nums-row_of ns small) (ap (λ (m : ℕ). ok (m ∷ ns)) value)

pub tx_nums-append :
    (a b : Bytes) (xs ys : List ℕ)
    → tx_nums a ≡ ok xs
    → tx_nums b ≡ ok ys
    → tx_nums (a ++ b) ≡ ok (xs ++ ys)
unfolding tx_nums
tx_nums-append [] b xs ys ea eb = let same : [] ≡ xs = cc ea in rw (← same) eb
tx_nums-append (a1 ∷ []) b xs ys ea eb = cc ea
tx_nums-append (a1 ∷ a2 ∷ []) b xs ys ea eb = cc ea
tx_nums-append (a1 ∷ a2 ∷ a3 ∷ []) b xs ys ea eb = cc ea
tx_nums-append (a1 ∷ a2 ∷ a3 ∷ a4 ∷ []) b xs ys ea eb = cc ea
tx_nums-append (a1 ∷ a2 ∷ a3 ∷ a4 ∷ a5 ∷ a) b xs ys ea eb =
    let n : ℕ = of_le (a1 ∷ a2 ∷ a3 ∷ a4 ∷ a5 ∷ 0 ∷ 0 ∷ 0 ∷ []) in
    let (nums, p, made) = >>=-eq-ok (tx_nums a) (λ nums. ok (n ∷ nums)) ea in
    let same : n ∷ nums ≡ xs = cc made in
    rw (tx_nums-append a b nums ys p eb) (ap (λ (t : List ℕ). ok (t ++ ys)) same)

pub All-split :
    {A : Type 0} (P : A → Type 0) (xs ys : List A) → All P (xs ++ ys) → All P xs × All P ys
All-split P [] ys all = (tt, all)
All-split P (x ∷ xs) ys (p, all) = let (a, b) = All-split P xs ys all in ((p, a), b)

pub tx_nums_of_rows-rows_of :
    (log : Log) → All IsSmall (nums_of log) → tx_nums_of_rows (rows_of log) ≡ ok (nums_of log)
unfolding tx_nums_of_rows rows_of nums_of
tx_nums_of_rows-rows_of [] small = refl
tx_nums_of_rows-rows_of ((id, ns) ∷ log) small =
    let (here, rest) = All-split IsSmall ns (nums_of log) small in
    rw (tx_nums-row_of ns here, tx_nums_of_rows-rows_of log rest)

pub nums_of-append : (a b : Log) → nums_of (a ++ b) ≡ nums_of a ++ nums_of b
unfolding nums_of
nums_of-append [] b = refl
nums_of-append ((id, ns) ∷ a) b =
    ap (λ (t : List ℕ). ns ++ t) (nums_of-append a b)
    ∙ sym (append_assoc ns (nums_of a) (nums_of b))

pub take-row_of : (k : ℕ) (ns : List ℕ) → take (5 * k) (row_of ns) ≡ row_of (take k ns)
unfolding row_of to_le
take-row_of zero ns = refl
take-row_of (suc k) [] = let e : 5 * suc k ≡ suc (5 * k + 4) = omega arith in rw e refl
take-row_of (suc k) (n ∷ ns) =
    let e : 5 * suc k ≡ suc (suc (suc (suc (suc (5 * k))))) = omega arith in
    rw e (ap (λ (t : Bytes). take 5 (to_le 8 n) ++ t) (take-row_of k ns))

-- The numbers below a bound.
unfoldable pub below : ℕ → List ℕ → List ℕ
below x [] = []
below x (n ∷ ns) = let rest = below x ns in if ltb n x then n ∷ rest else rest

pub below-append : (x : ℕ) (a b : List ℕ) → below x (a ++ b) ≡ below x a ++ below x b
unfolding below
below-append x [] b = refl
below-append x (n ∷ a) b = elim (Bool-cases (ltb n x)) [
  | inl e ↦ rw e (ap (λ (t : List ℕ). n ∷ t) (below-append x a b))
  | inr e ↦ rw e (below-append x a b)
]

abbrev pub Sorted : List ℕ → Type 0
Sorted [] = Unit
Sorted (n ∷ ns) = All (λ (m : ℕ). n ≤ m) ns × Sorted ns

pub All-below : (P : ℕ → Type 0) (x : ℕ) (ns : List ℕ) → All P ns → All P (below x ns)
unfolding below
All-below P x [] all = tt
All-below P x (n ∷ ns) (p, all) = elim (Bool-cases (ltb n x)) [
  | inl e ↦ rw e (p, All-below P x ns all)
  | inr e ↦ rw e (All-below P x ns all)
]

pub below-Sorted : (x : ℕ) (ns : List ℕ) → Sorted ns → Sorted (below x ns)
unfolding below
below-Sorted x [] s = tt
below-Sorted x (n ∷ ns) (first, s) = elim (Bool-cases (ltb n x)) [
  | inl e ↦ rw e (All-below (λ (m : ℕ). n ≤ m) x ns first, below-Sorted x ns s)
  | inr e ↦ rw e (below-Sorted x ns s)
]

below_none : (x n : ℕ) (ns : List ℕ) → x ≤ n → All (λ (m : ℕ). n ≤ m) ns → below x ns ≡ []
unfolding below
below_none x n [] le all = refl
below_none x n (m ∷ ns) le (p, all) = rw (le→ltb m x (omega arith)) (below_none x n ns le all)

-- On numbers in order `bisect_left` cuts off those below.
pub take-bisect_left : (x : ℕ) (ns : List ℕ) → Sorted ns → take (bisect_left ns x) ns ≡ below x ns
unfolding bisect_left below
take-bisect_left x [] s = refl
take-bisect_left x (n ∷ ns) (first, s) = elim (Bool-cases (ltb n x)) [
  | inl e ↦ rw e (ap (λ (t : List ℕ). n ∷ t) (take-bisect_left x ns s))
  | inr e ↦ rw e (sym (below_none x n ns (ltb→le n x e) first))
]

pub below_idem : (x : ℕ) (ns : List ℕ) → below x (below x ns) ≡ below x ns
unfolding below
below_idem x [] = refl
below_idem x (n ∷ ns) = elim (Bool-cases (ltb n x)) [
  | inl e ↦ rw (e, e) (ap (λ (t : List ℕ). n ∷ t) (below_idem x ns))
  | inr e ↦ rw e (below_idem x ns)
]

pub Sorted-split :
    (a b : List ℕ)
    → Sorted (a ++ b)
    → Sorted a × Sorted b × All (λ (n : ℕ). All (λ (m : ℕ). n ≤ m) b) a
Sorted-split [] b s = (tt, s, tt)
Sorted-split (n ∷ a) b (first, s) =
    let (sa, sb, cross) = Sorted-split a b s in
    let (here, there) = All-split (λ (m : ℕ). n ≤ m) a b first in ((here, sa), sb, (there, cross))

-- Where something in the second part is below, all of the first is.
pub below_whole :
    (x : ℕ) (a b : List ℕ)
    → 0 < bisect_left b x
    → All (λ (n : ℕ). All (λ (m : ℕ). n ≤ m) b) a
    → below x a ≡ a
unfolding below bisect_left
below_whole x [] b some_below cross = refl
below_whole x (n ∷ a) [] some_below cross = absurd (omega arith)
below_whole x (n ∷ a) (m ∷ b) some_below ((le, _), cross) = elim (Bool-cases (ltb m x)) [
  | inr e ↦ let none_below : 0 < 0 = rw e at some_below in absurd (omega arith)
  | inl e ↦
      rw (lt→ltb n x (omega (arith, ltb→lt m x e)))
        (ap (λ (t : List ℕ). n ∷ t) (below_whole x a (m ∷ b) some_below cross))
]

pub below_empty : (x : ℕ) (b : List ℕ) → Sorted b → ltb 0 (bisect_left b x) ≡ false → below x b ≡ []
unfolding below bisect_left
below_empty x [] s e = refl
below_empty x (m ∷ b) (first, s) e = elim (Bool-cases (ltb m x)) [
  | inl lt ↦ absurd (cc (rw lt at e, lt→ltb 0 (suc (bisect_left b x)) (omega arith)))
  | inr ge ↦ rw ge (below_none x m b (ltb→le m x ge) first)
]
