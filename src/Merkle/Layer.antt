-- ===== src/Merkle/Layer.antt =====
-- One level of the tree: the padded hashes, and the pairs of them.
use rxin_dexer.Prelude.{
  ℕ, zero, suc, ◌+◌, ◌-◌, ◌*◌, ◌/◌, ◌%◌, ◌<◌, ◌≡◌, refl, true, false, some, List, [], ◌∷◌, ◌++◌,
  arith, length, get_elem?, ◌==◌, if◌then◌else◌, get_elem?-lt, Bool-cases, inl, inr,
  get_elem?-bound,
}
use rxin_dexer.Util.{Bytes}
use rxin_dexer.Merkle.{xor_one, append_last, is_odd, padded, pair_up}

length-append_last : (h : Bytes) (hs : List Bytes) → length (append_last (h ∷ hs)) ≡ length hs + 2
unfolding append_last
length-append_last h [] = omega arith
length-append_last h (g ∷ hs) = omega (arith, length-append_last g hs)

-- The padded list has the least even length that is not below the list's.
pub length-padded : (hs : List Bytes) → length (padded hs) ≡ 2 * ((length hs + 1) / 2)
unfolding padded is_odd
length-padded [] = omega arith
length-padded (h ∷ hs) = ground (arith, length-append_last h hs)

get_elem?-append_last :
    (hs : List Bytes) (i : ℕ) (x : Bytes)
    → get_elem? hs i ≡ some x
    → get_elem? (append_last hs) i ≡ some x
unfolding append_last
get_elem?-append_last [] i x e = e
get_elem?-append_last (h ∷ []) zero x e = e
get_elem?-append_last (h ∷ []) (suc i) x e = ground arith
get_elem?-append_last (h ∷ g ∷ hs) zero x e = e
get_elem?-append_last (h ∷ g ∷ hs) (suc i) x e = get_elem?-append_last (g ∷ hs) i x e

-- Padding keeps the elements.
pub get_elem?-padded :
    (hs : List Bytes) (i : ℕ) (x : Bytes)
    → get_elem? hs i ≡ some x
    → get_elem? (padded hs) i ≡ some x
unfolding padded
get_elem?-padded hs i x e = ground (arith, get_elem?-append_last hs i x)

module _ (hash_func : Bytes → Bytes) where
  pub length-pair_up :
      (n : ℕ) (hs : List Bytes) → length hs ≡ 2 * n → length (pair_up hash_func hs) ≡ n
  unfolding pair_up
  length-pair_up zero [] h = refl
  length-pair_up zero (a ∷ hs) h = absurd (omega arith)
  length-pair_up (suc n) [] h = absurd (omega arith)
  length-pair_up (suc n) (a ∷ []) h = absurd (omega arith)
  length-pair_up (suc n) (a ∷ b ∷ hs) h = omega (arith, length-pair_up n hs (omega arith))

  -- The hash of two neighbours stands at half their index.
  get_elem?-pair_up :
      (m i j : ℕ) (hs : List Bytes) (a b : Bytes)
      → i ≡ 2 * m
      → j ≡ 2 * m + 1
      → get_elem? hs i ≡ some a
      → get_elem? hs j ≡ some b
      → get_elem? (pair_up hash_func hs) m ≡ some (hash_func (a ++ b))
  unfolding pair_up
  get_elem?-pair_up m i j [] a b ei ej p q = ground arith
  get_elem?-pair_up m i j (x ∷ []) a b ei ej p q =
      absurd (omega (arith, get_elem?-bound (x ∷ []) j b q))
  get_elem?-pair_up zero i j (x ∷ y ∷ hs) a b ei ej p q =
      let e : i ≡ 0 = omega arith in
      let e' : j ≡ 1 = omega arith in
      let p' : some x ≡ some a = rw e at p in let q' : some y ≡ some b = rw e' at q in cc
  get_elem?-pair_up (suc m) i j (x ∷ y ∷ hs) a b ei ej p q =
      let e : i ≡ suc (suc (2 * m)) = omega arith in
      let e' : j ≡ suc (suc (2 * m + 1)) = omega arith in
      get_elem?-pair_up m (2 * m) (2 * m + 1) hs a b refl refl (rw e at p) (rw e' at q)

  -- What a proof hashes at the index `i`: the element beside `x` is `y`.
  abbrev pub joined : ℕ → Bytes → Bytes → Bytes
  joined i x y = if i % 2 == 1 then hash_func (y ++ x) else hash_func (x ++ y)

  joined-even :
      (hs : List Bytes) (i : ℕ) (x y : Bytes)
      → (i % 2 == 0) ≡ true
      → get_elem? hs i ≡ some x
      → get_elem? hs (i + 1) ≡ some y
      → get_elem? (pair_up hash_func hs) (i / 2) ≡ some (joined i x y)
  joined-even hs i x y even p q =
      let z : i % 2 ≡ 0 = ground arith in
      rw z (get_elem?-pair_up (i / 2) i (i + 1) hs x y (omega arith) (omega arith) p q)

  joined-odd :
      (hs : List Bytes) (i : ℕ) (x y : Bytes)
      → (i % 2 == 0) ≡ false
      → get_elem? hs i ≡ some x
      → get_elem? hs (i - 1) ≡ some y
      → get_elem? (pair_up hash_func hs) (i / 2) ≡ some (joined i x y)
  joined-odd hs i x y odd p q =
      let z : i % 2 ≡ 1 = ground arith in
      rw z (get_elem?-pair_up (i / 2) (i - 1) i hs y x (omega arith) (omega arith) q p)

  -- The neighbour is there, and the next level has the hash of both at half the index.
  pub neighbour :
      (hs : List Bytes) (i : ℕ) (x : Bytes)
      → get_elem? hs i ≡ some x
      → (y : Bytes) × (get_elem? (padded hs) (xor_one i) ≡ some y)
        × (get_elem? (pair_up hash_func (padded hs)) (i / 2) ≡ some (joined i x y))
  unfolding xor_one
  neighbour hs i x e =
      let lt : i < length hs = get_elem?-bound hs i x e in
      let here : get_elem? (padded hs) i ≡ some x = get_elem?-padded hs i x e in
      elim (Bool-cases (i % 2 == 0)) [
        | inl even ↦
            let room : i + 1 < length (padded hs) = ground (arith, length-padded hs) in
            let (y, q) = get_elem?-lt (padded hs) (i + 1) room in
            (y, rw even q, joined-even (padded hs) i x y even here q)
        | inr odd ↦
            let room : i - 1 < length (padded hs) = omega (arith, length-padded hs) in
            let (y, q) = get_elem?-lt (padded hs) (i - 1) room in
            (y, rw odd q, joined-odd (padded hs) i x y odd here q)
      ]

  pub length-next : (hs : List Bytes) → length (pair_up hash_func (padded hs)) ≡ (length hs + 1) / 2
  length-next hs = length-pair_up ((length hs + 1) / 2) (padded hs) (length-padded hs)
