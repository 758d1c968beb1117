-- ===== src/Store/Keys.antt =====
-- Python's sets of byte strings, and the lists that stand for them.
use rxin_dexer.Prelude.{
  ◌≡◌, refl, Bool, false, ◌||◌, List, [], ◌∷◌, ◌++◌, if◌then◌else◌, list_eq, All, Bool-cases, inl,
  inr,
}
use rxin_dexer.Util.{Bytes}

-- `x in xs`
unfoldable pub has : Bytes → List Bytes → Bool
has x [] = false
has x (y ∷ ys) = list_eq x y || has x ys

unfoldable pub without : Bytes → List Bytes → List Bytes
without x [] = []
without x (y ∷ ys) = let rest = without x ys in if list_eq x y then rest else y ∷ rest

-- The members of `set(xs)`, and the keys of a dict that is filled in this order.
unfoldable pub distinct : List Bytes → List Bytes
distinct [] = []
distinct (x ∷ xs) = x ∷ without x (distinct xs)

abbrev pub Misses : Bytes → Bytes → Type 0
Misses x y = list_eq x y ≡ false

-- Keys that are not `x` do not make it a member.
pub has-append_other :
    (x : Bytes) (xs ys : List Bytes) → All (Misses x) ys → has x (xs ++ ys) ≡ has x xs
unfolding has
has-append_other x [] [] tt = refl
has-append_other x [] (y ∷ ys) (miss, rest) = rw miss (has-append_other x [] ys rest)
has-append_other x (z ∷ xs) ys rest = elim (Bool-cases (list_eq x z)) [
  | inl same ↦ rw same refl
  | inr apart ↦ rw apart (has-append_other x xs ys rest)
]
