-- ===== src/Util/Slices.antt =====
-- Slices inside a byte string: their length, and how they and what follows make up the rest.
use rxin_dexer.Prelude.{
  ℕ, zero, suc, ◌+◌, ◌-◌, ◌≤◌, ◌≡◌, refl, sym, ap, ◌∙◌, [], ◌∷◌, ◌++◌, arith, length, take, drop,
  length-take, length-drop, take-append-drop, drop-add, take-append, drop-append, length-append,
}
use rxin_dexer.Util.{Bytes, slice}

pub length-slice : (s : Bytes) (n k : ℕ) → n + k ≤ length s → length (slice s n (n + k)) ≡ k
length-slice s n k h = omega (arith, length-take (n + k - n) (drop n s), length-drop n s)

pub slice-eq-take : (s : Bytes) (n k : ℕ) → slice s n (n + k) ≡ take k (drop n s)
slice-eq-take s n k = let e : n + k - n ≡ k = omega arith in rw e

pub drop-eq-slice : (s : Bytes) (n k : ℕ) → drop n s ≡ slice s n (n + k) ++ drop (n + k) s
drop-eq-slice s n k = rw (slice-eq-take, drop-add) (sym (take-append-drop k (drop n s)))

pub take-all : (n : ℕ) (s : Bytes) → length s ≡ n → take n s ≡ s
take-all zero [] h = refl
take-all zero (x ∷ s) h = absurd (omega arith)
take-all (suc n) [] h = refl
take-all (suc n) (x ∷ s) h = ap (λ (t : Bytes). x ∷ t) (take-all n s (omega arith))

-- The slice and the rest at a place where the bytes are known.
pub slice-known : (s a b : Bytes) (n : ℕ) → drop n s ≡ a ++ b → slice s n (n + length a) ≡ a
slice-known s a b n h = slice-eq-take s n (length a) ∙ rw h (take-append a b)

pub drop-known : (s a b : Bytes) (n : ℕ) → drop n s ≡ a ++ b → drop (n + length a) s ≡ b
drop-known s a b n h = drop-add n (length a) s ∙ rw h (drop-append a b)

pub known-fits :
    (s a b : Bytes) (n : ℕ) → n ≤ length s → drop n s ≡ a ++ b → n + length a + length b ≡ length s
known-fits s a b n h e =
    let l : length (drop n s) ≡ length (a ++ b) = ap length e in
    omega (arith, l, length-drop n s, length-append a b)
