-- ===== src/Util/Ints.antt =====
-- The packing of integers: what is packed is unpacked again.
use native.Mathlib.Nat.{pow-suc}
use rxin_dexer.Prelude.{
  ℕ, zero, suc, ◌+◌, ◌*◌, ◌/◌, ◌%◌, ◌^◌, ◌<◌, ◌≡◌, refl, [], ◌∷◌, arith, length, All, Bool-cases,
  inl, inr, ltb, ltb→lt,
}
use rxin_dexer.Prelude.Result.{ok}
use rxin_dexer.Util.{Bytes, IsByte, to_le, of_le, pack_le_uint}

pub length-to_le : (w n : ℕ) → length (to_le w n) ≡ w
unfolding to_le
length-to_le zero n = refl
length-to_le (suc w) n = omega (arith, length-to_le w (n / 256))

pub to_le-IsByte : (w n : ℕ) → All IsByte (to_le w n)
unfolding to_le
to_le-IsByte zero n = tt
to_le-IsByte (suc w) n = (omega arith, to_le-IsByte w (n / 256))

pub of_le-to_le : (w n : ℕ) → n < 256 ^ w → of_le (to_le w n) ≡ n
unfolding to_le of_le
of_le-to_le zero n h = omega arith
of_le-to_le (suc w) n h = omega (arith, of_le-to_le w (n / 256) (omega arith))

pub of_le-lt : (bs : Bytes) → All IsByte bs → of_le bs < 256 ^ length bs
unfolding of_le
of_le-lt [] h = omega arith
of_le-lt (b ∷ bs) h = omega (arith, of_le-lt bs h.1, pow-suc 256 (length bs))

pub to_le-of_le : (bs : Bytes) → All IsByte bs → to_le (length bs) (of_le bs) ≡ bs
unfolding to_le of_le
to_le-of_le [] h = refl
to_le-of_le (b ∷ bs) h =
    let low : (b + 256 * of_le bs) % 256 ≡ b = omega arith in
    let high : (b + 256 * of_le bs) / 256 ≡ of_le bs = omega arith in
    rw (low, high, to_le-of_le bs h.1)

-- What `pack` returned for an unsigned integer: as many bytes as its width, of that value.
pub pack_le_uint-value :
    (w n : ℕ) (bs : Bytes) → pack_le_uint w n ≡ ok bs → (length bs ≡ w) × (of_le bs ≡ n)
unfolding pack_le_uint
pack_le_uint-value w n bs p = elim (Bool-cases (ltb n (256 ^ w))) [
  | inl e ↦
      let q : to_le w n ≡ bs = ground arith in
      rw (← q) (length-to_le w n, of_le-to_le w n (ltb→lt _ _ e))
  | inr e ↦ ground arith
]
