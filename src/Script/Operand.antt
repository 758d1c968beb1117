-- ===== src/Script/Operand.antt =====
-- The length fields of push opcodes, as `operand` of Script reads them.
use rxin_dexer.Prelude.{
  ℕ, ◌+◌, ◌-◌, ◌*◌, ◌⊎◌, lt→leb, length-take, length-drop, ◌≤◌, ◌<◌, ◌≡◌, refl, [], ◌∷◌, arith, ltb,
  ◌==◌, if◌then◌else◌, length, get_elem?, some, drop, Bool-cases, inl, inr, le→leb, get_elem?-none,
  get_elem?-drop, take,
}
use rxin_dexer.Prelude.Result.{ok, err, index_error, struct_error}
use rxin_dexer.Util.{Bytes, slice, of_le, unpack_le_uint_from}
use rxin_dexer.Util.Slices.{length-slice, take-all, drop-eq-slice}
use rxin_dexer.Script.{operand}

-- The width of the length field behind an opcode, and the length that opcode and field tell.
abbrev pub width : ℕ → ℕ
width op = if ltb op 76 then 0 else if op == 76 then 1 else if op == 77 then 2 else 4

unfoldable pub told : ℕ → Bytes → ℕ
told op len = if ltb op 76 then op else of_le len

unpack_slice :
    (w n : ℕ) (s : Bytes)
    → n + w ≤ length s
    → unpack_le_uint_from w (slice s n (n + w)) 0 ≡ ok (of_le (slice s n (n + w)))
unfolding unpack_le_uint_from
unpack_slice w n s h =
    let l : length (slice s n (n + w)) ≡ w = length-slice s n w h in
    let e : 0 + w ≡ w = omega arith in
    let e' : w - 0 ≡ w = omega arith in
    let t : take w (slice s n (n + w)) ≡ slice s n (n + w) = take-all w _ l in
    let room : w ≤ length (slice s n (n + w)) = omega arith in rw (e, e', le→leb w _ room, t)

unpack_short :
    (w n : ℕ) (s : Bytes)
    → 0 < w
    → length s < n + w
    → unpack_le_uint_from w (slice s n (n + w)) 0 ≡ err struct_error
unfolding unpack_le_uint_from
unpack_short w n s p h =
    let l : length (slice s n (n + w)) < 0 + w =
      omega (arith, length-take (n + w - n) (drop n s), length-drop n s) in
    rw (lt→leb _ _ l)

get_elem?-slice :
    (n : ℕ) (s : Bytes) → n + 1 ≤ length s → get_elem? s n ≡ some (of_le (slice s n (n + 1)))
unfolding of_le
get_elem?-slice n s h =
    let (b, e) = one_byte (slice s n (n + 1)) (length-slice s n 1 h) in
    let d : drop n s ≡ b ∷ drop (n + 1) s = rw e at (drop-eq-slice s n 1) in
    let v : b + 256 * 0 ≡ b = omega arith in rw (e, v) (get_elem?-drop n s b (drop (n + 1) s) d)
  where
    one_byte : (t : Bytes) → length t ≡ 1 → (b : ℕ) × (t ≡ b ∷ [])
    one_byte [] h = absurd (omega arith)
    one_byte (b ∷ []) h = (b, refl)
    one_byte (b ∷ c ∷ t) h = absurd (omega arith)

-- With the length field inside the script, `operand` reads it.
pub operand_fits :
    (s : Bytes) (op n : ℕ)
    → op ≤ 78
    → n + width op ≤ length s
    → operand s op n ≡ ok (told op (slice s n (n + width op)), n + width op)
unfolding operand told
operand_fits s op n b h = elim (Bool-cases (ltb op 76)) [
  | inl e ↦ let z : n + 0 ≡ n = omega arith in rw (e, z)
  | inr e ↦ ground (arith, get_elem?-slice n s, unpack_slice 2 n s, unpack_slice 4 n s)
]

-- With the field cut off, it raises.
pub operand_short :
    (s : Bytes) (op n : ℕ)
    → op ≤ 78
    → n ≤ length s
    → length s < n + width op
    → (operand s op n ≡ err index_error) ⊎ (operand s op n ≡ err struct_error)
unfolding operand
operand_short s op n b q h = elim (Bool-cases (ltb op 76)) [
  | inl e ↦ absurd (omega (arith, rw e at h))
  | inr e ↦ ground (arith, get_elem?-none s n, unpack_short 2 n s, unpack_short 4 n s)
]
