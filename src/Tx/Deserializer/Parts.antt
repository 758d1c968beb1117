-- ===== src/Tx/Deserializer/Parts.antt =====
-- The readers of bytes and integers read what the packers of electrumx/lib/util.py wrote.
use native.Mathlib.Nat.{pow-suc}
use rxin_dexer.Prelude.{
  zero, ℕ, suc, ◌+◌, ◌-◌, ◌*◌, ◌^◌, ◌≤◌, ◌<◌, ◌≡◌, refl, ℤ, pos, negsuc, [], ◌∷◌, ◌++◌, arith,
  length, length-append, take-append, get_elem?-drop, ltb, le→leb, le→ltb, lt→ltb, ltb→lt, ltb→le,
  Bool-cases, inl, inr, ◌%◌,
}
use rxin_dexer.Prelude.Result.{ok, ◌>>=◌, >>=-eq-ok}
use rxin_dexer.Util.{
  Bytes, slice, to_le, of_le, signed, pack_le_uint, pack_le_int, unpack_le_uint_from,
  unpack_le_int_from, pack_varint, pack_varbytes,
}
use rxin_dexer.Util.Ints.{length-to_le, of_le-to_le}
use rxin_dexer.Tx.Deserializer
use rxin_dexer.Tx.Deserializer.{
  Deserializer, Read, pure, advance, ensure, read_byte, read_nbytes, read_le_uint, read_le_int,
  read_varint, read_varint_tail, read_varbytes, eval, skip,
}
use rxin_dexer.Tx.Deserializer.Reads.{At, Reads, At-room, Reads-bind, Reads-last}

read_byte-Reads : (b : ℕ) → Reads read_byte (b ∷ []) b
unfolding read_byte Deserializer.◌>>=◌ pure eval skip
read_byte-Reads b = record { run = λ d rest h. rw (get_elem?-drop d.cursor d.binary b rest h.left) }

At-fits :
    {d : Deserializer} (bs rest : Bytes)
    → At d (bs ++ rest)
    → d.cursor + length bs ≤ length d.binary
At-fits bs rest h = omega (arith, At-room h, length-append bs rest)

slice-At :
    {d : Deserializer} (bs rest : Bytes)
    → At d (bs ++ rest)
    → slice d.binary d.cursor (d.cursor + length bs) ≡ bs
slice-At {d} bs rest h =
    let e : d.cursor + length bs - d.cursor ≡ length bs = omega arith in
    rw (e, h.left) (take-append bs rest)

pub read_nbytes-Reads : (bs : Bytes) → Reads (read_nbytes (length bs)) bs bs
unfolding read_nbytes
read_nbytes-Reads bs = record {
  run = λ d rest h. rw (le→leb _ _ (At-fits bs rest h), slice-At bs rest h);
}

unpack-At :
    {d : Deserializer} (bs rest : Bytes)
    → At d (bs ++ rest)
    → unpack_le_uint_from (length bs) d.binary d.cursor ≡ ok (of_le bs)
unfolding unpack_le_uint_from
unpack-At bs rest h = rw (le→leb _ _ (At-fits bs rest h), slice-At bs rest h)

read_le_uint_bytes : (bs : Bytes) → Reads (read_le_uint (length bs)) bs (of_le bs)
unfolding read_le_uint ensure Deserializer.◌>>=◌ pure eval skip
read_le_uint_bytes bs = record {
  run = λ d rest h. rw (le→ltb _ _ (At-fits bs rest h), unpack-At bs rest h);
}

pub read_le_uint-Reads : (w n : ℕ) → n < 256 ^ w → Reads (read_le_uint w) (to_le w n) n
read_le_uint-Reads w n h =
    rw (length-to_le w n, of_le-to_le w n h) at (read_le_uint_bytes (to_le w n))

read_le_int_bytes :
    (bs : Bytes) → Reads (read_le_int (length bs)) bs (signed (length bs) (of_le bs))
unfolding read_le_int ensure unpack_le_int_from Deserializer.◌>>=◌ pure eval skip
read_le_int_bytes bs = record {
  run = λ d rest h. rw (le→ltb _ _ (At-fits bs rest h), unpack-At bs rest h);
}

-- What `pack` wrote for an unsigned integer is read back.
pub pack_le_uint-Reads :
    (w n : ℕ) (bs : Bytes) → pack_le_uint w n ≡ ok bs → Reads (read_le_uint w) bs n
unfolding pack_le_uint
pack_le_uint-Reads w n bs h = elim (Bool-cases (ltb n (256 ^ w))) [
  | inl e ↦ let p : to_le w n ≡ bs = ground arith in rw p at (read_le_uint-Reads w n (ltb→lt _ _ e))
  | inr e ↦ ground arith
]

signed-pos : (w n : ℕ) → 2 * n < 256 ^ w → signed w n ≡ pos n
unfolding signed
signed-pos w n h = rw (lt→ltb _ _ h)

-- A width of one byte at least makes the modulus even.
even_modulus : (w n : ℕ) → 0 < w → 2 * n < 256 ^ w → 2 * n + 2 ≤ 256 ^ w
even_modulus zero n p h = absurd (omega arith)
even_modulus (suc w) n p h = let e : 256 ^ suc w ≡ 256 ^ w * 256 = pow-suc 256 w in omega (arith, e)

signed-negsuc : (w n : ℕ) → 0 < w → 2 * n < 256 ^ w → signed w (256 ^ w - 1 - n) ≡ negsuc n
unfolding signed
signed-negsuc w n p h =
    let big : 256 ^ w ≤ 2 * (256 ^ w - 1 - n) = omega (arith, even_modulus w n p h) in
    let e : 256 ^ w - 1 - (256 ^ w - 1 - n) ≡ n = omega (arith, even_modulus w n p h) in
    rw (le→ltb _ _ big, e)

read_le_int-Reads : (w u : ℕ) → u < 256 ^ w → Reads (read_le_int w) (to_le w u) (signed w u)
read_le_int-Reads w u h =
    rw (length-to_le w u, of_le-to_le w u h) at (read_le_int_bytes (to_le w u))

pub pack_le_int-Reads :
    (w : ℕ) (z : ℤ) (bs : Bytes) → 0 < w → pack_le_int w z ≡ ok bs → Reads (read_le_int w) bs z
unfolding pack_le_int
pack_le_int-Reads w (pos n) bs q h = elim (Bool-cases (ltb (2 * n) (256 ^ w))) [
  | inl e ↦
      let p : to_le w n ≡ bs = ground arith in
      rw (p, signed-pos w n (ltb→lt _ _ e)) at (read_le_int-Reads w n (omega (arith, ltb→lt _ _ e)))
  | inr e ↦ ground arith
]
pack_le_int-Reads w (negsuc n) bs q h = elim (Bool-cases (ltb (2 * n) (256 ^ w))) [
  | inl e ↦
      let p : to_le w (256 ^ w - 1 - n) ≡ bs = ground arith in
      rw (p, signed-negsuc w n q (ltb→lt _ _ e)) at
        (read_le_int-Reads w (256 ^ w - 1 - n) (omega (arith, ltb→lt _ _ e)))
  | inr e ↦ ground arith
]

tail_small : (n : ℕ) → n < 253 → read_varint_tail n ≡ pure n
unfolding read_varint_tail
tail_small n h = rw (lt→ltb _ _ h)

varint_small : (n : ℕ) → n < 253 → Reads read_varint (to_le 1 n) n
unfolding read_varint to_le
varint_small n h =
    let e : n % 256 ≡ n = omega arith in
    rw e (Reads-last read_byte read_varint_tail (n ∷ []) n n (read_byte-Reads n) (tail_small n h))

-- A varint is its first byte, and the integer whose width the byte tells.
varint_wide :
    (b w n : ℕ) (bs : Bytes)
    → read_varint_tail b ≡ read_le_uint w
    → pack_le_uint w n ≡ ok bs
    → Reads read_varint (b ∷ bs) n
unfolding read_varint
varint_wide b w n bs e p =
    Reads-bind read_byte read_varint_tail (b ∷ []) bs b n (read_byte-Reads b)
      (rw e (pack_le_uint-Reads w n bs p))

-- What `pack_varint` writes: one byte, or a first byte and a wider integer.
abbrev Wide : ℕ → Bytes → Type 0
Wide n bs =
    (b : ℕ) × (w : ℕ) × (cs : Bytes) × (read_varint_tail b ≡ read_le_uint w)
    × (pack_le_uint w n ≡ ok cs)
    × (b ∷ cs ≡ bs)

from_parts-Wide :
    (b w n : ℕ) (bs : Bytes)
    → read_varint_tail b ≡ read_le_uint w
    → (pack_le_uint w n >>= λ cs. ok (b ∷ cs)) ≡ ok bs
    → Wide n bs
from_parts-Wide b w n bs t p =
    let (cs, q, r) = >>=-eq-ok (pack_le_uint w n) (λ cs. ok (b ∷ cs)) p in
    (b, w, cs, t, q, ground arith)

pack_varint-Wide : (n : ℕ) (bs : Bytes) → 253 ≤ n → pack_varint n ≡ ok bs → Wide n bs
unfolding pack_varint read_varint_tail
pack_varint-Wide n bs h p = elim (Bool-cases (ltb n 65536)) [
  | inl e ↦ from_parts-Wide 253 2 n bs refl (rw (le→ltb n 253 h, e) at p)
  | inr e ↦ elim (Bool-cases (ltb n 4294967296)) [
    | inl e' ↦ from_parts-Wide 254 4 n bs refl (rw (le→ltb n 253 h, e, e') at p)
    | inr e' ↦ from_parts-Wide 255 8 n bs refl (rw (le→ltb n 253 h, e, e') at p)
  ]
]

pack_varint_small : (n : ℕ) (bs : Bytes) → n < 253 → pack_varint n ≡ ok bs → to_le 1 n ≡ bs
unfolding pack_varint pack_le_uint
pack_varint_small n bs h p = ground arith

-- The reader of a varint undoes `pack_varint`, whatever size it chose.
pub pack_varint-Reads : (n : ℕ) (bs : Bytes) → pack_varint n ≡ ok bs → Reads read_varint bs n
pack_varint-Reads n bs p = elim (Bool-cases (ltb n 253)) [
  | inl h ↦
      let h' : n < 253 = ltb→lt n 253 h in rw (pack_varint_small n bs h' p) at (varint_small n h')
  | inr h ↦
      let (b, w, cs, t, q, e) = pack_varint-Wide n bs (ltb→le n 253 h) p in
      rw e at (varint_wide b w n cs t q)
]

pub pack_varbytes-Reads : (s bs : Bytes) → pack_varbytes s ≡ ok bs → Reads read_varbytes bs s
unfolding pack_varbytes read_varbytes
pack_varbytes-Reads s bs p =
    let (ns, q, e) = >>=-eq-ok (pack_varint (length s)) _ p in
    let e' : ns ++ s ≡ bs = ground arith in
    rw (← e') (
      Reads-bind read_varint read_nbytes ns s (length s) s (pack_varint-Reads (length s) ns q)
        (read_nbytes-Reads s))
