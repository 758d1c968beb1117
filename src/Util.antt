-- ===== src/Util.antt =====
-- electrumx/lib/util.py: byte strings, the packing of integers, and the parts of `Struct` they use.
pub mod Ints
pub mod Slices
use mathlib.Core.List.{reverse}
use rxin_dexer.Prelude.{
  ℕ, zero, suc, ◌+◌, ◌-◌, ◌*◌, ◌/◌, ◌%◌, ◌^◌, ◌<◌, ℤ, pos, negsuc, List, [], ◌∷◌, ◌++◌, ltb, leb,
  if◌then◌else◌, length, take, drop,
}
use rxin_dexer.Prelude.Result.{Result, ok, err, struct_error, ◌>>=◌}

-- `bytes`: the values are below 256.
abbrev pub Bytes : Type 0
Bytes = List ℕ

abbrev pub IsByte : ℕ → Type 0
IsByte b = b < 256

-- `b[i:j]` for `0 <= i`; a slice past the end is cut.
abbrev pub slice : Bytes → ℕ → ℕ → Bytes
slice b i j = take (j - i) (drop i b)

-- The little-endian digits to base 256, and their value.
unfoldable pub to_le : ℕ → ℕ → Bytes
to_le zero n = []
to_le (suc w) n = n % 256 ∷ to_le w (n / 256)

unfoldable pub of_le : Bytes → ℕ
of_le [] = 0
of_le (b ∷ bs) = b + 256 * of_le bs

-- `Struct('<H')`, `'<I'`, `'<Q'`: an unsigned integer of `w` bytes; out of range raises struct.error.
unfoldable pub pack_le_uint : ℕ → ℕ → Result Bytes
unfolding to_le
pack_le_uint w n = if ltb n (256 ^ w) then ok (to_le w n) else err struct_error

-- `Struct('<i')`, `'<q'`: two's complement.
unfoldable pub pack_le_int : ℕ → ℤ → Result Bytes
unfolding to_le
pack_le_int w (pos n) = if ltb (2 * n) (256 ^ w) then ok (to_le w n) else err struct_error
pack_le_int w (negsuc n) =
    if ltb (2 * n) (256 ^ w) then ok (to_le w (256 ^ w - 1 - n)) else err struct_error

unfoldable pub signed : ℕ → ℕ → ℤ
signed w u = if ltb (2 * u) (256 ^ w) then pos u else negsuc (256 ^ w - 1 - u)

-- `unpack_from(buffer, offset)`: a buffer that ends too early raises struct.error.
unfoldable pub unpack_le_uint_from : ℕ → Bytes → ℕ → Result ℕ
unfolding of_le
unpack_le_uint_from w b i =
    if leb (i + w) (length b) then ok (of_le (slice b i (i + w))) else err struct_error

-- `Struct('>H')`
unfoldable pub unpack_be_uint_from : ℕ → Bytes → ℕ → Result ℕ
unfolding of_le
unpack_be_uint_from w b i =
    if leb (i + w) (length b) then ok (of_le (reverse (slice b i (i + w)))) else err struct_error

unfoldable pub unpack_le_int_from : ℕ → Bytes → ℕ → Result ℤ
unfolding unpack_le_uint_from signed
unpack_le_int_from w b i = do u ← unpack_le_uint_from w b i; ok (signed w u)

unfoldable pub pack_varint : ℕ → Result Bytes
pack_varint n =
    if ltb n 253
    then pack_le_uint 1 n
    else if ltb n 65536
    then (do b ← pack_le_uint 2 n; ok (253 ∷ b))
    else if ltb n 4294967296
    then (do b ← pack_le_uint 4 n; ok (254 ∷ b))
    else do b ← pack_le_uint 8 n; ok (255 ∷ b)

unfoldable pub pack_varbytes : Bytes → Result Bytes
pack_varbytes s = do n ← pack_varint (length s); ok (n ++ s)
