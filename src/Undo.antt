-- ===== src/Undo.antt =====
-- electrumx/lib/util.py: encode_undo and decode_undo, the bytes that hold what a block changed, so
-- that a reorganisation can put it back. An entry is a key and its previous value, if it had one.
pub mod RoundTrip
use mathlib.Core.List.{reverse}
use rxin_dexer.Prelude.{
  ℕ, zero, suc, ◌+◌, Option, none, some, List, [], ◌∷◌, ◌++◌, ltb, ◌==◌, if◌then◌else◌, length,
}
use rxin_dexer.Prelude.Result.{Result, ok, err, out_of_fuel, ◌>>=◌}
use rxin_dexer.Util.{Bytes, slice, pack_le_uint, unpack_be_uint_from}

-- `struct.pack('>H', n)` and `struct.pack('>I', n)` at the widths 2 and 4.
unfoldable pub pack_be_uint : ℕ → ℕ → Result Bytes
pack_be_uint w n = do b ← pack_le_uint w n; ok (reverse b)

abbrev pub undo_none_sentinel : ℕ
undo_none_sentinel = 4294967295

abbrev pub UndoEntry : Type 0
UndoEntry = Bytes × Option Bytes

-- The parts that an entry appends after its key.
unfoldable pub encode_value : Option Bytes → Result Bytes
encode_value none = pack_be_uint 4 undo_none_sentinel
encode_value (some prev) = do len ← pack_be_uint 4 (length prev); ok (len ++ prev)

unfoldable pub encode_entry : UndoEntry → Result Bytes
encode_entry (key, prev) = do
  len ← pack_be_uint 2 (length key)
  value ← encode_value prev
  ok (len ++ (key ++ value))

unfoldable pub encode_undo : List UndoEntry → Result Bytes
encode_undo [] = ok []
encode_undo (entry ∷ entries) = do
  part ← encode_entry entry
  rest ← encode_undo entries
  ok (part ++ rest)

-- The value after its length field, and the position behind it.
unfoldable pub decode_value : Bytes → ℕ → ℕ → Option Bytes × ℕ
decode_value raw val_len pos =
    if val_len == undo_none_sentinel
    then (none, pos)
    else (some (slice raw pos (pos + val_len)), pos + val_len)

-- The loop, with what the rounds from here on append: `break` ends it.
unfoldable pub decode_loop : ℕ → Bytes → ℕ → Result (List UndoEntry)
decode_loop zero raw pos = if ltb pos (length raw) then err out_of_fuel else ok []
decode_loop (suc fuel) raw pos =
    if ltb pos (length raw)
    then (if ltb (length raw) (pos + 2) then ok [] else do
      key_len ← unpack_be_uint_from 2 raw pos
      let key_end = pos + 2 + key_len
      if ltb (length raw) (key_end + 4) then ok [] else (do
        val_len ← unpack_be_uint_from 4 raw key_end
        let value = decode_value raw val_len (key_end + 4)
        entries ← decode_loop fuel raw value.1
        ok ((slice raw (pos + 2) key_end, value.0) ∷ entries)))
    else ok []

-- Every round moves the position on, so that `length raw` rounds are enough.
unfoldable pub decode_undo : Bytes → Result (List UndoEntry)
decode_undo raw = decode_loop (length raw) raw 0
