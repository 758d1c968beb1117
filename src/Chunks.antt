-- ===== src/Chunks.antt =====
-- `_parse_script_chunks` of electrumx/server/predict_index.py, royalty_index.py and swap_index.py: an
-- OP_RETURN script split into the data of its pushes.
pub mod Pushes
use rxin_dexer.Prelude.{
  ℕ, zero, suc, ◌+◌, ◌-◌, Bool, true, false, ◌&&◌, ◌||◌, Option, none, some, List, [], ◌∷◌, ltb,
  leb, ◌==◌, if◌then◌else◌, length, get_elem?,
}
use rxin_dexer.Util.{Bytes, slice, of_le}

-- One round of the loop: a chunk and the position behind it, or `break`.
pub data Round : Type 0 where
  stop : Round
  chunk : Bytes → ℕ → Round

-- The data of a push, unless it is cut short.
unfoldable pub push_round : Bytes → ℕ → ℕ → Round
push_round s dlen pos =
    if leb (pos + dlen) (length s) then chunk (slice s pos (pos + dlen)) (pos + dlen) else stop

-- OP_PUSHDATA1, whose length is a byte that may be missing.
unfoldable pub pushdata1_round : Bytes → ℕ → Option ℕ → Round
pushdata1_round s pos none = stop
pushdata1_round s pos (some dlen) = push_round s dlen (pos + 1)

-- OP_PUSHDATA2 and OP_PUSHDATA4, with the width of the length field.
unfoldable pub pushdata_round : Bytes → ℕ → ℕ → Round
pushdata_round s pos w =
    if leb (pos + w) (length s)
    then push_round s (of_le (slice s pos (pos + w))) (pos + w)
    else stop

-- What any other opcode stands for: in swap_index.py OP_1 to OP_16 are small numbers.
unfoldable pub bare_chunk : Bool → ℕ → Bytes
bare_chunk small op = if small && (leb 81 op && leb op 96) then (op - 80) ∷ [] else op ∷ []

-- A round after the opcode was read.
unfoldable pub chunk_round : Bool → Bytes → ℕ → ℕ → Round
chunk_round small s op pos =
    if op == 106 || op == 0
    then chunk (op ∷ []) pos
    else if leb op 75
    then push_round s op pos
    else if op == 76
    then pushdata1_round s pos (get_elem? s pos)
    else if op == 77
    then pushdata_round s pos 2
    else if op == 78
    then pushdata_round s pos 4
    else chunk (bare_chunk small op) pos

-- The chunks from here on. Every round moves the position on, so `length s` rounds are enough.
unfoldable pub after_round : (ℕ → List Bytes) → Round → List Bytes
after_round rest stop = []
after_round rest (chunk c pos) = c ∷ rest pos

unfoldable pub read_op : Bool → Bytes → ℕ → Option ℕ → Round
read_op small s pos none = stop
read_op small s pos (some op) = chunk_round small s op (pos + 1)

unfoldable pub chunk_loop : ℕ → Bool → Bytes → ℕ → List Bytes
chunk_loop zero small s pos = []
chunk_loop (suc fuel) small s pos =
    after_round (chunk_loop fuel small s) (read_op small s pos (get_elem? s pos))

-- The parser of predict_index.py and royalty_index.py.
unfoldable pub parse_script_chunks : Bytes → List Bytes
parse_script_chunks s = chunk_loop (length s) false s 0

-- The parser of swap_index.py.
unfoldable pub parse_swap_chunks : Bytes → List Bytes
parse_swap_chunks s = chunk_loop (length s) true s 0
