-- ===== src/Script/Grammar.antt =====
-- An independent description of scripts: a script is a sequence of items, each of which is a push
-- with its length field and data, a reference with its 36 bytes, or a single opcode.
use rxin_dexer.Prelude.{
  ℕ, ◌+◌, ◌≡◌, true, List, [], ◌∷◌, ◌++◌, arith, leb, if◌then◌else◌, length, get_elem?, replicate,
}
use rxin_dexer.Prelude.Result.{Result, ok, index_error, ◌>>=◌, ◌>>◌, from_option}
use rxin_dexer.Util.{Bytes, slice}
use rxin_dexer.Script.{
  is_input_ref, is_checksig, operand, check_room, Refs, add_ref, refs_round, refs_operand, Zeroed,
  zero_round, zero_operand, OpSpan,
}

pub data Item : Type 0 where
  push : ℕ → Bytes → Bytes → Item
  ref : ℕ → Bytes → Item
  plain : ℕ → Item

-- The item at an offset, and the offset behind it.
unfoldable pub decode_operand : Bytes → ℕ → ℕ → Result (Item × ℕ)
decode_operand s op n =
    if leb op 78
    then (do
      (dlen, m) ← operand s op n
      check_room s (m + dlen)
      ok (push op (slice s n m) (slice s m (m + dlen)), m + dlen))
    else if is_input_ref op
    then (do check_room s (n + 36); ok (ref op (slice s n (n + 36)), n + 36))
    else ok (plain op, n)

unfoldable pub decode : Bytes → ℕ → Result (Item × ℕ)
decode s n = do op ← from_option (get_elem? s n) index_error; decode_operand s op (n + 1)

-- What each walk does with one item at the offset `n`.
unfoldable pub refs_act : Refs → ℕ × Item → Refs
refs_act r (n, push op len bytes) = r
refs_act r (n, ref op bytes) = add_ref op bytes r
refs_act r (n, plain op) = r

pub refs_round-decode :
    (s : Bytes) (n : ℕ) (r : Refs)
    → refs_round s n r ≡ (decode s n >>= λ (it, m). ok (refs_act r (n, it), m))
unfolding refs_round refs_operand decode decode_operand refs_act
refs_round-decode s n r = ground arith

unfoldable pub zero_act : Zeroed → ℕ × Item → Zeroed
zero_act z (n, push op len bytes) = record z { ops = z.ops ++ (op ∷ []) ++ bytes }
zero_act z (n, ref op bytes) = record z { ops = z.ops ++ (op ∷ []) ++ replicate 36 0 }
zero_act z (n, plain op) =
    if is_checksig op
    then record z { ops = z.ops ++ (op ∷ []); requires_sig = true }
    else record z { ops = z.ops ++ (op ∷ []) }

pub zero_round-decode :
    (s : Bytes) (n : ℕ) (z : Zeroed)
    → zero_round s n z ≡ (decode s n >>= λ (it, m). ok (zero_act z (n, it), m))
unfolding zero_round zero_operand decode decode_operand zero_act is_checksig is_input_ref
zero_round-decode s n z = ground arith

-- The length that `_walk_ops` records.
unfoldable pub data_len : Item → ℕ
data_len (push op len bytes) = length bytes
data_len (ref op bytes) = 36
data_len (plain op) = 0

unfoldable pub op_of : Item → ℕ
op_of (push op len bytes) = op
op_of (ref op bytes) = op
op_of (plain op) = op

-- The bytes of an item.
unfoldable pub encode : Item → Bytes
encode (push op len bytes) = op ∷ (len ++ bytes)
encode (ref op bytes) = op ∷ bytes
encode (plain op) = op ∷ []

unfoldable pub walk_act : List OpSpan → ℕ × Item → List OpSpan
walk_act spans (n, it) =
    spans
    ++ (record {
      op = op_of it;
      data_len = data_len it;
      op_start = n;
      op_end = n + length (encode it);
    }
        ∷ [])
