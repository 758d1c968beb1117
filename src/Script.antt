-- ===== src/Script.antt =====
-- electrumx/lib/script.py: the walks over a script's opcodes. Each is a `while` loop over an offset
-- into the script; here it has `length script` rounds, and every round moves the offset on.
pub mod Grammar
pub mod Template
pub mod Base
pub mod Spans
pub mod Walks
pub mod Parse
pub mod Decode
pub mod Operand
use rxin_dexer.Prelude.{
  ℕ, zero, suc, ◌+◌, Bool, true, false, ◌&&◌, ◌||◌, Option, none, some, List, [], ◌∷◌, ◌++◌, ltb,
  leb, ◌==◌, if◌then◌else◌, length, get_elem?, drop, replicate, list_eq, take,
}
use rxin_dexer.Prelude.Result.{
  Result, ok, err, index_error, script_error, out_of_fuel, ◌>>=◌, ◌>>◌, guard, from_option,
}
use rxin_dexer.Util.{Bytes, slice, pack_le_uint, unpack_le_uint_from}

-- Opcodes.
abbrev pub op_pushdata1 : ℕ
op_pushdata1 = 76

abbrev pub op_pushdata2 : ℕ
op_pushdata2 = 77

abbrev pub op_pushdata4 : ℕ
op_pushdata4 = 78

abbrev pub op_stateseperator : ℕ
op_stateseperator = 189

abbrev pub op_pushinputref : ℕ
op_pushinputref = 208

abbrev pub op_pushinputrefsingleton : ℕ
op_pushinputrefsingleton = 216

abbrev pub op_return : ℕ
op_return = 106

abbrev pub op_2drop : ℕ
op_2drop = 109

abbrev pub op_drop : ℕ
op_drop = 117

abbrev pub op_dup : ℕ
op_dup = 118

abbrev pub op_equal : ℕ
op_equal = 135

abbrev pub op_equalverify : ℕ
op_equalverify = 136

abbrev pub op_hash160 : ℕ
op_hash160 = 169

abbrev pub op_checksig : ℕ
op_checksig = 172

-- `op in INPUT_REF_OPS`
unfoldable pub is_input_ref : ℕ → Bool
is_input_ref op = op == 208 || (op == 216 || (op == 209 || (op == 210 || op == 211)))

-- `op in CHECKSIG_OPS`
unfoldable pub is_checksig : ℕ → Bool
is_checksig op = op == 172 || (op == 173 || (op == 174 || op == 175))

unfoldable pub is_unspendable_legacy : Bytes → Bool
is_unspendable_legacy s =
    list_eq (slice s 0 2) (0 ∷ 106 ∷ [])
    || elim (get_elem? s 0) [ some b ↦ b == op_return | none ↦ false ]

-- The `if`/`elif` chain on the push opcodes: the length of the data, and the offset behind the
-- length. The offset given is behind the opcode, which is at most OP_PUSHDATA4.
unfoldable pub operand : Bytes → ℕ → ℕ → Result (ℕ × ℕ)
operand s op n =
    if ltb op op_pushdata1
    then ok (op, n)
    else if op == op_pushdata1
    then (do dlen ← from_option (get_elem? s n) index_error; ok (dlen, n + 1))
    else if op == op_pushdata2
    then (do dlen ← unpack_le_uint_from 2 (slice s n (n + 2)) 0; ok (dlen, n + 2))
    else do dlen ← unpack_le_uint_from 4 (slice s n (n + 4)) 0; ok (dlen, n + 4)

-- `if n + dlen > len(script): raise IndexError`
abbrev pub check_room : Bytes → ℕ → Result (Unit {0})
check_room s m = guard (leb m (length s)) index_error

-- The `while n < len(script)` loop, over what one round does at the offset `n`.
unfoldable pub while_ops :
    {S : Type 0} → (Bytes → ℕ → S → Result (S × ℕ)) → ℕ → Bytes → ℕ → S → Result S
while_ops round zero s n st = if ltb n (length s) then err out_of_fuel else ok st
while_ops round (suc fuel) s n st =
    if ltb n (length s) then (do (st', m) ← round s n st; while_ops round fuel s m st') else ok st

-- `except Exception: raise ScriptError`; running out of rounds is no exception.
unfoldable pub except_script : {A : Type 0} → Result A → Result A
except_script (ok a) = ok a
except_script (err out_of_fuel) = err out_of_fuel
except_script (err _) = err script_error

-- The references of a script, in the order in which they were met.
pub record Refs : Type 0 where
  pub all : List Bytes
  pub normal : List Bytes
  pub singleton : List Bytes

unfoldable pub add_ref : ℕ → Bytes → Refs → Refs
add_ref op ref r =
    if op == op_pushinputref
    then record r { all = r.all ++ (ref ∷ []); normal = r.normal ++ (ref ∷ []) }
    else if op == op_pushinputrefsingleton
    then record r { all = r.all ++ (ref ∷ []); singleton = r.singleton ++ (ref ∷ []) }
    else r

unfoldable pub refs_operand : Bytes → ℕ → ℕ → Refs → Result (Refs × ℕ)
refs_operand s op n r =
    if leb op op_pushdata4
    then (do (dlen, m) ← operand s op n; check_room s (m + dlen); ok (r, m + dlen))
    else if is_input_ref op
    then (do let r' = add_ref op (slice s n (n + 36)) r; check_room s (n + 36); ok (r', n + 36))
    else ok (r, n)

unfoldable pub refs_round : Bytes → ℕ → Refs → Result (Refs × ℕ)
refs_round s n r = do op ← from_option (get_elem? s n) index_error; refs_operand s op (n + 1) r

unfoldable pub get_push_input_refs : Bytes → Result Refs
get_push_input_refs s =
    except_script
      (while_ops refs_round (length s) s 0 (record { all = []; normal = []; singleton = [] }))

-- The state of `zero_refs`: the bytes written so far, and whether a signature check was met.
pub record Zeroed : Type 0 where
  pub ops : Bytes
  pub requires_sig : Bool

unfoldable pub zero_operand : Bytes → ℕ → ℕ → Zeroed → Result (Zeroed × ℕ)
zero_operand s op n z =
    if is_checksig op
    then ok (record z { requires_sig = true }, n)
    else if leb op op_pushdata4
    then (do
      (dlen, m) ← operand s op n
      check_room s (m + dlen)
      ok (record z { ops = z.ops ++ slice s m (m + dlen) }, m + dlen))
    else if is_input_ref op
    then (do check_room s (n + 36); ok (record z { ops = z.ops ++ replicate 36 0 }, n + 36))
    else ok (z, n)

unfoldable pub zero_round : Bytes → ℕ → Zeroed → Result (Zeroed × ℕ)
zero_round s n z = do
  op ← from_option (get_elem? s n) index_error
  zero_operand s op (n + 1) (record z { ops = z.ops ++ (op ∷ []) })

unfoldable pub zero_refs : Bytes → Result Bytes
zero_refs s = except_script do
  z ← while_ops zero_round (length s) s 0 (record { ops = []; requires_sig = false })
  ok (if z.requires_sig then z.ops else s)

-- One entry of `_walk_ops`.
pub record OpSpan : Type 0 where
  pub op : ℕ
  pub data_len : ℕ
  pub op_start : ℕ
  pub op_end : ℕ

unfoldable pub span_operand : Bytes → ℕ → ℕ → ℕ → Result (OpSpan × ℕ)
span_operand s start op n =
    if leb op op_pushdata4
    then (do
      (dlen, m) ← operand s op n
      check_room s (m + dlen)
      ok (record { op = op; data_len = dlen; op_start = start; op_end = m + dlen }, m + dlen))
    else if is_input_ref op
    then (do
      check_room s (n + 36)
      ok (record { op = op; data_len = 36; op_start = start; op_end = n + 36 }, n + 36))
    else ok (record { op = op; data_len = 0; op_start = start; op_end = n }, n)

unfoldable pub walk_round : Bytes → ℕ → List OpSpan → Result (List OpSpan × ℕ)
walk_round s n spans = do
  op ← from_option (get_elem? s n) index_error
  (span, m) ← span_operand s n op (n + 1)
  ok (spans ++ (span ∷ []), m)

unfoldable pub walk_ops : Bytes → Result (List OpSpan)
walk_ops s = while_ops walk_round (length s) s 0 []

unfoldable pub push_data : Bytes → Result Bytes
push_data bytes =
    let n = length bytes in
    if ltb n op_pushdata1
    then ok (n ∷ bytes)
    else if ltb n 256
    then ok (op_pushdata1 ∷ n ∷ bytes)
    else if ltb n 65536
    then (do len ← pack_le_uint 2 n; ok ((op_pushdata2 ∷ []) ++ (len ++ bytes)))
    else do len ← pack_le_uint 4 n; ok ((op_pushdata4 ∷ []) ++ (len ++ bytes))

unfoldable pub p2sh_script : Bytes → Result Bytes
p2sh_script hash160 = do
  pushed ← push_data hash160
  ok ((op_hash160 ∷ []) ++ (pushed ++ (op_equal ∷ [])))

unfoldable pub p2pkh_script : Bytes → Result Bytes
p2pkh_script hash160 = do
  pushed ← push_data hash160
  ok ((op_dup ∷ op_hash160 ∷ []) ++ (pushed ++ (op_equalverify ∷ op_checksig ∷ [])))
