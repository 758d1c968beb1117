-- ===== src/Script/Template.antt =====
-- electrumx/lib/script.py: the templates of standard scripts, the state separator and the base
-- locking script, which stand on the walk over a script's opcodes.
use rxin_dexer.Prelude.{
  ℕ, zero, suc, ◌+◌, ◌&&◌, ◌||◌, Option, none, some, List, [], ◌∷◌, ltb, leb, ◌==◌, if◌then◌else◌,
  length, get_elem?, drop,
}
use rxin_dexer.Prelude.Result.{Result, ok, err, index_error, out_of_fuel, ◌>>=◌, ◌>>◌, from_option}
use rxin_dexer.Util.{Bytes, slice}
use rxin_dexer.Script.{
  op_stateseperator, op_2drop, op_drop, op_dup, op_equal, op_equalverify, op_hash160, op_checksig,
  OpSpan, check_room, operand, walk_ops, is_input_ref, except_script, op_pushdata4,
}

-- The branches of the loop of `get_stateseperator_index` after the opcode is consumed.
unfoldable pub sep_operand : Bytes → ℕ → ℕ → Result ℕ
sep_operand s op n =
    if leb op op_pushdata4
    then (do (dlen, m) ← operand s op n; check_room s (m + dlen); ok (m + dlen))
    else if is_input_ref op
    then (do check_room s (n + 36); ok (n + 36))
    else ok n

-- The offset of the first state separator, or 0 where there is none.
unfoldable pub sep_loop : ℕ → Bytes → ℕ → Result ℕ
sep_loop zero s n = if ltb n (length s) then err out_of_fuel else ok 0
sep_loop (suc fuel) s n =
    if ltb n (length s)
    then (do
      op ← from_option (get_elem? s n) index_error
      let rest = (do m ← sep_operand s op (n + 1); sep_loop fuel s m)
      if op == op_stateseperator then ok n else rest)
    else ok 0

unfoldable pub get_stateseperator_index : Bytes → Result ℕ
unfolding sep_loop sep_operand
get_stateseperator_index s = except_script (sep_loop (length s) s 0)

-- The opcodes of a P2PKH at the head of a list of spans, and the offsets that they cover.
unfoldable pub p2pkh_at : List OpSpan → Option (ℕ × ℕ)
p2pkh_at (a ∷ b ∷ c ∷ d ∷ e ∷ rest) =
    if a.op == op_dup
      && (b.op == op_hash160
          && (c.op == 20 && (c.data_len == 20 && (d.op == op_equalverify && e.op == op_checksig))))
    then some (a.op_start, e.op_end)
    else none
p2pkh_at _ = none

unfoldable pub p2sh_at : List OpSpan → Option (ℕ × ℕ)
p2sh_at (a ∷ b ∷ c ∷ rest) =
    if a.op == op_hash160 && (b.op == 20 && (b.data_len == 20 && c.op == op_equal))
    then some (a.op_start, c.op_end)
    else none
p2sh_at _ = none

abbrev pub or_else {ℓ} : {A : Type ℓ} → Option A → Option A → Option A
or_else (some a) other = some a
or_else none other = other

-- `for i in range(...)` over the spans: the first place where a template matches.
unfoldable pub find_template : (List OpSpan → Option (ℕ × ℕ)) → List OpSpan → Option (ℕ × ℕ)
find_template template [] = none
find_template template (a ∷ rest) = or_else (template (a ∷ rest)) (find_template template rest)

-- The offset behind a leading run of references and drops.
unfoldable pub preamble_end : ℕ → Bytes → ℕ → Result ℕ
preamble_end zero s n = if ltb n (length s) then err out_of_fuel else ok n
preamble_end (suc fuel) s n =
    if ltb n (length s)
    then (do
      op ← from_option (get_elem? s n) index_error
      let after_ref = preamble_end fuel s (n + (1 + 36))
      let after_drop = preamble_end fuel s (n + 1)
      let after = if op == op_drop || op == op_2drop then after_drop else ok n
      if is_input_ref op
          then (if ltb (length s) (n + (1 + 36)) then ok n else after_ref)
          else after)
    else ok n

-- What `except Exception: return script` returns; the fallback of `base_locking_script`.
unfoldable pub strip_preamble : Bytes → Result Bytes
strip_preamble s = elim (preamble_end (length s) s 0) [
  | ok n ↦ elim (drop n s) [ [] ↦ ok s | b ∷ rest ↦ ok (b ∷ rest) ]
  | err out_of_fuel ↦ err out_of_fuel
  | err _ ↦ ok s
]

unfoldable pub cut_or : Bytes → Option (ℕ × ℕ) → Result Bytes → Result Bytes
cut_or s (some (start, end)) other = ok (slice s start end)
cut_or s none other = other

unfoldable pub base_of_spans : Bytes → List OpSpan → Result Bytes
base_of_spans s spans =
    cut_or s (find_template p2pkh_at spans)
      (cut_or s (find_template p2sh_at spans) (strip_preamble s))

-- An error stands only for a walk that ran out of rounds.
unfoldable pub base_of : Bytes → Result (List OpSpan) → Result Bytes
base_of s (ok spans) = base_of_spans s spans
base_of s (err out_of_fuel) = err out_of_fuel
base_of s (err _) = ok s

unfoldable pub base_locking_script : Bytes → Result Bytes
unfolding base_of base_of_spans cut_or strip_preamble preamble_end
base_locking_script s = base_of s (walk_ops s)
