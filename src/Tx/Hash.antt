-- ===== src/Tx/Hash.antt =====
-- electrumx/lib/tx.py: the hash of a transaction, which from version 3 is that of a preimage with the
-- token references of the outputs, and the reading of blocks. `double_sha256`, from hashlib, is a
-- parameter.
pub mod Block
use mathlib.Core.List.{reverse}
use rxin_dexer.Prelude.{
  ℕ, Bool, true, false, ℤ, pos, negsuc, List, [], ◌∷◌, ◌++◌, ltb, ◌==◌, if◌then◌else◌, length,
  replicate, list_eq,
}
use rxin_dexer.Prelude.Result
use rxin_dexer.Prelude.Result.{Result, ok, err, struct_error}
use rxin_dexer.Util.{Bytes, slice, pack_le_uint, pack_le_int}
use rxin_dexer.Script.{Refs, get_push_input_refs}
use rxin_dexer.Tx.{Tx, TxInput, TxOutput, ◌<>◌, join_all, serialize}
use rxin_dexer.Tx.Deserializer.{Read, ◌>>=◌, eval, pure, read_tx, read_varint, read_many}

-- The unsigned `pack` on a Python int.
unfoldable pub pack_uint_of : ℕ → ℤ → Result Bytes
pack_uint_of w (pos n) = pack_le_uint w n
pack_uint_of w (negsuc n) = err struct_error

-- `a <= b` on byte strings.
unfoldable pub bytes_le : Bytes → Bytes → Bool
bytes_le [] bs = true
bytes_le (a ∷ r) [] = false
bytes_le (a ∷ r) (b ∷ bs) = if a == b then bytes_le r bs else ltb a b

-- `sorted(refs, key=lambda ref: ref[::-1])`
unfoldable pub insert_ref : Bytes → List Bytes → List Bytes
insert_ref ref [] = ref ∷ []
insert_ref ref (r ∷ refs) =
    let below = insert_ref ref refs in
    if bytes_le (reverse ref) (reverse r) then ref ∷ r ∷ refs else r ∷ below

unfoldable pub sort_refs : List Bytes → List Bytes
sort_refs [] = []
sort_refs (ref ∷ refs) = insert_ref ref (sort_refs refs)

-- The keys of a dict that each reference is put into.
unfoldable pub has_ref : Bytes → List Bytes → Bool
has_ref ref [] = false
has_ref ref (r ∷ refs) = if list_eq ref r then true else has_ref ref refs

unfoldable pub ref_keys : List Bytes → List Bytes → List Bytes
ref_keys keys [] = keys
ref_keys keys (ref ∷ refs) = ref_keys (if has_ref ref keys then keys else keys ++ (ref ∷ [])) refs

-- `b''.join(refs)`
unfoldable pub joined : List Bytes → Bytes
joined [] = []
joined (ref ∷ refs) = ref ++ joined refs

abbrev pub is_version_3 : ℤ → Bool
is_version_3 (pos n) = n == 3
is_version_3 (negsuc n) = false

module _ (double_sha256 : Bytes → Bytes) where
  unfoldable pub hashed : Result Bytes → Result Bytes
  hashed parts = Result.◌>>=◌ parts (λ bytes. ok (double_sha256 bytes))

  unfoldable pub get_hash_prev_inputs : Tx → Result Bytes
  get_hash_prev_inputs tx = hashed (
      join_all
        (λ txin.
          ok txin.prev_hash <> (pack_le_uint 4 txin.prev_idx <> ok (double_sha256 txin.script)))
        tx.inputs)

  unfoldable pub get_hash_sequence : Tx → Result Bytes
  get_hash_sequence tx = hashed (join_all (λ txin. pack_le_uint 4 txin.sequence) tx.inputs)

  unfoldable pub push_input_refs_hash : List Bytes → Bytes
  push_input_refs_hash [] = replicate 32 0
  push_input_refs_hash (ref ∷ refs) = double_sha256 (joined (sort_refs (ref ∷ refs)))

  unfoldable pub calculate_pushrefs_count_and_hash : Bytes → Result Bytes
  calculate_pushrefs_count_and_hash pk_script =
      Result.◌>>=◌ (get_push_input_refs pk_script) (λ refs.
        pack_le_uint 4 (length (ref_keys [] refs.all))
        <> ok (push_input_refs_hash (ref_keys [] refs.all)))

  unfoldable pub get_hash_output_hashes : Tx → Result Bytes
  get_hash_output_hashes tx = hashed (
      join_all
        (λ txout.
          pack_uint_of 8 txout.value
          <> (ok (double_sha256 txout.pk_script)
              <> calculate_pushrefs_count_and_hash txout.pk_script))
        tx.outputs)

  -- The preimage around the three hashes.
  unfoldable pub preimage : Tx → Bytes → Bytes → Bytes → Result Bytes
  preimage tx prev_inputs sequence output_hashes =
      pack_uint_of 4 tx.version
      <> (pack_le_int 4 (pos (length tx.inputs))
          <> (ok prev_inputs
              <> (ok sequence
                  <> (pack_le_int 4 (pos (length tx.outputs))
                      <> (ok output_hashes <> pack_le_uint 4 tx.locktime)))))

  unfoldable pub get_transaction_hash_preimage_v3 : Tx → Result Bytes
  get_transaction_hash_preimage_v3 tx = Result.◌>>=◌ (get_hash_prev_inputs tx) (λ prev_inputs.
      Result.◌>>=◌ (get_hash_sequence tx) (λ sequence.
        Result.◌>>=◌ (get_hash_output_hashes tx)
          (λ output_hashes. hashed (preimage tx prev_inputs sequence output_hashes))))

  -- The hash of a transaction that was read from `start` on.
  unfoldable pub read_hash : ℕ → Tx → Read (Tx × Bytes)
  read_hash start tx =
      if is_version_3 tx.version
      then (eval (λ d. get_transaction_hash_preimage_v3 tx) >>= λ h. pure (tx, h))
      else (eval (λ d. ok (double_sha256 (slice d.binary start d.cursor))) >>= λ h. pure (tx, h))

  unfoldable pub read_tx_and_hash : Read (Tx × Bytes)
  read_tx_and_hash = eval (λ d. ok d.cursor) >>= λ start. read_tx >>= read_hash start

  unfoldable pub read_tx_block : Read (List (Tx × Bytes))
  read_tx_block = read_varint >>= read_many read_tx_and_hash
