-- ===== src/BlockProcessor/Refine/Outputs.antt =====
-- The loop of `advance_txs` over the outputs of a transaction, on the map of unspent outputs.
use mathlib.Core.Path.{subst}
use rxin_dexer.Prelude.{
  ℕ, ◌+◌, ◌<◌, ◌≤◌, ◌^◌, ◌≡◌, refl, sym, true, false, pos, none, some, List, [], ◌∷◌, ◌++◌, inl,
  inr, arith, length, take, drop,
}
use rxin_dexer.Prelude.Result.{Result, ok}
use rxin_dexer.Util.{Bytes, to_le}
use rxin_dexer.Tx.{TxOutput}
use rxin_dexer.Script.{zero_refs}
use rxin_dexer.Script.Template.{get_stateseperator_index}
use rxin_dexer.Store.Cache.{set}
use rxin_dexer.BlockProcessor.{
  Env, Utxos, hashx_len, except_parse, output_indexable, code_script_hash_from_script,
}
use rxin_dexer.BlockProcessor.Advance.{
  RefState, index_refs, hash_output, pack_le_uint64, Added, put_output, add_output, add_outputs,
}
use rxin_dexer.BlockProcessor.Indexable.{output_indexable_total}
use rxin_dexer.BlockProcessor.View.{View, Entry, insert, Holds}
use rxin_dexer.BlockProcessor.View.Laws.{set-Holds}
use rxin_dexer.BlockProcessor.Connect.{
  new_value, value_of_output, with_entry, created, insert_all, Fresh, OutputsFit,
}
use rxin_dexer.BlockProcessor.Refine.{packs, index_refs_total}

-- What a step on the outputs leaves, without what it tracks of references.
abbrev Leaves : Env → Result Added → View → Type 0
Leaves env r view =
    (u : Utxos) × (tracked : RefState) × (hashXs : List Bytes) × (r ≡ ok (u, tracked, hashXs))
    × Holds env u view

abbrev numbered : ℕ → Bytes
numbered tx_num = take 5 (to_le 8 tx_num)

skipped_output :
    (env : Env) (h tx_numb : Bytes) (spent : List Bytes) (idx tx_num : ℕ) (o : TxOutput) (u : Utxos)
    (r : RefState)
    → output_indexable o.pk_script ≡ ok false
    → (add_output env h tx_numb spent idx o u r ≡ ok (u, r, []))
      × (value_of_output env.sha256 tx_num o ≡ none)
unfolding add_output new_value
skipped_output env h tx_numb spent idx tx_num o u r e = (rw e, rw e)

-- The value that the code puts for an output.
abbrev put_value : Env → ℕ → TxOutput → Bytes → ℕ → ℕ → Bytes
put_value env tx_num o z i amount =
    take hashx_len (env.sha256 z)
    ++ (env.sha256 (drop i o.pk_script) ++ (numbered tx_num ++ to_le 8 amount))

indexed_output :
    (env : Env) (h : Bytes) (spent : List Bytes) (idx tx_num : ℕ) (o : TxOutput) (z : Bytes)
    (i amount : ℕ) (u : Utxos) (r tracked : RefState)
    → output_indexable o.pk_script ≡ ok true
    → zero_refs o.pk_script ≡ ok z
    → get_stateseperator_index o.pk_script ≡ ok i
    → o.value ≡ pos amount
    → amount < 256 ^ 8
    → idx < 256 ^ 4
    → index_refs env h (h ++ to_le 4 idx) spent o.pk_script r ≡ ok tracked
    → (add_output env h (numbered tx_num) spent idx o u r
        ≡ ok (
          record u {
            utxo_cache = set (h ++ to_le 4 idx) (put_value env tx_num o z i amount) u.utxo_cache;
          },
          tracked,
          take hashx_len (env.sha256 z) ∷ [],
        ))
      × (value_of_output env.sha256 tx_num o ≡ some (put_value env tx_num o z i amount))
unfolding add_output new_value hash_output except_parse code_script_hash_from_script put_output
    pack_le_uint64
indexed_output env h spent idx tx_num o z i amount u r tracked e ez ei ev a small et =
    (rw (e, ez, ei, ev, packs 4 idx small, packs 8 amount a, et), rw (e, ez, ei, ev))

-- One output, with the outputs after it still new.
add_output-Holds :
    (env : Env) (h : Bytes) (spent : List Bytes) (idx tx_num : ℕ) (o : TxOutput) (rest : List Entry)
    (u : Utxos) (r : RefState) (view : View)
    → ((amount : ℕ) × (o.value ≡ pos amount) × (amount < 256 ^ 8))
    → idx < 256 ^ 4
    → Fresh view (with_entry (h ++ to_le 4 idx) (value_of_output env.sha256 tx_num o) rest)
    → Holds env u view
    → (next : View) × (insert_all
          (with_entry (h ++ to_le 4 idx) (value_of_output env.sha256 tx_num o) rest)
          view
        ≡ insert_all rest next)
      × Fresh next rest
      × Leaves env (add_output env h (numbered tx_num) spent idx o u r) next
unfolding with_entry insert_all
add_output-Holds env h spent idx tx_num o rest u r view (amount, ev, a) small fresh holds =
    elim (output_indexable_total o.pk_script) [
      | inr (e, _) ↦
          let (ran, nothing) = skipped_output env h (numbered tx_num) spent idx tx_num o u r e in
          (view, rw nothing refl, (rw nothing at fresh), (u, r, [], ran, holds))
      | inl (its, _, _, _, e, (ez, _, i, ei)) ↦
          let (tracked, et) = index_refs_total env h (h ++ to_le 4 idx) spent o.pk_script r in
          let (ran, value) =
            indexed_output env h spent idx tx_num o _ i amount u r tracked e ez ei ev a small et in
          let (absent, others) = rw value at fresh in
          (
            insert (h ++ to_le 4 idx) _ view,
            rw value refl,
            others,
            (_, tracked, _, ran, set-Holds env u view (h ++ to_le 4 idx) _ holds absent),
          )
    ]

-- The outputs of a transaction, all of them new, are added.
pub add_outputs-Holds :
    (env : Env) (h : Bytes) (spent : List Bytes) (idx tx_num : ℕ) (outputs : List TxOutput)
    (u : Utxos) (r : RefState) (view : View)
    → OutputsFit outputs
    → idx + length outputs ≤ 256 ^ 4
    → Fresh view (created env.sha256 tx_num h idx outputs)
    → Holds env u view
    → Leaves env
        (add_outputs env h (numbered tx_num) spent idx outputs u r)
        (insert_all (created env.sha256 tx_num h idx outputs) view)
unfolding add_outputs created insert_all
add_outputs-Holds env h spent idx tx_num [] u r view fits small fresh holds =
    (u, r, [], refl, holds)
add_outputs-Holds env h spent idx tx_num (o ∷ outputs) u r view (fit, fits) small fresh holds =
    let (next, same, still, (one, tracked, hashXs, ran, held)) =
      add_output-Holds env h spent idx tx_num o (created env.sha256 tx_num h (idx + 1) outputs) u r
        view fit (omega arith) fresh holds in
    let (all, tracked', more, ran', held') =
      add_outputs-Holds env h spent (idx + 1) tx_num outputs one tracked next fits (omega arith)
        still held in
    (all, tracked', hashXs ++ more, rw (ran, ran'), subst (Holds env all) (sym same) held')
