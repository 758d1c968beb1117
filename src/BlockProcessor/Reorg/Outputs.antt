-- ===== src/BlockProcessor/Reorg/Outputs.antt =====
-- The loop of `_backup_txs` over the outputs of a transaction, on the map of unspent outputs.
use mathlib.Core.Path.{subst}
use rxin_dexer.Prelude.{
  ℕ, ◌+◌, ◌<◌, ◌≤◌, ◌^◌, ◌≡◌, refl, Bool, true, pos, some, List, [], ◌∷◌, ◌++◌, inl, inr, arith,
  length, All-append, drop, take, if◌then◌else◌,
}
use rxin_dexer.Prelude.Result.{Result, ok, err, ◌>>=◌}
use rxin_dexer.Util.{Bytes, to_le}
use rxin_dexer.Tx.{TxOutput}
use rxin_dexer.Script.{zero_refs}
use rxin_dexer.Script.Grammar.{Item}
use rxin_dexer.Script.Walks.{zeroed, has_checksig}
use rxin_dexer.Script.Template.{get_stateseperator_index}
use rxin_dexer.BlockProcessor.{Env, hashx_len, output_indexable}
use rxin_dexer.BlockProcessor.Backup.{Backed, hash_xs_of, spend_output, backup_outputs}
use rxin_dexer.BlockProcessor.Indexable.{output_indexable_total}
use rxin_dexer.BlockProcessor.View.{View, Entry, insert, erase, Holds, IsUtxoDb}
use rxin_dexer.BlockProcessor.View.Laws.{deletes-Holds, IsRefKey}
use rxin_dexer.BlockProcessor.View.Spend.{spend_utxo-Holds}
use rxin_dexer.BlockProcessor.Connect.{
  new_value, value_of_output, with_entry, created, insert_all, Fresh, OutputsFit,
}
use rxin_dexer.BlockProcessor.Connect.Maps.{insert_at, Fresh-first, erase-insert}
use rxin_dexer.BlockProcessor.Refine.{packs}
use rxin_dexer.BlockProcessor.Refine.Blocks.{HashesHaveLength, length-new_value}
use rxin_dexer.BlockProcessor.Reorg.Refs.{
  IsFlushed, delete_potential_refs-Deletes, delete_refs-Deletes, refs_to_delete_total,
}

-- What a step back leaves.
abbrev pub Backs : Env → Result Backed → View → Type 0
Backs env r view = (st : Backed) × (r ≡ ok st) × Holds env st.utxos view × IsFlushed st.ref_caches

-- An output that is there is spent, with its references.
spend_output-Backs :
    (env : Env) (h : Bytes) (spent : List Bytes) (idx : ℕ) (o : TxOutput) (st : Backed)
    (view : View) (v : Bytes)
    → IsUtxoDb env
    → length h ≡ 32
    → idx < 256 ^ 4
    → 0 < length v
    → view (h ++ to_le 4 idx) ≡ some v
    → Holds env st.utxos view
    → IsFlushed st.ref_caches
    → Backs env (spend_output env h spent idx o st) (erase (h ++ to_le 4 idx) view)
unfolding spend_output
spend_output-Backs env h spent idx o st view v db l small full there holds flushed =
    let (u, ran, held) = spend_utxo-Holds env st.utxos view h idx v db holds l small full there in
    let (refs, ds, ran1, flushed1, keys) =
      delete_potential_refs-Deletes env (h ++ to_le 4 idx) st.ref_caches flushed in
    let (all, ran2) = refs_to_delete_total o.pk_script in
    let (after, more, ran3, flushed2, keys2) = delete_refs-Deletes env spent all refs flushed1 in
    let left : Backed = record {
      utxos = record u { db_deletes = u.db_deletes ++ (ds ++ more) };
      ref_caches = after;
      touched = st.touched ++ (take hashx_len v ∷ hash_xs_of env all);
    } in
    (
      left,
      rw (ran, packs 4 idx small, ran1, ran2, ran3) refl,
      deletes-Holds env u (erase (h ++ to_le 4 idx) view) (ds ++ more) db held
          (All-append IsRefKey ds more keys keys2),
      flushed2,
    )

abbrev zeroed_of : List Item → Bytes → Bytes
zeroed_of its s = if has_checksig its then zeroed its else s

-- Whether or not the output was added, behind it the map is that of the outputs after it.
back_one :
    (env : Env) (sha256 : Bytes → Bytes) (h : Bytes) (spent : List Bytes) (idx tx_num : ℕ)
    (o : TxOutput) (rest : List Entry) (st : Backed) (view : View)
    → IsUtxoDb env
    → HashesHaveLength sha256
    → length h ≡ 32
    → ((amount : ℕ) × (o.value ≡ pos amount) × (amount < 256 ^ 8))
    → idx < 256 ^ 4
    → Fresh view (with_entry (h ++ to_le 4 idx) (value_of_output sha256 tx_num o) rest)
    → Holds env st.utxos
        (insert_all (with_entry (h ++ to_le 4 idx) (value_of_output sha256 tx_num o) rest) view)
    → IsFlushed st.ref_caches
    → Fresh view rest
      × Backs env
          (output_indexable o.pk_script >>= λ indexable.
            if indexable then spend_output env h spent idx o st else ok st)
          (insert_all rest view)
unfolding with_entry insert_all new_value
back_one env sha256 h spent idx tx_num o rest st view db hashes l (amount, ev, a) small fresh holds
      flushed =
    elim (output_indexable_total o.pk_script) [
      | inr (e, _) ↦ (rw e at fresh, (st, rw e refl, rw e at holds, flushed))
      | inl (its, _, _, _, e, (ez, _, i, ei)) ↦
          added
            (take hashx_len (sha256 (zeroed_of its o.pk_script))
              ++ (sha256 (drop i o.pk_script) ++ (take 5 (to_le 8 tx_num) ++ to_le 8 amount)))
            (rw (e, ez, ei, ev) refl) e fresh holds
    ]
  where
    added :
        (v : Bytes)
        → value_of_output sha256 tx_num o ≡ some v
        → output_indexable o.pk_script ≡ ok true
        → Fresh view (with_entry (h ++ to_le 4 idx) (value_of_output sha256 tx_num o) rest)
        → Holds env st.utxos
            (insert_all (with_entry (h ++ to_le 4 idx) (value_of_output sha256 tx_num o) rest) view)
        → Fresh view rest
          × Backs env
              (output_indexable o.pk_script >>= λ indexable.
                if indexable then spend_output env h spent idx o st else ok st)
              (insert_all rest view)
    added v ev e fresh holds =
        let k : Bytes = h ++ to_le 4 idx in
        let full : length v ≡ 56 =
          length-new_value sha256 tx_num o.pk_script (output_indexable o.pk_script)
            (zero_refs o.pk_script) (get_stateseperator_index o.pk_script) o.value v hashes ev in
        let (moved, absent, below) = Fresh-first rest k v view (rw ev at fresh) in
        let holds' : Holds env st.utxos (insert k v (insert_all rest view)) =
          subst (Holds env st.utxos) moved (rw ev at holds) in
        let (st', ran, held, flushed') =
          spend_output-Backs env h spent idx o st (insert k v (insert_all rest view)) v db l small
            (omega arith) (insert_at k v (insert_all rest view)) holds' flushed in
        (
          below,
          (
            st',
            rw (e, ran) refl,
            subst (Holds env st'.utxos) (erase-insert k v (insert_all rest view) absent) held,
            flushed',
          ),
        )

outputs_step :
    (env : Env) (h : Bytes) (spent : List Bytes) (idx : ℕ) (o : TxOutput) (outputs : List TxOutput)
    (st one after : Backed) (r : Result Bool)
    → (r >>= λ indexable. if indexable then spend_output env h spent idx o st else ok st) ≡ ok one
    → backup_outputs env h spent (idx + 1) outputs one ≡ ok after
    → (r >>= λ indexable.
        (if indexable then spend_output env h spent idx o st else ok st) >>= λ next.
        backup_outputs env h spent (idx + 1) outputs next)
      ≡ ok after
outputs_step env h spent idx o outputs st one after (ok b) ran ran' = rw (ran, ran') refl
outputs_step env h spent idx o outputs st one after (err x) ran ran' = cc ran

pub backup_outputs-Backs :
    (env : Env) (sha256 : Bytes → Bytes) (h : Bytes) (spent : List Bytes) (idx tx_num : ℕ)
    (outputs : List TxOutput) (st : Backed) (view : View)
    → IsUtxoDb env
    → HashesHaveLength sha256
    → length h ≡ 32
    → OutputsFit outputs
    → idx + length outputs ≤ 256 ^ 4
    → Fresh view (created sha256 tx_num h idx outputs)
    → Holds env st.utxos (insert_all (created sha256 tx_num h idx outputs) view)
    → IsFlushed st.ref_caches
    → Backs env (backup_outputs env h spent idx outputs st) view
unfolding backup_outputs created insert_all
backup_outputs-Backs env sha256 h spent idx tx_num [] st view db hashes l fits small fresh holds
      flushed =
    (st, refl, holds, flushed)
backup_outputs-Backs env sha256 h spent idx tx_num (o ∷ outputs) st view db hashes l (fit, fits)
      small fresh holds flushed =
    let (still, (one, ran, held, flushed')) =
      back_one env sha256 h spent idx tx_num o (created sha256 tx_num h (idx + 1) outputs) st view
        db hashes l fit (omega arith) fresh holds flushed in
    let (after, ran', held', flushed'') =
      backup_outputs-Backs env sha256 h spent (idx + 1) tx_num outputs one view db hashes l fits
        (omega arith) still held flushed' in
    (
      after,
      outputs_step env h spent idx o outputs st one after (output_indexable o.pk_script) ran ran',
      held',
      flushed'',
    )
