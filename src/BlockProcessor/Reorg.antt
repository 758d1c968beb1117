-- ===== src/BlockProcessor/Reorg.antt =====
-- `_backup_txs` of electrumx/server/block_processor.py undoes `advance_txs`.
pub mod Refs
pub mod Outputs
pub mod Inputs
use mathlib.Core.Path.{subst}
use rxin_dexer.Prelude.{
  ℕ, ◌+◌, ◌-◌, ◌<◌, ◌≤◌, ◌^◌, ◌≡◌, refl, sym, ap, ◌∙◌, true, false, Option, none, some, List, [],
  ◌∷◌, ◌++◌, arith, length, length-append, append_assoc, append-nil,
}
use rxin_dexer.Prelude.Result.{Result, ok, ◌>>=◌}
use rxin_dexer.Util.{Bytes}
use rxin_dexer.Tx.{Tx}
use rxin_dexer.Database.{join, read_undo_info, read_ref_loc_undo_info}
use rxin_dexer.BlockProcessor.{Env, BlockProcessor}
use rxin_dexer.BlockProcessor.Advance.{BlockTx, advance_txs}
use rxin_dexer.BlockProcessor.Backup.{
  Backed, backup_tx, backup_loop, both_found, backed_up, backup_txs,
}
use rxin_dexer.BlockProcessor.View.{View, Holds, IsUtxoDb}
use rxin_dexer.BlockProcessor.Connect.{
  spent_keys, erase_all, created, connect_tx, connect, given_up, given_up_by, IsSized, Fits,
  Connects, IsValid,
}
use rxin_dexer.BlockProcessor.Connect.Maps.{erase_all-IsSized}
use rxin_dexer.BlockProcessor.Refine.{spent_outpoints-spent_keys}
use rxin_dexer.BlockProcessor.Refine.Blocks.{
  HashesHaveLength, connect_tx-IsSized, advance_txs-connect,
}
use rxin_dexer.BlockProcessor.Reorg.Refs.{IsFlushed}
use rxin_dexer.BlockProcessor.Reorg.Outputs.{backup_outputs-Backs}
use rxin_dexer.BlockProcessor.Reorg.Inputs.{Restored, bind_ok, restore_inputs-Holds}

join-append : (xs ys : List Bytes) → join (xs ++ ys) ≡ join xs ++ join ys
unfolding join
join-append [] ys = refl
join-append (x ∷ xs) ys =
    ap (λ (t : Bytes). x ++ t) (join-append xs ys) ∙ sym (append_assoc x (join xs) (join ys))

module _ (env : Env) (sha256 : Bytes → Bytes) (db : IsUtxoDb env) (hashes : HashesHaveLength sha256)
    (undo_info : Bytes) where
  backup_tx-Restored :
      (tx_num : ℕ) (tx : BlockTx) (before after : Bytes) (n : ℕ) (st : Backed) (view : View)
      → Fits tx
      → IsSized view
      → Connects sha256 tx_num tx view
      → undo_info ≡ before ++ (join (given_up (spent_keys tx.0.inputs) view) ++ after)
      → n ≡ length before + length (join (given_up (spent_keys tx.0.inputs) view))
      → Holds env st.utxos (connect_tx sha256 tx_num tx view)
      → IsFlushed st.ref_caches
      → Restored env (backup_tx env undo_info tx (n, st)) (length before) view
  unfolding backup_tx connect_tx
  backup_tx-Restored tx_num (tx, h) before after n st view (l, ins, outs, few) sized (live, fresh)
        whole at holds flushed =
      let (spent, ran, held, flushed') =
        backup_outputs-Backs env sha256 h (spent_keys tx.inputs) 0 tx_num tx.outputs st
          (erase_all (spent_keys tx.inputs) view) db hashes l outs (omega arith) fresh holds
          flushed in
      let (back, ran', held', flushed'') =
        restore_inputs-Holds env undo_info before after tx.inputs spent view n ins sized live whole
          at held flushed' in
      (back, rw (spent_outpoints-spent_keys tx.inputs ins, ran) ran', held', flushed'')

  backup_loop-Restored :
      (tx_num : ℕ) (txs : List BlockTx) (before after : Bytes) (n : ℕ) (st : Backed) (view : View)
      → IsSized view
      → IsValid sha256 tx_num txs view
      → undo_info ≡ before ++ (join (given_up_by sha256 tx_num txs view) ++ after)
      → n ≡ length before + length (join (given_up_by sha256 tx_num txs view))
      → Holds env st.utxos (connect sha256 tx_num txs view)
      → IsFlushed st.ref_caches
      → Restored env (backup_loop env undo_info txs (n, st)) (length before) view
  unfolding backup_loop connect given_up_by
  backup_loop-Restored tx_num [] before after n st view sized valid whole at holds flushed =
      let e : n ≡ length before = unfold join in omega (arith, at) in
      (st, ap (λ (m : ℕ). ok (m, st)) e, holds, flushed)
  backup_loop-Restored tx_num ((tx, h) ∷ txs) before after n st view sized (fits, connects, valid)
        whole at holds flushed =
      let first : Bytes = join (given_up (spent_keys tx.inputs) view) in
      let next : View = connect_tx sha256 tx_num (tx, h) view in
      let more : Bytes = join (given_up_by sha256 (tx_num + 1) txs next) in
      let both =
        join-append (given_up (spent_keys tx.inputs) view)
          (given_up_by sha256 (tx_num + 1) txs next) in
      let split : undo_info ≡ before ++ (first ++ (more ++ after)) =
        whole
        ∙ ap (λ (x : Bytes). before ++ (x ++ after)) both
        ∙ ap (λ (x : Bytes). before ++ x) (append_assoc first more after) in
      let n' : n ≡ length (before ++ first) + length more =
        omega (arith, at, ap length both, length-append first more, length-append before first) in
      let (st', ran, held, flushed') =
        backup_loop-Restored (tx_num + 1) txs (before ++ first) after n st next
          (connect_tx-IsSized sha256 tx_num (tx, h) view hashes sized) valid
          (split ∙ sym (append_assoc before first (more ++ after))) n' holds flushed in
      let (st'', ran', held', flushed'') =
        backup_tx-Restored tx_num (tx, h) before (more ++ after) (length (before ++ first)) st' view
          fits sized connects split (length-append before first) held flushed' in
      (
        st'',
        bind_ok (backup_loop env undo_info txs (n, st)) (backup_tx env undo_info (tx, h)) _ ran
            ∙ ran',
        held',
        flushed'',
      )

-- The undo information of the block is stored at its height, with some locations to restore.
abbrev pub HasUndo : Env → ℕ → List Bytes → Type 0
HasUndo env height undo_info =
    (read_undo_info env.utxo_db height ≡ ok (some (join undo_info)))
    × (locs : Bytes) × (read_ref_loc_undo_info env.utxo_db height ≡ ok (some locs))

-- Backing up a valid block, with its undo information stored and the caches of references flushed,
-- raises nothing, and from the map that the block left gives the map before it.
pub backup_txs-connect :
    (env : Env) (sha256 : Bytes → Bytes) (txs : List BlockTx) (s : BlockProcessor) (tx_num : ℕ)
    (view : View)
    → IsUtxoDb env
    → HashesHaveLength sha256
    → IsSized view
    → IsValid sha256 tx_num txs view
    → HasUndo env s.height (given_up_by sha256 tx_num txs view)
    → Holds env s.utxos (connect sha256 tx_num txs view)
    → IsFlushed s.ref_caches
    → (after : BlockProcessor) × (backup_txs env txs s ≡ ok after)
      × Holds env after.utxos view
      × (after.tx_count ≡ s.tx_count - length txs)
unfolding backup_txs both_found
backup_txs-connect env sha256 txs s tx_num view db hashes sized valid (read, locs, read_locs) holds
      flushed =
    let undo_info : Bytes = join (given_up_by sha256 tx_num txs view) in
    let start : Backed = record {
      utxos = s.utxos;
      ref_caches = s.ref_caches;
      touched = s.touched;
    } in
    let (st, ran, held, _) =
      backup_loop-Restored env sha256 db hashes undo_info tx_num txs [] [] (length undo_info) start
        view sized valid (sym (append-nil undo_info)) (omega arith) holds flushed in
    (backed_up txs locs s st, rw (read, read_locs, ran) refl, held, refl)

-- Suppose that a block is valid on the map that a processor holds, and that `advance_txs` has taken
-- it. Then for every later state that holds what it left, wherever flushes have moved it, with the
-- caches of references flushed and the undo information that `advance_txs` returned stored at the
-- height, `_backup_txs` raises nothing and gives back the map and the number of transactions from
-- before the block.
pub backup_txs-advance_txs :
    (env later : Env) (txs : List BlockTx) (s after t : BlockProcessor)
    (undo_info ref_loc_undo_info : List Bytes) (view : View)
    → IsUtxoDb env
    → IsUtxoDb later
    → HashesHaveLength env.sha256
    → IsSized view
    → s.tx_count + length txs ≤ 256 ^ 8
    → IsValid env.sha256 s.tx_count txs view
    → Holds env s.utxos view
    → advance_txs env txs s ≡ ok (after, undo_info, ref_loc_undo_info)
    → ((now : View) → Holds env after.utxos now → Holds later t.utxos now)
    → IsFlushed t.ref_caches
    → t.tx_count ≡ after.tx_count
    → HasUndo later t.height undo_info
    → (back : BlockProcessor) × (backup_txs later txs t ≡ ok back)
      × Holds later back.utxos view
      × (back.tx_count ≡ s.tx_count)
backup_txs-advance_txs env later txs s after t undo_info ref_loc_undo_info view db db' hashes sized
      small valid holds advanced kept flushed counted stored =
    let (left, values, _, ran, held, undo, count) =
      advance_txs-connect env txs s view db hashes sized small valid holds in
    let same : left ≡ after = cc (ran, advanced) in
    let info : values ≡ undo_info = cc (ran, advanced) in
    let held' : Holds env after.utxos (connect env.sha256 s.tx_count txs view) =
      subst (λ (x : BlockProcessor). Holds env x.utxos (connect env.sha256 s.tx_count txs view))
        same held in
    let stored' : HasUndo later t.height (given_up_by env.sha256 s.tx_count txs view) =
      subst (HasUndo later t.height) (sym info ∙ undo) stored in
    let (back, ran', back_held, fewer) =
      backup_txs-connect later env.sha256 txs t s.tx_count view db' hashes sized valid stored'
        (kept (connect env.sha256 s.tx_count txs view) held') flushed in
    let total : after.tx_count ≡ s.tx_count + length txs =
      ap (λ (x : BlockProcessor). x.tx_count) (sym same) ∙ count in
    (back, ran', back_held, omega (arith, fewer, counted, total))
