-- ===== src/BlockProcessor/Refine/Blocks.antt =====
-- `advance_txs` of electrumx/server/block_processor.py on a whole block.
use rxin_dexer.Prelude.{
  ℕ, ◌+◌, ◌<◌, ◌≤◌, ◌^◌, ◌≡◌, refl, sym, ap, ◌∙◌, Bool, true, false, ℤ, pos, negsuc, some, List, [],
  ◌∷◌, ◌++◌, inl, inr, arith, length, take, drop, Option-cases, length-append, length-take,
}
use rxin_dexer.Prelude.Result.{Result, ok, err}
use rxin_dexer.Util.{Bytes, to_le}
use rxin_dexer.Util.Ints.{length-to_le}
use rxin_dexer.Tx.{TxOutput}
use rxin_dexer.Script.{zero_refs}
use rxin_dexer.Script.Template.{get_stateseperator_index}
use rxin_dexer.Store.Cache.{Cache}
use rxin_dexer.Store.Keys.{distinct}
use rxin_dexer.History.{add_unflushed, extend}
use rxin_dexer.BlockProcessor.{Env, Utxos, BlockProcessor, hashx_len, output_indexable}
use rxin_dexer.BlockProcessor.Advance.{
  BlockTx, RefState, Advanced, of_tx, followed_by, behind, advance_tx, advance_loop, advance_txs,
}
use rxin_dexer.BlockProcessor.View.{View, insert, Holds, IsUtxoDb}
use rxin_dexer.BlockProcessor.Connect.{
  spent_keys, new_value, value_of_output, with_entry, created, erase_all, insert_all, connect_tx,
  connect, given_up, given_up_by, IsSized, Fits, Connects, IsValid,
}
use rxin_dexer.BlockProcessor.Connect.Maps.{erase_all-IsSized, insert-IsSized}
use rxin_dexer.BlockProcessor.Refine.{packs, spent_outpoints-spent_keys, spend_inputs-Holds}
use rxin_dexer.BlockProcessor.Refine.Outputs.{add_outputs-Holds}

-- What the loop over transactions leaves.
abbrev Advances : Env → Result Advanced → View → List Bytes → ℕ → Type 0
Advances env r view undo_info n =
    (a : Advanced) × (r ≡ ok a)
    × Holds env a.utxos view
    × (a.undo_info ≡ undo_info)
    × (length a.hash_xs_by_tx ≡ n)

advance_tx-Holds :
    (env : Env) (tx : BlockTx) (tx_num : ℕ) (u : Utxos) (r : RefState) (view : View)
    → IsUtxoDb env
    → Fits tx
    → IsSized view
    → tx_num < 256 ^ 8
    → Connects env.sha256 tx_num tx view
    → Holds env u view
    → Advances env
        (advance_tx env tx tx_num u r)
        (connect_tx env.sha256 tx_num tx view)
        (given_up (spent_keys tx.0.inputs) view)
        1
unfolding advance_tx connect_tx
advance_tx-Holds env (tx, h) tx_num u r view db (l, ins, outs, few) sized small (live, fresh)
      holds =
    let (unspent, spent, held) = spend_inputs-Holds env tx.inputs u view db ins sized live holds in
    let (all, tracked, hashXs, added, held') =
      add_outputs-Holds env h (spent_keys tx.inputs) 0 tx_num tx.outputs unspent
        (record r { refs = [] }) (erase_all (spent_keys tx.inputs) view) outs (omega arith) fresh
        held in
    (
      of_tx (given_up (spent_keys tx.inputs) view) (all, tracked, hashXs),
      rw (packs 8 tx_num small, spent, spent_outpoints-spent_keys tx.inputs ins, added) refl,
      held',
      refl,
      refl,
    )

-- Values that a transaction leaves in the map have the length of an undo entry.
abbrev pub HashesHaveLength : (Bytes → Bytes) → Type 0
HashesHaveLength sha256 = (s : Bytes) → length (sha256 s) ≡ 32

pub length-new_value :
    (sha256 : Bytes → Bytes) (tx_num : ℕ) (s : Bytes) (indexable : Result Bool)
    (zeroed : Result Bytes) (i : Result ℕ) (amount : ℤ) (v : Bytes)
    → HashesHaveLength sha256
    → new_value sha256 tx_num s indexable zeroed i amount ≡ some v
    → length v ≡ 56
unfolding new_value
length-new_value sha256 tx_num s (err x) zeroed i amount v h e = cc e
length-new_value sha256 tx_num s (ok false) zeroed i amount v h e = cc e
length-new_value sha256 tx_num s (ok true) (err x) i amount v h e = cc e
length-new_value sha256 tx_num s (ok true) (ok z) (err x) amount v h e = cc e
length-new_value sha256 tx_num s (ok true) (ok z) (ok i) (negsuc n) v h e = cc e
length-new_value sha256 tx_num s (ok true) (ok z) (ok i) (pos n) v h e =
    let it : take hashx_len (sha256 z)
          ++ (sha256 (drop i s) ++ (take 5 (to_le 8 tx_num) ++ to_le 8 n))
        ≡ v =
      cc e in
    ap length (sym it)
    ∙ omega (
      arith,
      length-append (take hashx_len (sha256 z))
          (sha256 (drop i s) ++ (take 5 (to_le 8 tx_num) ++ to_le 8 n)),
      length-append (sha256 (drop i s)) (take 5 (to_le 8 tx_num) ++ to_le 8 n),
      length-append (take 5 (to_le 8 tx_num)) (to_le 8 n),
      length-take hashx_len (sha256 z),
      length-take 5 (to_le 8 tx_num),
      length-to_le 8 tx_num,
      length-to_le 8 n,
      h z,
      h (drop i s),
    )

created-IsSized :
    (sha256 : Bytes → Bytes) (tx_num : ℕ) (h : Bytes) (idx : ℕ) (outputs : List TxOutput)
    (view : View)
    → HashesHaveLength sha256
    → IsSized view
    → IsSized (insert_all (created sha256 tx_num h idx outputs) view)
unfolding created insert_all with_entry
created-IsSized sha256 tx_num h idx [] view hashes sized = sized
created-IsSized sha256 tx_num h idx (o ∷ outputs) view hashes sized =
    elim (Option-cases (value_of_output sha256 tx_num o)) [
      | inr e ↦ rw e (created-IsSized sha256 tx_num h (idx + 1) outputs view hashes sized)
      | inl (v, e) ↦ rw e (
          created-IsSized sha256 tx_num h (idx + 1) outputs (insert (h ++ to_le 4 idx) v view)
            hashes
            (insert-IsSized (h ++ to_le 4 idx) v view
              (length-new_value sha256 tx_num o.pk_script (output_indexable o.pk_script)
                (zero_refs o.pk_script) (get_stateseperator_index o.pk_script) o.value v hashes e)
              sized))
    ]

pub connect_tx-IsSized :
    (sha256 : Bytes → Bytes) (tx_num : ℕ) (tx : BlockTx) (view : View)
    → HashesHaveLength sha256
    → IsSized view
    → IsSized (connect_tx sha256 tx_num tx view)
unfolding connect_tx
connect_tx-IsSized sha256 tx_num (tx, h) view hashes sized =
    created-IsSized sha256 tx_num h 0 tx.outputs (erase_all (spent_keys tx.inputs) view) hashes
      (erase_all-IsSized (spent_keys tx.inputs) view sized)

advance_loop-Holds :
    (env : Env) (txs : List BlockTx) (tx_num : ℕ) (u : Utxos) (r : RefState) (view : View)
    → IsUtxoDb env
    → HashesHaveLength env.sha256
    → IsSized view
    → tx_num + length txs ≤ 256 ^ 8
    → IsValid env.sha256 tx_num txs view
    → Holds env u view
    → Advances env
        (advance_loop env txs tx_num u r)
        (connect env.sha256 tx_num txs view)
        (given_up_by env.sha256 tx_num txs view)
        (length txs)
unfolding advance_loop connect given_up_by
advance_loop-Holds env [] tx_num u r view db hashes sized small valid holds = (
  record { utxos = u; tracked = r; undo_info = []; hash_xs_by_tx = []; touched = [] },
  refl,
  holds,
  refl,
  refl,
)
advance_loop-Holds env (tx ∷ txs) tx_num u r view db hashes sized small (fits, connects, valid)
      holds =
    let (first, ran, held, undo, one) =
      advance_tx-Holds env tx tx_num u r view db fits sized (omega arith) connects holds in
    let (rest, ran', held', undo', more) =
      advance_loop-Holds env txs (tx_num + 1) first.utxos first.tracked
        (connect_tx env.sha256 tx_num tx view) db hashes
        (connect_tx-IsSized env.sha256 tx_num tx view hashes sized) (omega arith) valid held in
    (
      followed_by first rest,
      rw (ran, ran') refl,
      held',
      rw (undo, undo') refl,
      omega (arith, length-append first.hash_xs_by_tx rest.hash_xs_by_tx),
    )

add_unflushed-ok :
    (hash_xs_by_tx : List (List Bytes)) (tx_num : ℕ) (unflushed : Cache Bytes)
    → tx_num + length hash_xs_by_tx ≤ 256 ^ 8
    → (after : Cache Bytes) × (add_unflushed hash_xs_by_tx tx_num unflushed ≡ ok after)
unfolding add_unflushed
add_unflushed-ok [] tx_num unflushed small = (unflushed, refl)
add_unflushed-ok (hashXs ∷ rest) tx_num unflushed small =
    let (after, e) =
      add_unflushed-ok rest (tx_num + 1)
        (extend (take 5 (to_le 8 tx_num)) (distinct hashXs) unflushed) (omega arith) in
    (after, rw (packs 8 tx_num (omega arith)) e)

-- On a block whose transactions spend outputs that are there and create outpoints that are not there
-- yet, and while transaction numbers have 64 bits, `advance_txs` raises nothing: behind it the cache,
-- the database and the pending deletes hold the map that connecting the block gives, the undo
-- information is the list of the values given up, in order, and the number of transactions has grown
-- by those of the block. What the scripts are does not matter.
pub advance_txs-connect :
    (env : Env) (txs : List BlockTx) (s : BlockProcessor) (view : View)
    → IsUtxoDb env
    → HashesHaveLength env.sha256
    → IsSized view
    → s.tx_count + length txs ≤ 256 ^ 8
    → IsValid env.sha256 s.tx_count txs view
    → Holds env s.utxos view
    → (after : BlockProcessor) × (undo_info : List Bytes) × (ref_loc_undo_info : List Bytes)
      × (advance_txs env txs s ≡ ok (after, undo_info, ref_loc_undo_info))
      × Holds env after.utxos (connect env.sha256 s.tx_count txs view)
      × (undo_info ≡ given_up_by env.sha256 s.tx_count txs view)
      × (after.tx_count ≡ s.tx_count + length txs)
unfolding advance_txs
advance_txs-connect env txs s view db hashes sized small valid holds =
    let start : RefState = record {
      caches = s.ref_caches;
      mints = [];
      ref_loc_undo = [];
      refs = [];
    } in
    let (a, ran, held, undo, n) =
      advance_loop-Holds env txs s.tx_count s.utxos start view db hashes sized small valid holds in
    let (unflushed, e) = add_unflushed-ok a.hash_xs_by_tx s.tx_count s.unflushed (omega arith) in
    let after = behind txs s a unflushed in
    (after.0, after.1, after.2, rw (ran, e) refl, held, undo, refl)
