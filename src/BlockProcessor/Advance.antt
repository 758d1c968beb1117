-- ===== src/BlockProcessor/Advance.antt =====
-- `advance_txs` and `_advance_block` of electrumx/server/block_processor.py, as they run without the
-- optional overlays (`glyph_index` and `analytics_index` are None).
use rxin_dexer.Prelude.{
  ℕ, ◌+◌, Bool, true, false, not, ◌&&◌, ℤ, pos, negsuc, Option, none, some, List, [], ◌∷◌, ◌++◌,
  map, leb, if◌then◌else◌, length, take,
}
use rxin_dexer.Prelude.Result.{Result, ok, err, struct_error, assertion_error, ◌>>=◌}
use rxin_dexer.Util.{Bytes, pack_le_uint}
use rxin_dexer.Tx.{Tx, TxInput, TxOutput, is_generation}
use rxin_dexer.Script.{Refs, zero_refs, get_push_input_refs}
use rxin_dexer.Database.{join}
use rxin_dexer.History.{add_unflushed}
use rxin_dexer.Store.Cache.{Cache, get, set}
use rxin_dexer.Store.Keys.{has, distinct}
use rxin_dexer.BlockProcessor.{
  Env, Utxos, RefCaches, BlockProcessor, hashx_len, except_parse, output_indexable, truthy,
  hash_x_from_script, code_script_hash_from_script, spend_utxo,
}

-- A transaction of a block with its hash.
abbrev pub BlockTx : Type 0
BlockTx = Tx × Bytes

-- What the loops track of references: the caches, the mints of the block, the previous locations to
-- restore, and the references of the transaction that are to be notified.
pub record RefState : Type 0 where
  pub caches : RefCaches
  pub mints : List Bytes
  pub ref_loc_undo : Cache Bytes
  pub refs : List Bytes

-- `prev_hash + to_le_uint32(prev_idx)` for the inputs that spend an output.
unfoldable pub spent_outpoints : List TxInput → Result (List Bytes)
spent_outpoints [] = ok []
spent_outpoints (txin ∷ inputs) =
    let rest = spent_outpoints inputs in
    if is_generation txin then rest else do
      idx_packed ← pack_le_uint 4 txin.prev_idx
      outpoints ← rest
      ok ((txin.prev_hash ++ idx_packed) ∷ outpoints)

-- The loop over the inputs: what it appends to `undo_info`, and the outputs that remain.
unfoldable pub spend_inputs : Env → List TxInput → Utxos → Result (List Bytes × Utxos)
spend_inputs env [] u = ok ([], u)
spend_inputs env (txin ∷ inputs) u =
    let skipped = spend_inputs env inputs u in
    if is_generation txin then skipped else do
      (cache_value, spent) ← spend_utxo env txin.prev_hash txin.prev_idx u
      (rest, remaining) ← spend_inputs env inputs spent
      ok (cache_value ∷ rest, remaining)

-- The type of a reference, with the assertion that precedes it.
unfoldable pub enc_ref_type : List Bytes → List Bytes → Bytes → Result ℕ
enc_ref_type normal singleton ref_id =
    if has ref_id normal then ok 0 else if has ref_id singleton then ok 1 else err assertion_error

unfoldable pub refs_value : List Bytes → List Bytes → List Bytes → Result Bytes
refs_value normal singleton [] = ok []
refs_value normal singleton (ref_id ∷ all) = do
  ref_type ← enc_ref_type normal singleton ref_id
  rest ← refs_value normal singleton all
  ok (ref_id ++ (ref_type ∷ rest))

-- `if cur_loc: set_ref_loc_undo(ref, cur_loc)`
unfoldable pub set_ref_loc_undo : Bytes → Option Bytes → Cache Bytes → Cache Bytes
set_ref_loc_undo ref none undo = undo
set_ref_loc_undo ref (some cur_loc) undo = set ref cur_loc undo

unfoldable pub is_none : Option Bytes → Bool
is_none none = true
is_none (some value) = false

unfoldable pub track_singleton : Env → Bytes → List Bytes → RefState → Bytes → RefState
track_singleton env tx_hash spent r ref =
    let cur_loc = truthy (env.utxo_db (114 ∷ 108 ∷ ref)) in
    let saved = set_ref_loc_undo ref cur_loc r.ref_loc_undo in
    if has ref spent
    then record {
      caches = record r.caches { ref_mint_cache = set ref tx_hash r.caches.ref_mint_cache };
      mints = ref ∷ r.mints;
      ref_loc_undo = r.ref_loc_undo;
      refs = r.refs ++ (ref ∷ []);
    }
    else record {
      caches = record r.caches { ref_loc_cache = set ref tx_hash r.caches.ref_loc_cache };
      mints = r.mints;
      ref_loc_undo =
          if not (has ref r.mints) && is_none (get ref r.ref_loc_undo)
          then saved
          else r.ref_loc_undo;
      refs = r.refs ++ (ref ∷ []);
    }

unfoldable pub track_normal : Bytes → List Bytes → RefState → Bytes → RefState
track_normal tx_hash spent r ref =
    if has ref spent
    then record r {
      caches = record r.caches { ref_mint_cache = set ref tx_hash r.caches.ref_mint_cache };
      refs = r.refs ++ (ref ∷ []);
    }
    else r

unfoldable pub each : (RefState → Bytes → RefState) → List Bytes → RefState → RefState
each track [] r = r
each track (ref ∷ refs) r = each track refs (track r ref)

-- `if len(refs_value): put_refs(cache_key, refs_value)`
unfoldable pub put_refs : Bytes → Bytes → RefState → RefState
put_refs cache_key [] r = r
put_refs cache_key (b ∷ bs) r = record r {
  caches = record r.caches { ref_cache = set cache_key (b ∷ bs) r.caches.ref_cache };
}

unfoldable pub put_parsed_refs :
    Env → Bytes → Bytes → List Bytes → Refs → RefState → Result RefState
put_parsed_refs env tx_hash cache_key spent parsed r = do
  let normal = distinct parsed.normal
  let singleton = distinct parsed.singleton
  value ← refs_value normal singleton (distinct parsed.all)
  let located = each (track_singleton env tx_hash spent) singleton (put_refs cache_key value r)
  ok (each (track_normal tx_hash spent) normal located)

-- The second `try` of the loop over the outputs. What may raise in it comes before its first effect.
unfoldable pub index_refs : Env → Bytes → Bytes → List Bytes → Bytes → RefState → Result RefState
index_refs env tx_hash cache_key spent pk_script r =
    except_parse
      (get_push_input_refs pk_script >>= λ parsed.
        put_parsed_refs env tx_hash cache_key spent parsed r)
      r

-- The first `try`: the two hashes of an output, or nothing where the output is skipped.
unfoldable pub hash_output : Env → Bytes → Result (Option (Bytes × Bytes))
unfolding except_parse
hash_output env pk_script =
    except_parse
      (do
        zeroed ← zero_refs pk_script
        codeScriptHash ← code_script_hash_from_script env pk_script
        ok (some (hash_x_from_script env zeroed, codeScriptHash)))
      none

-- `to_le_uint64` of a value; struct.error below 0.
unfoldable pub pack_le_uint64 : ℤ → Result Bytes
pack_le_uint64 (pos n) = pack_le_uint 8 n
pack_le_uint64 (negsuc n) = err struct_error

-- The outputs, what is tracked of references, and the hashXs appended.
abbrev pub Added : Type 0
Added = Utxos × RefState × List Bytes

unfoldable pub put_output :
    Env
    → Bytes
    → Bytes
    → List Bytes
    → ℕ
    → TxOutput
    → Option (Bytes × Bytes)
    → Utxos
    → RefState
    → Result Added
put_output env tx_hash tx_numb spent idx txout none u r = ok (u, r, [])
put_output env tx_hash tx_numb spent idx txout (some (hashX, codeScriptHash)) u r = do
  idx_packed ← pack_le_uint 4 idx
  let cache_key = tx_hash ++ idx_packed
  value ← pack_le_uint64 txout.value
  let utxo = hashX ++ (codeScriptHash ++ (tx_numb ++ value))
  tracked ← index_refs env tx_hash cache_key spent txout.pk_script r
  ok (record u { utxo_cache = set cache_key utxo u.utxo_cache }, tracked, hashX ∷ [])

unfoldable pub add_output :
    Env → Bytes → Bytes → List Bytes → ℕ → TxOutput → Utxos → RefState → Result Added
add_output env tx_hash tx_numb spent idx txout u r =
    let put = (do
      hashes ← hash_output env txout.pk_script
      put_output env tx_hash tx_numb spent idx txout hashes u r) in
    do indexable ← output_indexable txout.pk_script; if indexable then put else ok (u, r, [])

unfoldable pub add_outputs :
    Env → Bytes → Bytes → List Bytes → ℕ → List TxOutput → Utxos → RefState → Result Added
add_outputs env tx_hash tx_numb spent idx [] u r = ok (u, r, [])
add_outputs env tx_hash tx_numb spent idx (txout ∷ outputs) u r = do
  (added, tracked, hashXs) ← add_output env tx_hash tx_numb spent idx txout u r
  (all_added, all_tracked, rest) ←
      add_outputs env tx_hash tx_numb spent (idx + 1) outputs added tracked
  ok (all_added, all_tracked, hashXs ++ rest)

-- What a round of the loop over the transactions leaves and appends.
pub record Advanced : Type 0 where
  pub utxos : Utxos
  pub tracked : RefState
  pub undo_info : List Bytes
  pub hash_xs_by_tx : List (List Bytes)
  pub touched : List Bytes

abbrev pub of_tx : List Bytes → Added → Advanced
of_tx undo_info (added, tracked, hashXs) =
    let hashXs_of_tx = map (take hashx_len) undo_info ++ hashXs in
    record {
      utxos = added;
      tracked = tracked;
      undo_info = undo_info;
      hash_xs_by_tx = hashXs_of_tx ∷ [];
      touched = hashXs_of_tx ++ tracked.refs;
    }

abbrev pub followed_by : Advanced → Advanced → Advanced
followed_by first rest = record {
  utxos = rest.utxos;
  tracked = rest.tracked;
  undo_info = first.undo_info ++ rest.undo_info;
  hash_xs_by_tx = first.hash_xs_by_tx ++ rest.hash_xs_by_tx;
  touched = first.touched ++ rest.touched;
}

unfoldable pub advance_tx : Env → BlockTx → ℕ → Utxos → RefState → Result Advanced
advance_tx env (tx, tx_hash) tx_num u r = do
  tx_numb ← pack_le_uint 8 tx_num
  (undo_info, unspent) ← spend_inputs env tx.inputs u
  spent ← spent_outpoints tx.inputs
  added ←
      add_outputs env tx_hash (take 5 tx_numb) spent 0 tx.outputs unspent (record r { refs = [] })
  ok (of_tx undo_info added)

unfoldable pub advance_loop : Env → List BlockTx → ℕ → Utxos → RefState → Result Advanced
advance_loop env [] tx_num u r =
    ok (record { utxos = u; tracked = r; undo_info = []; hash_xs_by_tx = []; touched = [] })
advance_loop env (tx ∷ txs) tx_num u r = do
  first ← advance_tx env tx tx_num u r
  rest ← advance_loop env txs (tx_num + 1) first.utxos first.tracked
  ok (followed_by first rest)

-- The processor behind the block, `undo_info` and `ref_loc_undo_info`.
abbrev pub behind :
    List BlockTx
    → BlockProcessor
    → Advanced
    → Cache Bytes
    → BlockProcessor × List Bytes × List Bytes
behind txs s advanced unflushed =
    let tx_num = s.tx_count + length txs in
    (
      record s {
        utxos = advanced.utxos;
        ref_caches = advanced.tracked.caches;
        touched = s.touched ++ advanced.touched;
        tx_count = tx_num;
        tx_counts = s.tx_counts ++ (tx_num ∷ []);
        tx_hashes = s.tx_hashes ++ (join (map (λ (tx : BlockTx). tx.1) txs) ∷ []);
        unflushed = unflushed;
      },
      advanced.undo_info,
      map (λ (kept : Bytes × Bytes). kept.0 ++ kept.1) advanced.tracked.ref_loc_undo,
    )

unfoldable pub advance_txs :
    Env → List BlockTx → BlockProcessor → Result (BlockProcessor × List Bytes × List Bytes)
advance_txs env txs s = do
  let start : RefState = record { caches = s.ref_caches; mints = []; ref_loc_undo = []; refs = [] }
  advanced ← advance_loop env txs s.tx_count s.utxos start
  unflushed ← add_unflushed advanced.hash_xs_by_tx s.tx_count s.unflushed
  ok (behind txs s advanced unflushed)

-- The undo information of a block at `min_height` or above is kept for the flush.
unfoldable pub advance_block :
    Env → ℕ → Bytes → List BlockTx → BlockProcessor → Result BlockProcessor
advance_block env min_height header txs s = do
  let height = s.height + 1
  (after, undo_info, ref_loc_undo_info) ← advance_txs env txs s
  let kept = record after {
    undo_infos = after.undo_infos ++ ((undo_info, height) ∷ []);
    ref_loc_undo_infos = after.ref_loc_undo_infos ++ ((ref_loc_undo_info, height) ∷ []);
  }
  let noted = if leb min_height height then kept else after
  ok (record noted {
    height = height;
    headers = noted.headers ++ (header ∷ []);
    tip = env.header_hash header;
  })
