-- ===== src/BlockProcessor/Backup.antt =====
-- `_backup_txs` and `_backup_block` of electrumx/server/block_processor.py.
use rxin_dexer.Prelude.{
  ℕ, zero, suc, ◌+◌, ◌-◌, ◌/◌, not, Option, none, some, List, [], ◌∷◌, ◌++◌, ltb, ◌==◌,
  if◌then◌else◌, list_eq, length, take, drop,
}
use rxin_dexer.Prelude.Result.{
  Result, ok, err, assertion_error, index_error, chain_error, ◌>>=◌, ◌>>◌, guard,
}
use rxin_dexer.Util.{Bytes, slice, pack_le_uint}
use rxin_dexer.Tx.{TxInput, TxOutput, is_generation}
use rxin_dexer.Script.{get_push_input_refs}
use rxin_dexer.Database.{read_undo_info, read_ref_loc_undo_info}
use rxin_dexer.Store.Cache.{Cache, get, set, remove}
use rxin_dexer.Store.Keys.{has, distinct}
use rxin_dexer.BlockProcessor.{
  Env, Utxos, RefCaches, BlockProcessor, hashx_len, except_parse, output_indexable, truthy, in_both,
  hash_x_from_script, spend_utxo, delete_potential_refs,
}
use rxin_dexer.BlockProcessor.Advance.{BlockTx, spent_outpoints}

-- 13 + HASHX_LEN + 32
abbrev pub undo_entry_len : ℕ
undo_entry_len = 56

-- What the loops change.
pub record Backed : Type 0 where
  pub utxos : Utxos
  pub ref_caches : RefCaches
  pub touched : List Bytes

-- `if value: self.db_deletes.append(key)`
unfoldable pub delete_stored : Bytes → Option Bytes → List Bytes
delete_stored key none = []
delete_stored key (some value) = key ∷ []

-- A mint or a location, whose key is given, out of its cache, and the keys to delete.
unfoldable pub delete_ref : Env → Bytes → Bytes → Cache Bytes → Result (Cache Bytes × List Bytes)
delete_ref env db_key ref cache = do
  let cached_value = truthy (get ref cache)
  let db_value = truthy (env.utxo_db db_key)
  guard (not (in_both cached_value db_value)) index_error
  ok (remove ref cache, delete_stored db_key db_value)

-- The loop over the references of an output.
unfoldable pub delete_refs :
    Env → List Bytes → List Bytes → RefCaches → Result (RefCaches × List Bytes)
delete_refs env spent [] refs = ok (refs, [])
delete_refs env spent (ref ∷ all) refs =
    let minted = (do
      (mints, deletes) ← delete_ref env (114 ∷ 109 ∷ ref) ref refs.ref_mint_cache
      (rest, more) ← delete_refs env spent all (record refs { ref_mint_cache = mints })
      ok (rest, deletes ++ more)) in
    let located = (do
      (locs, deletes) ← delete_ref env (114 ∷ 108 ∷ ref) ref refs.ref_loc_cache
      (rest, more) ← delete_refs env spent all (record refs { ref_loc_cache = locs })
      ok (rest, deletes ++ more)) in
    if has ref spent then minted else located

-- `all_refs_dedup`, empty where the script does not parse.
unfoldable pub refs_to_delete : Bytes → Result (List Bytes)
unfolding except_parse
refs_to_delete pk_script =
    except_parse (get_push_input_refs pk_script >>= λ parsed. ok (distinct parsed.all)) []

unfoldable pub hash_xs_of : Env → List Bytes → List Bytes
hash_xs_of env [] = []
hash_xs_of env (ref ∷ refs) = hash_x_from_script env ref ∷ hash_xs_of env refs

unfoldable pub spend_output : Env → Bytes → List Bytes → ℕ → TxOutput → Backed → Result Backed
spend_output env tx_hash spent idx txout st = do
  (cache_value, u) ← spend_utxo env tx_hash idx st.utxos
  idx_packed ← pack_le_uint 4 idx
  (refs, deletes) ← delete_potential_refs env (tx_hash ++ idx_packed) st.ref_caches
  all_refs ← refs_to_delete txout.pk_script
  (ref_caches, more) ← delete_refs env spent all_refs refs
  ok (record {
    utxos = record u { db_deletes = u.db_deletes ++ (deletes ++ more) };
    ref_caches = ref_caches;
    touched = st.touched ++ (take hashx_len cache_value ∷ hash_xs_of env all_refs);
  })

unfoldable pub backup_outputs :
    Env → Bytes → List Bytes → ℕ → List TxOutput → Backed → Result Backed
backup_outputs env tx_hash spent idx [] st = ok st
backup_outputs env tx_hash spent idx (txout ∷ outputs) st = do
  indexable ← output_indexable txout.pk_script
  after ← (if indexable then spend_output env tx_hash spent idx txout st else ok st)
  backup_outputs env tx_hash spent (idx + 1) outputs after

-- One input restored from the entry before `n`. Where `n` is too small, the assertion at the end of
-- the block fails, whatever slice a negative index gives; it is raised here.
unfoldable pub restore_input : Bytes → TxInput → ℕ × Backed → Result (ℕ × Backed)
restore_input undo_info txin (n, st) =
    let undo_item = slice undo_info (n - undo_entry_len) n in
    let restored = (do
      idx_packed ← pack_le_uint 4 txin.prev_idx
      let cache = set (txin.prev_hash ++ idx_packed) undo_item st.utxos.utxo_cache
      let after = record st {
        utxos = record st.utxos { utxo_cache = cache };
        touched = st.touched ++ (take hashx_len undo_item ∷ []);
      }
      ok (n - undo_entry_len, after)) in
    if is_generation txin
    then ok (n, st)
    else if ltb n undo_entry_len
    then err assertion_error
    else restored

-- The loop over `reversed(tx.inputs)`: the later inputs first.
unfoldable pub restore_inputs : Bytes → List TxInput → ℕ × Backed → Result (ℕ × Backed)
restore_inputs undo_info [] st = ok st
restore_inputs undo_info (txin ∷ inputs) st =
    restore_inputs undo_info inputs st >>= restore_input undo_info txin

unfoldable pub backup_tx : Env → Bytes → BlockTx → ℕ × Backed → Result (ℕ × Backed)
backup_tx env undo_info (tx, tx_hash) (n, st) = do
  spent ← spent_outpoints tx.inputs
  after ← backup_outputs env tx_hash spent 0 tx.outputs st
  restore_inputs undo_info tx.inputs (n, after)

-- The loop over `reversed(txs)`: the later transactions first.
unfoldable pub backup_loop : Env → Bytes → List BlockTx → ℕ × Backed → Result (ℕ × Backed)
backup_loop env undo_info [] st = ok st
backup_loop env undo_info (tx ∷ txs) st =
    backup_loop env undo_info txs st >>= backup_tx env undo_info tx

-- The rounds of `range(0, len(ref_loc_undo_info), 68)`.
unfoldable pub restore_locs : ℕ → Bytes → Cache Bytes → Cache Bytes
restore_locs zero info cache = cache
restore_locs (suc rounds) info cache =
    restore_locs rounds (drop 68 info) (set (take 36 info) (drop 36 (take 68 info)) cache)

-- `if undo_info is None or ref_loc_undo_info is None: raise ChainError`
unfoldable pub both_found : Option Bytes → Option Bytes → Result (Bytes × Bytes)
both_found (some undo_info) (some ref_loc_undo_info) = ok (undo_info, ref_loc_undo_info)
both_found _ _ = err chain_error

-- The processor with what the loops left and the locations restored.
abbrev pub backed_up : List BlockTx → Bytes → BlockProcessor → Backed → BlockProcessor
backed_up txs ref_loc_undo_info s st =
    let rounds = (length ref_loc_undo_info + 67) / 68 in
    let locs = restore_locs rounds ref_loc_undo_info st.ref_caches.ref_loc_cache in
    record s {
      utxos = st.utxos;
      ref_caches = record st.ref_caches { ref_loc_cache = locs };
      touched = st.touched;
      tx_count = s.tx_count - length txs;
    }

unfoldable pub backup_txs : Env → List BlockTx → BlockProcessor → Result BlockProcessor
backup_txs env txs s = do
  found_undo ← read_undo_info env.utxo_db s.height
  found_ref_loc ← read_ref_loc_undo_info env.utxo_db s.height
  (undo_info, ref_loc_undo_info) ← both_found found_undo found_ref_loc
  let start : Backed = record { utxos = s.utxos; ref_caches = s.ref_caches; touched = s.touched }
  (n, st) ← backup_loop env undo_info txs (length undo_info, start)
  guard (n == 0) assertion_error
  ok (backed_up txs ref_loc_undo_info s st)

-- `tx_counts.pop()`
unfoldable pub without_last : List ℕ → Result (List ℕ)
without_last [] = err index_error
without_last (n ∷ []) = ok []
without_last (n ∷ m ∷ ns) = do rest ← without_last (m ∷ ns); ok (n ∷ rest)

-- `_backup_block` behind the assertion that everything is flushed. The hash of the previous header is
-- `header[4:36]`.
unfoldable pub backup_block : Env → Bytes → List BlockTx → BlockProcessor → Result BlockProcessor
backup_block env header txs s = do
  guard (ltb 0 s.height) assertion_error
  guard (list_eq (env.header_hash header) s.tip) chain_error
  after ← backup_txs env txs (record s { tip = slice header 4 36 })
  tx_counts ← without_last after.tx_counts
  ok (record after { height = after.height - 1; tx_counts = tx_counts })
