-- ===== src/BlockProcessor.antt =====
-- electrumx/server/block_processor.py: the caches of unflushed outputs and references, which outputs
-- are indexed, and spending an output from the cache or the database.
pub mod Advance
pub mod Backup
pub mod Connect
pub mod ReorgRange
pub mod Refine
pub mod Reorg
pub mod Indexable
pub mod View
use rxin_dexer.Prelude.{
  ℕ, ◌-◌, ◌≡◌, ◌≢◌, Bool, true, false, not, Option, none, some, List, [], ◌∷◌, ◌++◌, ltb,
  if◌then◌else◌, list_eq, length, take, drop, All,
}
use rxin_dexer.Prelude.Result.{
  Error, Result, ok, err, index_error, value_error, assertion_error, script_error, chain_error,
  ◌>>=◌, ◌>>◌, guard,
}
use rxin_dexer.Util.{Bytes, of_le, pack_le_uint}
use rxin_dexer.Script.{is_unspendable_legacy, zero_refs}
use rxin_dexer.Script.Template.{get_stateseperator_index}
use rxin_dexer.Store.{Db}
use rxin_dexer.Store.Cache.{Cache, get, remove}

abbrev pub hashx_len : ℕ
hashx_len = 11

-- What the code below calls: the database, as `get` and `iterator(prefix=...)`, `fs_tx_hash` of
-- the files of transaction hashes (without the height), SHA-256, and the hash of a header.
pub record Env : Type 0 where
  pub utxo_db : Db
  pub iterator : Bytes → List (Bytes × Bytes)
  pub fs_tx_hash : ℕ → Option Bytes
  pub sha256 : Bytes → Bytes
  pub header_hash : Bytes → Bytes

-- The unflushed outputs, and the keys that the next flush deletes.
pub record Utxos : Type 0 where
  pub utxo_cache : Cache Bytes
  pub db_deletes : List Bytes

pub record RefCaches : Type 0 where
  pub ref_cache : Cache Bytes
  pub ref_mint_cache : Cache Bytes
  pub ref_loc_cache : Cache Bytes
  pub data_cache : Cache Bytes

pub record BlockProcessor : Type 0 where
  pub utxos : Utxos
  pub ref_caches : RefCaches
  pub touched : List Bytes
  pub height : ℕ
  pub tip : Bytes
  pub headers : List Bytes
  pub tx_count : ℕ
  pub tx_counts : List ℕ
  pub tx_hashes : List Bytes
  pub unflushed : Cache Bytes
  pub undo_infos : List (List Bytes × ℕ)
  pub ref_loc_undo_infos : List (List Bytes × ℕ)

-- `_SCRIPT_PARSE_ERRORS`
unfoldable pub is_parse_error : Error → Bool
is_parse_error script_error = true
is_parse_error assertion_error = true
is_parse_error value_error = true
is_parse_error index_error = true
is_parse_error _ = false

-- `try: ... except _SCRIPT_PARSE_ERRORS:`, with what the handler leaves.
unfoldable pub except_parse : {A : Type 0} → Result A → A → Result A
except_parse (ok value) handled = ok value
except_parse (err exception) handled =
    if is_parse_error exception then ok handled else err exception

unfoldable pub output_indexable : Bytes → Result Bool
unfolding except_parse
output_indexable pk_script =
    let parsed = except_parse (zero_refs pk_script >>= λ zeroed. ok true) false in
    if is_unspendable_legacy pk_script then ok false else parsed

abbrev pub hash_x_from_script : Env → Bytes → Bytes
hash_x_from_script env script = take hashx_len (env.sha256 script)

unfoldable pub code_script_hash_from_script : Env → Bytes → Result Bytes
code_script_hash_from_script env script = do
  stateseperator_index ← get_stateseperator_index script
  ok (env.sha256 (drop stateseperator_index script))

-- `if value:` for what `get` and `pop` return.
unfoldable pub truthy : Option Bytes → Option Bytes
truthy (some (b ∷ bs)) = some (b ∷ bs)
truthy _ = none

-- `b[-n:]`
abbrev pub last : ℕ → Bytes → Bytes
last n b = drop (length b - n) b

-- The number of the transaction that a key of the table "h" ends in.
unfoldable pub tx_num_of : Bytes → ℕ
tx_num_of hdb_key = of_le (last 5 hdb_key ++ (0 ∷ 0 ∷ 0 ∷ []))

-- The key of the table "u" that goes with an entry of the table "h".
unfoldable pub udb_key_of : Bytes × Bytes → Bytes
udb_key_of (hdb_key, hashX_with_codescripthash) =
    117 ∷ (take hashx_len hashX_with_codescripthash ++ last 9 hdb_key)

-- With several candidates, `fs_hash != tx_hash`, and the assertion in its branch.
unfoldable pub is_other : Bytes → Option Bytes → Result Bool
is_other tx_hash none = err assertion_error
is_other tx_hash (some fs_hash) = ok (not (list_eq fs_hash tx_hash))

unfoldable pub passed_over : Env → Bytes → Bool → Bytes → Result Bool
passed_over env tx_hash false hdb_key = ok false
passed_over env tx_hash true hdb_key = is_other tx_hash (env.fs_tx_hash (tx_num_of hdb_key))

-- `if utxo_value_packed:` and else the next candidate.
unfoldable pub remove_entries :
    Bytes × Bytes → Option Bytes → Utxos → Result (Bytes × Utxos) → Result (Bytes × Utxos)
remove_entries entry none u next = next
remove_entries (hdb_key, value) (some utxo_value_packed) u next = ok (
  take hashx_len value ++ (drop hashx_len value ++ (last 5 hdb_key ++ utxo_value_packed)),
  record u { db_deletes = u.db_deletes ++ (hdb_key ∷ udb_key_of (hdb_key, value) ∷ []) },
)

unfoldable pub spend_candidate :
    Env → Bytes → Bool → List (Bytes × Bytes) → Utxos → Result (Bytes × Utxos)
spend_candidate env tx_hash many [] u = err chain_error
spend_candidate env tx_hash many (entry ∷ candidates) u =
    let next = spend_candidate env tx_hash many candidates u in
    do
      over ← passed_over env tx_hash many entry.0
      if over then next else remove_entries entry (truthy (env.utxo_db (udb_key_of entry))) u next

-- "h" and the compressed hash, with the packed index.
unfoldable pub hdb_prefix : Bytes → Bytes → Bytes
hdb_prefix tx_hash idx_packed = 104 ∷ (take 4 tx_hash ++ idx_packed)

unfoldable pub spend_cached : Option Bytes → Utxos → Result (Bytes × Utxos) → Result (Bytes × Utxos)
spend_cached (some cache_value) u from_db = ok (cache_value, u)
spend_cached none u from_db = from_db

unfoldable pub spend_utxo : Env → Bytes → ℕ → Utxos → Result (Bytes × Utxos)
spend_utxo env tx_hash tx_idx u = do
  idx_packed ← pack_le_uint 4 tx_idx
  let key = tx_hash ++ idx_packed
  let popped = record u { utxo_cache = remove key u.utxo_cache }
  let candidates = env.iterator (hdb_prefix tx_hash idx_packed)
  spend_cached (truthy (get key u.utxo_cache)) popped
      (spend_candidate env tx_hash (ltb 1 (length candidates)) candidates popped)

-- `if cached_value and value:`
unfoldable pub in_both : Option Bytes → Option Bytes → Bool
in_both (some cached) (some stored) = true
in_both _ _ = false

-- The caches without the references of an output, and the keys to delete.
unfoldable pub delete_potential_refs : Env → Bytes → RefCaches → Result (RefCaches × List Bytes)
delete_potential_refs env outpoint refs = do
  let ri_db_key = 114 ∷ 105 ∷ outpoint
  let rb_db_key = 114 ∷ 98 ∷ outpoint
  let cached_value = truthy (get outpoint refs.ref_cache)
  guard (not (in_both cached_value (truthy (env.utxo_db ri_db_key)))) index_error
  let popped = record refs {
    ref_cache = remove outpoint refs.ref_cache;
    data_cache = remove rb_db_key refs.data_cache;
  }
  ok (popped, ri_db_key ∷ rb_db_key ∷ [])
