-- ===== src/BlockProcessor/View.antt =====
-- The outputs that the processor of electrumx/server/block_processor.py holds, as a map from
-- outpoints: those in the cache, and those in the database that no pending delete names.
pub mod Laws
pub mod Spend
use rxin_dexer.Prelude.{
  ℕ, ◌+◌, ◌<◌, ◌^◌, ◌≡◌, refl, sym, ap, ◌∙◌, Bool, true, false, not, Option, none, some, List, [],
  ◌∷◌, ◌++◌, ◌⊎◌, inl, inr, arith, ltb, lt→ltb, if◌then◌else◌, list_eq, list_eq→eq, list_eq_refl,
  length, take, drop, All, Bool-cases, take-append, drop-append, some_injective, Option-cases,
}
use rxin_dexer.Prelude.Result.{Result, ok, err}
use rxin_dexer.Util.{Bytes, to_le, pack_le_uint}
use rxin_dexer.Store.Cache.{Cache, get, set, remove, get-set, get-remove}
use rxin_dexer.Store.Keys.{has, Misses, has-append_other}
use rxin_dexer.BlockProcessor.{
  Env, Utxos, truthy, last, hashx_len, tx_num_of, udb_key_of, is_other, passed_over, remove_entries,
  spend_candidate, hdb_prefix, spend_cached, spend_utxo,
}

-- A map from outpoints to the values of unspent outputs.
abbrev pub View : Type 0
View = Bytes → Option Bytes

unfoldable pub insert : Bytes → Bytes → View → View
insert k v view other = if list_eq other k then some v else view other

unfoldable pub erase : Bytes → View → View
erase k view other = if list_eq other k then none else view other

abbrev pub Entry : Type 0
Entry = Bytes × Bytes

-- The value that spending an entry returns.
abbrev pub entry_value : Entry → Bytes → Bytes
entry_value (hdb_key, value) packed =
    take hashx_len value ++ (drop hashx_len value ++ (last 5 hdb_key ++ packed))

unfoldable pub is_hash : Bytes → Option Bytes → Bool
is_hash tx_hash none = false
is_hash tx_hash (some found) = list_eq found tx_hash

unfoldable pub or_next : Entry → Option Bytes → Option (Entry × Bytes) → Option (Entry × Bytes)
or_next entry none next = next
or_next entry (some packed) next = some (entry, entry_value entry packed)

-- The first entry whose transaction has the hash and whose value is stored.
unfoldable pub stored : Env → Bytes → List Entry → Option (Entry × Bytes)
stored env tx_hash [] = none
stored env tx_hash (entry ∷ entries) =
    let next = stored env tx_hash entries in
    if is_hash tx_hash (env.fs_tx_hash (tx_num_of entry.0))
    then or_next entry (truthy (env.utxo_db (udb_key_of entry))) next
    else next

unfoldable pub not_deleted : List Bytes → Option (Entry × Bytes) → Option Bytes
not_deleted deletes none = none
not_deleted deletes (some (entry, value)) = if has entry.0 deletes then none else some value

abbrev pub entries_at : Env → Bytes → List Entry
entries_at env k = env.iterator (hdb_prefix (take 32 k) (drop 32 k))

unfoldable pub on_disk : Env → List Bytes → View
on_disk env deletes k = not_deleted deletes (stored env (take 32 k) (entries_at env k))

-- At every outpoint the cache and the database together hold what the map says, never both a value.
abbrev pub Holds : Env → Utxos → View → Type 0
Holds env u view =
    (k : Bytes)
    → length k ≡ 36
    → ((get k u.utxo_cache ≡ view k) × (on_disk env u.db_deletes k ≡ none))
      ⊎ ((get k u.utxo_cache ≡ none) × (on_disk env u.db_deletes k ≡ view k))

-- What the code relies on in the database: `iterator` gives the keys under the prefix, and every
-- transaction number in a key is that of a known transaction.
abbrev pub IsUtxoDb : Env → Type 0
IsUtxoDb env =
    (p : Bytes)
    → All
        (λ (entry : Entry).
          (take (length p) entry.0 ≡ p)
          × (h : Bytes) × (env.fs_tx_hash (tx_num_of entry.0) ≡ some h))
        (env.iterator p)
