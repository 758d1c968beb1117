-- ===== src/Examples/Realms.antt =====
-- The theorems on electrumx/server/realm_index.py at small inputs.
use rxin_dexer.Prelude.{
  ℕ, ◌≡◌, refl, pos, negsuc, true, none, some, List, [], ◌∷◌, ◌++◌, replicate, list_eq,
}
use rxin_dexer.Prelude.Result.{Result, ok, err}
use rxin_dexer.Util.{Bytes, pack_le_uint, to_le}
use rxin_dexer.Undo.{encode_undo, encode_entry, encode_value, pack_be_uint}
use rxin_dexer.Store.{Db, Op, write}
use rxin_dexer.UndoLog.{
  undo_key, flush_pruned, flush_ops, prune_old_undo_keys, delete_range, undo_puts, by_height,
  insert_height, record_all, record_undo, append_entry, is_seen, no_undo,
}
use rxin_dexer.UndoLog.Recorded.{is_staged, entries_at}
use rxin_dexer.Database.{ref_loc_undo_key, read_ref_loc_undo_info, flush_ref_loc_undo_infos, join}
use rxin_dexer.Realm.{Meta, int, text, list, dict, no_items, item, Entries, no_entries, entry}
use rxin_dexer.Realm.Index.{
  RealmIndex, RealmRecord, staged_of, cache_writes, flush, backup_index, process_tx,
}
use rxin_dexer.Realm.Index.First.{KeepsKnown, process_tx-KeepsKnown}
use rxin_dexer.Store.Cache.{get}
use rxin_dexer.UndoLog.Restored.{Restored}
use rxin_dexer.Realm.Index.Restored.{IsRealmKey, backup_index-realms}
use rxin_dexer.Realm.Index.Clash.{read_ref_loc_undo_info-flush}

-- A payload for the realm "ab".
abbrev realm_part : Entries
realm_part = entry (105 ∷ 100 ∷ []) (text (97 ∷ 98 ∷ [])) (
    entry (107 ∷ 105 ∷ 110 ∷ 100 ∷ []) (text (97 ∷ 114 ∷ 101 ∷ 110 ∷ 97 ∷ [])) (
      entry (115 ∷ 101 ∷ 101 ∷ 100 ∷ []) (int (pos 7)) (
        entry (115 ∷ 112 ∷ 97 ∷ 119 ∷ 110 ∷ [])
          (list (item (int (pos 1)) (item (int (pos 2)) (item (int (negsuc 2)) no_items))))
          (entry (111 ∷ 119 ∷ 110 ∷ 101 ∷ 114 ∷ []) (text (109 ∷ 101 ∷ [])) (no_entries)))))

abbrev data_part : Entries
data_part = entry (114 ∷ 101 ∷ 97 ∷ 108 ∷ 109 ∷ []) (dict realm_part) (no_entries)

abbrev app_part : Entries
app_part =
    entry (115 ∷ 99 ∷ 104 ∷ 101 ∷ 109 ∷ 97 ∷ [])
      (text (114 ∷ 101 ∷ 97 ∷ 108 ∷ 109 ∷ 95 ∷ 118 ∷ 49 ∷ []))
      (entry (100 ∷ 97 ∷ 116 ∷ 97 ∷ []) (dict data_part) (no_entries))

abbrev payload : Meta
payload = dict (entry (97 ∷ 112 ∷ 112 ∷ []) (dict app_part) no_entries)

-- Stand-ins for SHA-256, the case and the encodings of texts, and the CBOR encoder.
abbrev same_bytes : Bytes → Bytes
same_bytes b = b

abbrev dumps : RealmRecord → Bytes
dumps r = 161 ∷ r.fields.id

abbrev empty_db : Db
empty_db k = none

-- An index that knows "ab" already.
abbrev index : RealmIndex
index = record {
  enabled = true;
  realm_cache = (97 ∷ 98 ∷ [], (5, 9 ∷ [])) ∷ [];
  singleton_cache = [];
  pruned_to = 0;
}

process_tx-KeepsKnown_example :
    KeepsKnown same_bytes same_bytes same_bytes true dumps empty_db index (
      process_tx same_bytes same_bytes same_bytes true dumps empty_db
        (some payload)
        ((0, (replicate 36 1, 1) ∷ []) ∷ [])
        6
        index)
process_tx-KeepsKnown_example =
    process_tx-KeepsKnown same_bytes same_bytes same_bytes true dumps empty_db (some payload)
      ((0, (replicate 36 1, 1) ∷ []) ∷ []) 6 index

abbrev value_or : {A : Type 0} → Result A → A → A
value_or (ok a) next = a
value_or (err e) next = next

abbrev flushed : List Op × RealmIndex
flushed = value_or (flush 2 5 empty_db index) ([], index)

abbrev key_5 : Bytes
key_5 = 82 ∷ 85 ∷ 0 ∷ 0 ∷ 0 ∷ 5 ∷ []

backup_index-realms_example :
    (ops : List Op) × (backup_index (write flushed.0 empty_db) 5 index ≡ ok ops)
    × Restored
        (IsRealmKey index 5)
        key_5
        empty_db
        (write flushed.0 empty_db)
        (write ops (write flushed.0 empty_db))
unfolding flush_pruned flush_ops prune_old_undo_keys delete_range undo_key undo_puts by_height
    insert_height record_all record_undo append_entry is_seen encode_undo encode_entry encode_value
    pack_be_uint pack_le_uint to_le list_eq flush cache_writes get
backup_index-realms_example =
    backup_index-realms 2 5 empty_db index flushed 5 key_5 refl (refl, tt) tt refl refl (λ k. tt)
      refl

-- The location of one reference at height 5.
abbrev infos : List (List Bytes × ℕ)
infos = (replicate 68 4 ∷ [], 5) ∷ []

abbrev info_puts : List Op
info_puts = value_or (flush_ref_loc_undo_infos infos) []

read_ref_loc_undo_info-flush_example :
    (raw : Bytes) × (encode_undo
        (entries_at 5 (record_all empty_db (staged_of index) no_undo).cache)
      ≡ ok raw)
    × (read_ref_loc_undo_info (write (info_puts ++ flushed.0) empty_db) 5 ≡ ok (some raw))
unfolding flush_pruned flush_ops prune_old_undo_keys delete_range undo_key undo_puts by_height
    insert_height record_all record_undo append_entry is_seen encode_undo encode_entry encode_value
    pack_be_uint pack_le_uint to_le list_eq flush cache_writes flush_ref_loc_undo_infos
    ref_loc_undo_key join is_staged
read_ref_loc_undo_info-flush_example =
    read_ref_loc_undo_info-flush 2 5 empty_db index infos info_puts flushed 5
      (82 ∷ 77 ∷ 97 ∷ 98 ∷ []) key_5 refl refl refl refl refl
