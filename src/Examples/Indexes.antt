-- ===== src/Examples/Indexes.antt =====
-- The theorems on the indexes of electrumx/server at small inputs.
use rxin_dexer.Prelude.{
  ℕ, ◌≡◌, refl, true, none, some, List, [], ◌∷◌, All, arith, if◌then◌else◌, list_eq, Bool-cases,
  inl, inr,
}
use rxin_dexer.Prelude.Result.{Result, ok, err}
use rxin_dexer.Util.{Bytes, pack_le_uint, to_le}
use rxin_dexer.Store.{Db, Op, put, delete, write}
use rxin_dexer.UndoLog.{
  Staged, undo_key, flush_pruned, flush_ops, prune_old_undo_keys, delete_range, undo_puts,
  by_height, insert_height, record_all, record_undo, append_entry, is_seen, backup_db,
}
use rxin_dexer.Undo.{encode_undo, encode_entry, encode_value, pack_be_uint}
use rxin_dexer.UndoLog.Recorded.{is_staged}
use rxin_dexer.UndoLog.Backup.{AreShort, IsApart}
use rxin_dexer.UndoLog.Pruned.{backup_db-flush_pruned}

-- A database with one value.
abbrev old_db : Db
old_db k = if list_eq (1 ∷ []) k then some (7 ∷ []) else none

old_db-AreShort : AreShort old_db
old_db-AreShort k = elim (Bool-cases (list_eq (1 ∷ []) k)) [
  | inl e ↦ rw e (omega arith)
  | inr e ↦ rw e tt
]

abbrev prefix : Bytes
prefix = 83 ∷ 87 ∷ 85 ∷ []

-- The height 5 changes the value and adds a key, the height 4 removes another.
abbrev staged : List Staged
staged =
    record { height = 5; op = put (1 ∷ []) (8 ∷ []) }
    ∷ record { height = 4; op = delete (2 ∷ []) }
    ∷ record { height = 5; op = put (3 ∷ []) [] }
    ∷ []

abbrev key_5 : Bytes
key_5 = 83 ∷ 87 ∷ 85 ∷ 0 ∷ 0 ∷ 0 ∷ 5 ∷ []

abbrev value_or : {A : Type 0} → Result A → A → A
value_or (ok a) other = a
value_or (err e) other = other

abbrev flushed : List Op × ℕ
flushed = value_or (flush_pruned prefix true 2 4 1 old_db staged) ([], 0)

apart : All (IsApart prefix) staged
apart = (λ rest e. cc e, ((λ rest e. cc e), ((λ rest e. cc e), tt)))

backup_db-flush_pruned_example :
    (db2 : Db) × (backup_db prefix (write flushed.0 old_db) 5 ≡ ok db2)
    × ((k : Bytes)
        → db2 k ≡ (
            if is_staged 5 k staged
            then old_db k
            else if list_eq key_5 k
            then none
            else write flushed.0 old_db k))
unfolding flush_pruned flush_ops prune_old_undo_keys delete_range undo_key undo_puts by_height
    insert_height record_all record_undo append_entry is_seen encode_undo encode_entry encode_value
    pack_be_uint pack_le_uint to_le list_eq
backup_db-flush_pruned_example =
    backup_db-flush_pruned prefix true 2 4 1 old_db staged 5 key_5 flushed refl refl old_db-AreShort
      apart refl
