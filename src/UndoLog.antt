-- ===== src/UndoLog.antt =====
-- The undo records that the indexes of electrumx/server (glyph, wave, swap, realm, royalty, predict
-- and analytics) share in shape: what a flush writes at a height is recorded with the value before it,
-- under the index's own prefix, and `backup` puts it back in a reorganisation.
pub mod Recorded
pub mod Puts
pub mod ByHeight
pub mod Backup
pub mod Pruned
pub mod Restored
use rxin_dexer.Prelude.{
  ℕ, zero, suc, ◌+◌, ◌-◌, Bool, true, false, ◌||◌, ◌&&◌, Option, none, some, List, [], ◌∷◌, ◌++◌,
  map, ltb, leb, ◌==◌, if◌then◌else◌, list_eq,
}
use rxin_dexer.Prelude.Result.{Result, ok, err, ◌>>=◌}
use rxin_dexer.Util.{Bytes}
use rxin_dexer.Undo.{UndoEntry, pack_be_uint, encode_undo, decode_undo}
use rxin_dexer.Store.{Db, Op, put, delete, key_of, write}

-- `_undo_cache`, a dict of lists, and `_undo_seen`, a dict of sets.
pub record Undo : Type 0 where
  pub cache : List (ℕ × List UndoEntry)
  pub seen : List (ℕ × Bytes)

abbrev pub no_undo : Undo
no_undo = record { cache = []; seen = [] }

-- `key in self._undo_seen[height]`
unfoldable pub is_seen : ℕ → Bytes → List (ℕ × Bytes) → Bool
is_seen height key [] = false
is_seen height key ((h, k) ∷ seen) = (h == height && list_eq k key) || is_seen height key seen

-- `self._undo_cache[height].append(entry)`
unfoldable pub append_entry : ℕ → UndoEntry → List (ℕ × List UndoEntry) → List (ℕ × List UndoEntry)
append_entry height entry [] = (height, entry ∷ []) ∷ []
append_entry height entry ((h, entries) ∷ cache) =
    let rest = append_entry height entry cache in
    if h == height then (h, entries ++ (entry ∷ [])) ∷ cache else (h, entries) ∷ rest

-- `_record_undo`: the value that the database has now.
unfoldable pub record_undo : Db → ℕ → Bytes → Undo → Undo
record_undo db height key u =
    if is_seen height key u.seen
    then u
    else record { cache = append_entry height (key, db key) u.cache; seen = (height, key) ∷ u.seen }

-- A write that a flush makes for a height: the key is recorded, and the batch gets the operation.
pub record Staged : Type 0 where
  pub height : ℕ
  pub op : Op

unfoldable pub record_all : Db → List Staged → Undo → Undo
record_all db [] u = u
record_all db (s ∷ staged) u = record_all db staged (record_undo db s.height (key_of s.op) u)

abbrev pub ops_of : List Staged → List Op
ops_of [] = []
ops_of (s ∷ staged) = s.op ∷ ops_of staged

-- What a batch does for an undo entry.
abbrev pub restore_op : UndoEntry → Op
restore_op (key, none) = delete key
restore_op (key, some prev) = put key prev

abbrev pub restore_ops : List UndoEntry → List Op
restore_ops [] = []
restore_ops (entry ∷ entries) = restore_op entry ∷ restore_ops entries

-- `sorted(self._undo_cache.items())`, which most indexes write; the heights are all different.
unfoldable pub insert_height :
    ℕ × List UndoEntry → List (ℕ × List UndoEntry) → List (ℕ × List UndoEntry)
insert_height (h, entries) [] = (h, entries) ∷ []
insert_height (h, entries) ((h', entries') ∷ cache) =
    let rest = insert_height (h, entries) cache in
    if leb h h' then (h, entries) ∷ (h', entries') ∷ cache else (h', entries') ∷ rest

unfoldable pub by_height : Bool → List (ℕ × List UndoEntry) → List (ℕ × List UndoEntry)
by_height false cache = cache
by_height true [] = []
by_height true (c ∷ cache) = insert_height c (by_height true cache)

module _ (prefix : Bytes) where
  -- `_undo_key`
  unfoldable pub undo_key : ℕ → Result Bytes
  undo_key height = do b ← pack_be_uint 4 height; ok (prefix ++ b)

  -- The loop that persists the undo information.
  unfoldable pub undo_puts : List (ℕ × List UndoEntry) → Result (List Op)
  undo_puts [] = ok []
  undo_puts ((height, entries) ∷ cache) = do
    key ← undo_key height
    value ← encode_undo entries
    rest ← undo_puts cache
    ok (put key value ∷ rest)

  -- `for height in range(start, start + n)`
  unfoldable pub delete_range : ℕ → ℕ → Result (List Op)
  delete_range start zero = ok []
  delete_range start (suc n) = do
    key ← undo_key start
    rest ← delete_range (start + 1) n
    ok (delete key ∷ rest)

  -- `_prune_old_undo_keys`, with `_last_undo_pruned` for the one after it, so that it is not below 0,
  -- and `blocks` for `db_height + 1`.
  unfoldable pub prune_old_undo_keys : ℕ → ℕ → ℕ → Result (List Op × ℕ)
  prune_old_undo_keys reorg_limit blocks next =
      if reorg_limit == 0 || leb (blocks - reorg_limit) next then ok ([], next) else (do
        ops ← delete_range next (blocks - reorg_limit - next)
        ok (ops, blocks - reorg_limit))

  -- `if not raw: return`, and else the entries and the deletion of the undo record.
  unfoldable pub backup_of : Bytes → Option Bytes → Result (List Op)
  backup_of key none = ok []
  backup_of key (some []) = ok []
  backup_of key (some (b ∷ raw)) = do
    entries ← decode_undo (b ∷ raw)
    ok (restore_ops entries ++ (delete key ∷ []))

  -- `backup`
  unfoldable pub backup : Db → ℕ → Result (List Op)
  backup db height = do key ← undo_key height; backup_of key (db key)

  -- A whole `backup`, its batch written.
  unfoldable pub backup_db : Db → ℕ → Result Db
  backup_db db height = do ops ← backup db height; ok (write ops db)

-- `sorted` says whether the index writes its undo records by height.
module _ (prefix : Bytes) (sorted : Bool) where
  -- The batch of a flush: its own writes, and at the end the undo information.
  unfoldable pub flush_ops : Db → List Staged → Result (List Op)
  flush_ops db staged = do
    puts ← undo_puts prefix (by_height sorted (record_all db staged no_undo).cache)
    ok (ops_of staged ++ puts)

  -- A whole flush, its batch written.
  unfoldable pub flush : Db → List Staged → Result Db
  flush db staged = do ops ← flush_ops db staged; ok (write ops db)

  -- A flush with what it prunes: the batch, and the height to prune from next.
  unfoldable pub flush_pruned : ℕ → ℕ → ℕ → Db → List Staged → Result (List Op × ℕ)
  flush_pruned reorg_limit blocks next db staged = do
    pruned ← prune_old_undo_keys prefix reorg_limit blocks next
    ops ← flush_ops db staged
    ok (pruned.0 ++ ops, pruned.1)
