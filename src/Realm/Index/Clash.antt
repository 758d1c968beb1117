-- ===== src/Realm/Index/Clash.antt =====
-- The undo records of electrumx/server/realm_index.py and those of the locations of references in
-- electrumx/server/db.py stand under the same keys.
use rxin_dexer.Prelude.{
  ℕ, ◌≡◌, refl, ◌∙◌, sym, ap, true, false, some, List, ◌++◌, Bool-cases, inl, inr,
}
use rxin_dexer.Prelude.Result.{ok, ◌>>=◌, >>=-eq-ok}
use rxin_dexer.Util.{Bytes}
use rxin_dexer.Undo.{encode_undo}
use rxin_dexer.Store.{Db, Op, write}
use rxin_dexer.Store.Writes.{write-append}
use rxin_dexer.UndoLog.{
  Staged, no_undo, record_all, ops_of, undo_key, undo_puts, by_height, prune_old_undo_keys,
  flush_ops, flush_pruned,
}
use rxin_dexer.UndoLog.Recorded.{entries_at, is_staged, has_entry, has_entry-record_all}
use rxin_dexer.UndoLog.Puts.{
  has_height, record_all-DistinctHeights, entries_at_absent, undo_puts_at,
}
use rxin_dexer.UndoLog.ByHeight.{
  has_height-by_height, by_height-DistinctHeights, entries_at-by_height,
}
use rxin_dexer.Database.{ref_loc_undo_key, read_ref_loc_undo_info, flush_ref_loc_undo_infos}
use rxin_dexer.Realm.Index.{undo_prefix, RealmIndex, staged_of, flush}
use rxin_dexer.Realm.Index.Reorg.{flush-parts}

undo_key-ref_loc_undo_key : (h : ℕ) → undo_key undo_prefix h ≡ ref_loc_undo_key h
unfolding undo_key ref_loc_undo_key
undo_key-ref_loc_undo_key h = refl

-- A height with a write has a record.
is_staged-has_height :
    (db : Db) (staged : List Staged) (h : ℕ) (k : Bytes)
    → is_staged h k staged ≡ true
    → has_height h (record_all db staged no_undo).cache ≡ true
unfolding has_entry
is_staged-has_height db staged h k there =
    let cache = (record_all db staged no_undo).cache in
    elim (Bool-cases (has_height h cache)) [
      | inl e ↦ e
      | inr absent ↦
          let entry : has_entry k (entries_at h cache) ≡ true =
            has_entry-record_all db staged h k ∙ there in
          let empty : false ≡ true =
            sym (ap (has_entry k) (entries_at_absent h cache absent)) ∙ entry in
          absurd (cc empty)
    ]

-- The record of a height that a batch with a flush leaves, whatever stands before the flush.
flushed_record :
    (prefix : Bytes) (reorg_limit blocks next : ℕ) (db : Db) (staged : List Staged)
    (flushed : List Op × ℕ) (before : List Op) (h : ℕ) (k key : Bytes)
    → flush_pruned prefix true reorg_limit blocks next db staged ≡ ok flushed
    → is_staged h k staged ≡ true
    → undo_key prefix h ≡ ok key
    → (raw : Bytes) × (encode_undo (entries_at h (record_all db staged no_undo).cache) ≡ ok raw)
      × (write (before ++ flushed.0) db key ≡ some raw)
unfolding flush_pruned flush_ops
flushed_record prefix reorg_limit blocks next db staged flushed before h k key run there at =
    let cache = (record_all db staged no_undo).cache in
    let distinct = record_all-DistinctHeights db staged no_undo tt in
    let (pruned, p, e1) =
      >>=-eq-ok (prune_old_undo_keys prefix reorg_limit blocks next)
        (λ pruned. flush_ops prefix true db staged >>= λ ops. ok (pruned.0 ++ ops, pruned.1)) run in
    let (ops, q, e2) =
      >>=-eq-ok (flush_ops prefix true db staged) (λ ops. ok (pruned.0 ++ ops, pruned.1)) e1 in
    let (puts, r, e3) =
      >>=-eq-ok (undo_puts prefix (by_height true cache)) (λ puts. ok (ops_of staged ++ puts)) q in
    let made : ops_of staged ++ puts ≡ ops = cc e3 in
    let batch : pruned.0 ++ ops ≡ flushed.0 = cc e2 in
    let db1 : Db = write (ops_of staged) (write pruned.0 (write before db)) in
    let (raw, e, w) =
      undo_puts_at prefix (by_height true cache) puts db1 h key
        (by_height-DistinctHeights true cache distinct) r at
        (has_height-by_height true h cache ∙ is_staged-has_height db staged h k there) in
    let split : write (before ++ flushed.0) db ≡ write puts db1 =
      rw (← batch, ← made)
        (write-append before (pruned.0 ++ (ops_of staged ++ puts)) db
          ∙ write-append pruned.0 (ops_of staged ++ puts) (write before db)
          ∙ write-append (ops_of staged) puts (write pruned.0 (write before db))) in
    (
      raw,
      ap encode_undo (sym (entries_at-by_height true h cache distinct)) ∙ e,
      ap (λ (d : Db). d key) split ∙ w,
    )

-- The two undo records of a height overwrite each other. When the undo information of the locations of
-- references is written, as the main index does, and then in the same batch the enabled realm index is
-- flushed with a write for the height h, then what read_ref_loc_undo_info reads at h is not that
-- information, but the encoded undo entries of the realm index for h, whatever the information was.
pub read_ref_loc_undo_info-flush :
    (reorg_limit blocks : ℕ) (db : Db) (x : RealmIndex) (infos : List (List Bytes × ℕ))
    (puts : List Op) (flushed : List Op × RealmIndex) (h : ℕ) (k key : Bytes)
    → x.enabled ≡ true
    → flush_ref_loc_undo_infos infos ≡ ok puts
    → flush reorg_limit blocks db x ≡ ok flushed
    → is_staged h k (staged_of x) ≡ true
    → ref_loc_undo_key h ≡ ok key
    → (raw : Bytes) × (encode_undo (entries_at h (record_all db (staged_of x) no_undo).cache)
        ≡ ok raw)
      × (read_ref_loc_undo_info (write (puts ++ flushed.0) db) h ≡ ok (some raw))
unfolding read_ref_loc_undo_info
read_ref_loc_undo_info-flush reorg_limit blocks db x infos puts flushed h k key on written run there
      at =
    let (out, q, same) = flush-parts reorg_limit blocks db x flushed on run in
    let (raw, e, w) =
      flushed_record undo_prefix reorg_limit blocks x.pruned_to db (staged_of x) out puts h k key q
        there (undo_key-ref_loc_undo_key h ∙ at) in
    (raw, e, rw at (ap (λ (o : List Op). ok (write (puts ++ o) db key)) (sym same) ∙ ap ok w))
