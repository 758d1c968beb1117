-- ===== src/UndoLog/Backup.antt =====
-- `backup` at a height undoes exactly what a flush wrote for that height.
use rxin_dexer.Prelude.{
  ℕ, ◌≡◌, ◌≢◌, refl, ◌∙◌, sym, ap, Bool, true, false, none, some, List, [], ◌∷◌, ◌++◌,
  if◌then◌else◌, list_eq, list_eq→eq, All, Bool-cases, inl, inr, arith,
}
use rxin_dexer.Prelude.Result.{ok, >>=-eq-ok}
use rxin_dexer.Util.{Bytes}
use rxin_dexer.Undo.{UndoEntry, encode_undo, decode_undo, decode_loop}
use rxin_dexer.Undo.RoundTrip.{HasLength, decode_undo-encode_undo}
use rxin_dexer.Store.{Db, Op, delete, key_of, write, has_key}
use rxin_dexer.Store.Writes.{write_other, write-append, write-Restores}
use rxin_dexer.UndoLog.{
  no_undo, Staged, record_all, ops_of, restore_ops, undo_key, undo_puts, by_height, flush_ops,
  backup_of, backup, flush, backup_db,
}
use rxin_dexer.UndoLog.Recorded.{
  entries_at, is_staged, has_entry, has_entry-record_all, IsPrevious, entries_at-ArePrevious,
  restore_ops-Restores, has_key-restore_ops, record_all-AreFilled,
}
use rxin_dexer.UndoLog.ByHeight.{
  by_height-DistinctHeights, by_height-AreFilled, entries_at-by_height,
}
use rxin_dexer.UndoLog.Puts.{
  has_height, DistinctHeights, record_all-DistinctHeights, entries_at_absent, entries_at-ne-nil,
  undo_key-prefix, undo_puts_absent, undo_puts_at,
}

-- No value in the database has the length that marks a missing one in an undo record.
abbrev pub AreShort : Db → Type 0
AreShort db = (k : Bytes) → HasLength (k, db k)

-- The key of a write does not begin with the prefix of the undo records.
abbrev pub IsApart : Bytes → Staged → Type 0
IsApart prefix s = (rest : Bytes) → prefix ++ rest ≢ key_of s.op

previous-HasLength :
    (db : Db) (es : List UndoEntry) → AreShort db → All (IsPrevious db) es → All HasLength es
previous-HasLength db [] short tt = tt
previous-HasLength db ((k, none) ∷ es) short (p, ps) = (tt, previous-HasLength db es short ps)
previous-HasLength db ((k, some v) ∷ es) short (p, ps) =
    let here : HasLength (k, db k) = short k in
    (rw (← p) at here, previous-HasLength db es short ps)

decode_nothing : decode_undo [] ≡ ok []
unfolding decode_undo decode_loop
decode_nothing = refl

is_staged-has_key :
    (h : ℕ) (k : Bytes) (staged : List Staged)
    → has_key k (ops_of staged) ≡ false
    → is_staged h k staged ≡ false
unfolding has_key is_staged
is_staged-has_key h k [] e = refl
is_staged-has_key h k (s ∷ staged) e =
    let rest : is_staged h k staged ≡ false = is_staged-has_key h k staged (ground arith) in
    let here : list_eq (key_of s.op) k ≡ false = ground arith in rw (here, rest) (ground arith)

module _ (prefix : Bytes) where
  not_written :
      (staged : List Staged) (k : Bytes) (b : Bytes)
      → All (IsApart prefix) staged
      → prefix ++ b ≡ k
      → has_key k (ops_of staged) ≡ false
  unfolding has_key
  not_written [] k b tt e = refl
  not_written (s ∷ staged) k b (apart, aparts) e =
      let here : list_eq (key_of s.op) k ≡ false = elim (Bool-cases (list_eq (key_of s.op) k)) [
        | inr differ ↦ differ
        | inl same ↦ absurd (apart b (e ∙ sym (list_eq→eq (key_of s.op) k same)))
      ] in
      rw (here, not_written staged k b aparts e) refl

  -- What `backup` does with the record of some entries.
  backup_of_record :
      (es : List UndoEntry) (raw key : Bytes)
      → es ≢ []
      → All HasLength es
      → encode_undo es ≡ ok raw
      → backup_of prefix key (some raw) ≡ ok (restore_ops es ++ (delete key ∷ []))
  unfolding backup_of
  backup_of_record es [] key filled room e =
      absurd (filled (cc (decode_undo-encode_undo es [] room e, decode_nothing)))
  backup_of_record es (b ∷ raw) key filled room e =
      rw (decode_undo-encode_undo es (b ∷ raw) room e) refl

  -- What that batch leaves at a key.
  write_record :
      (old : Db) (es : List UndoEntry) (db : Db) (key k : Bytes)
      → All (IsPrevious old) es
      → has_entry key es ≡ false
      → write (restore_ops es ++ (delete key ∷ [])) db k
        ≡ (if has_entry k es then old k else if list_eq key k then none else db k)
  unfolding write
  write_record old es db key k previous apart =
      ap (λ (d : Db). d k) (write-append (restore_ops es) (delete key ∷ []) db)
      ∙ rw
          (
            write-Restores old (restore_ops es) k db (restore_ops-Restores old es previous),
            has_key-restore_ops k es,
          )
          (elim (Bool-cases (list_eq key k)) [
            | inr differ ↦ rw differ refl
            | inl same ↦
                let none_there : has_entry k es ≡ false = (rw (list_eq→eq key k same) at apart) in
                rw (same, none_there) refl
          ])

  module _ (sorted : Bool) (db : Db) (staged : List Staged) (h : ℕ) (key : Bytes)
      (at : undo_key prefix h ≡ ok key) (fresh : db key ≡ none) (short : AreShort db)
      (apart : All (IsApart prefix) staged) where
    abbrev cache : List (ℕ × List UndoEntry)
    cache = by_height sorted (record_all db staged no_undo).cache

    distinct : DistinctHeights (record_all db staged no_undo).cache
    distinct = record_all-DistinctHeights db staged no_undo tt

    abbrev recorded : List UndoEntry
    recorded = entries_at h cache

    same_entries : recorded ≡ entries_at h (record_all db staged no_undo).cache
    same_entries = entries_at-by_height sorted h (record_all db staged no_undo).cache distinct

    recorded-ArePrevious : All (IsPrevious db) recorded
    recorded-ArePrevious = rw same_entries (entries_at-ArePrevious db staged h)

    has_entry-recorded : (k : Bytes) → has_entry k recorded ≡ is_staged h k staged
    has_entry-recorded k = rw same_entries (has_entry-record_all db staged h k)

    -- The record that the flush leaves at the height's key, if it wrote anything for the height.
    flushed_record :
        (puts : List Op)
        → undo_puts prefix cache ≡ ok puts
        → has_height h cache ≡ true
        → backup_of prefix key (write (ops_of staged ++ puts) db key)
          ≡ ok (restore_ops recorded ++ (delete key ∷ []))
    flushed_record puts p there =
        let (raw, e, w) =
          undo_puts_at prefix cache puts (write (ops_of staged) db) h key
            (by_height-DistinctHeights sorted (record_all db staged no_undo).cache distinct) p at
            there in
        let filled =
          entries_at-ne-nil h cache
            (by_height-AreFilled sorted (record_all db staged no_undo).cache
              (record_all-AreFilled db staged no_undo tt))
            there in
        let room = previous-HasLength db recorded short recorded-ArePrevious in
        rw (write-append (ops_of staged) puts db, w)
          (backup_of_record recorded raw key filled room e)

    -- And if it did not, there is none.
    no_record :
        (puts : List Op)
        → undo_puts prefix cache ≡ ok puts
        → has_height h cache ≡ false
        → write (ops_of staged ++ puts) db key ≡ none
    no_record puts p absent =
        let (b, starts) = undo_key-prefix prefix h key at in
        let own : has_key key (ops_of staged) ≡ false = not_written staged key b apart starts in
        let other : has_key key puts ≡ false =
          undo_puts_absent prefix cache puts h key p at absent in
        rw (write-append (ops_of staged) puts db) (
          write_other puts key (write (ops_of staged) db) other
          ∙ write_other (ops_of staged) key db own
          ∙ fresh)

    not_recorded : has_entry key recorded ≡ false
    not_recorded =
        let (b, starts) = undo_key-prefix prefix h key at in
        has_entry-recorded key
        ∙ is_staged-has_key h key staged (not_written staged key b apart starts)

    -- The batch of the record, and nothing where there is no record, leave what is wanted.
    record_result :
        (db1 : Db) (k : Bytes)
        → write (restore_ops recorded ++ (delete key ∷ [])) db1 k
          ≡ (if is_staged h k staged then db k else if list_eq key k then none else db1 k)
    record_result db1 k =
        write_record db recorded db1 key k recorded-ArePrevious not_recorded
        ∙ rw (has_entry-recorded k) refl

    absent_result :
        (db1 : Db) (k : Bytes)
        → has_height h cache ≡ false
        → db1 key ≡ none
        → db1 k ≡ (if is_staged h k staged then db k else if list_eq key k then none else db1 k)
    unfolding has_entry
    absent_result db1 k absent gone =
        let empty : has_entry k recorded ≡ false = rw (entries_at_absent h cache absent) refl in
        let unstaged : is_staged h k staged ≡ false = sym (has_entry-recorded k) ∙ empty in
        rw unstaged (elim (Bool-cases (list_eq key k)) [
          | inr differ ↦ rw differ refl
          | inl same ↦ rw same (ap db1 (sym (list_eq→eq key k same)) ∙ gone)
        ])

  flush-puts :
      (sorted : Bool) (db : Db) (staged : List Staged) (db1 : Db)
      → flush prefix sorted db staged ≡ ok db1
      → (puts : List Op) × (undo_puts prefix (by_height sorted (record_all db staged no_undo).cache)
          ≡ ok puts)
        × (write (ops_of staged ++ puts) db ≡ db1)
  unfolding flush flush_ops
  flush-puts sorted db staged db1 run =
      let (ops, run1, made1) =
        >>=-eq-ok (flush_ops prefix sorted db staged) (λ ops. ok (write ops db)) run in
      let (puts, p, made) =
        >>=-eq-ok (undo_puts prefix (by_height sorted (record_all db staged no_undo).cache))
          (λ puts. ok (ops_of staged ++ puts)) run1 in
      let written : write ops db ≡ db1 = cc made1 in
      let same : ops_of staged ++ puts ≡ ops = cc made in
      (puts, p, ap (λ (o : List Op). write o db) same ∙ written)

  -- Where a reorganisation takes back one height. After a flush of writes for any heights, none of
  -- them at a key that begins with the prefix of the undo records, and where the database had no
  -- undo record of the height, `backup` at the height succeeds and leaves every key that was written
  -- for that height with the value it had before the flush, removes the undo record, and leaves all
  -- other keys as the flush left them. (No value before the flush has 2 ^ 32 - 1 bytes.)
  pub backup_db-flush :
      (sorted : Bool) (db : Db) (staged : List Staged) (h : ℕ) (key : Bytes) (db1 : Db)
      → undo_key prefix h ≡ ok key
      → db key ≡ none
      → AreShort db
      → All (IsApart prefix) staged
      → flush prefix sorted db staged ≡ ok db1
      → (db2 : Db) × (backup_db prefix db1 h ≡ ok db2)
        × ((k : Bytes)
            → db2 k
              ≡ (if is_staged h k staged then db k else if list_eq key k then none else db1 k))
  unfolding backup_db backup
  backup_db-flush sorted db staged h key db1 at fresh short apart run =
      let (puts, p, made) = flush-puts sorted db staged db1 run in
      elim (Bool-cases (has_height h (by_height sorted (record_all db staged no_undo).cache))) [
        | inl there ↦ (
          write
              (restore_ops (entries_at h (by_height sorted (record_all db staged no_undo).cache))
                ++ (delete key ∷ []))
              db1,
          rw
              (
                at,
                (rw made at
                    (flushed_record sorted db staged h key at fresh short apart puts p there)),
              )
              refl,
          record_result sorted db staged h key at fresh short apart db1,
        )
        | inr absent ↦
            let gone : db1 key ≡ none =
              rw made at (no_record sorted db staged h key at fresh short apart puts p absent) in
            (
              db1,
              rw (at, gone) (unfold backup_of write in refl),
              λ k. absent_result sorted db staged h key at fresh short apart db1 k absent gone,
            )
      ]
