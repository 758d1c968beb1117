-- ===== src/UndoLog/Pruned.antt =====
-- A flush that first prunes old undo records: `backup` undoes it just as well.
use rxin_dexer.Prelude.{
  ℕ, zero, suc, ◌+◌, ◌-◌, ◌≡◌, ◌≢◌, refl, ◌∙◌, sym, ap, Bool, true, false, ◌||◌, ◌&&◌, ◌⊎◌, Option,
  none, List, [], ◌∷◌, ◌++◌, ◌==◌, if◌then◌else◌, list_eq, list_eq→eq, All, Bool-cases, inl, inr,
  arith, leb,
}
use rxin_dexer.Prelude.Result.{ok, ◌>>=◌, >>=-eq-ok}
use rxin_dexer.Util.{Bytes}
use rxin_dexer.Store.{Db, Op, delete, key_of, value_of, update, write, has_key}
use rxin_dexer.Store.Writes.{write_other, write-append, write_at}
use rxin_dexer.UndoLog.{
  Undo, no_undo, Staged, record_undo, record_all, ops_of, undo_key, undo_puts, delete_range,
  prune_old_undo_keys, by_height, flush_ops, flush, flush_pruned, backup, backup_db,
}
use rxin_dexer.UndoLog.Recorded.{is_staged}
use rxin_dexer.UndoLog.Puts.{undo_key-prefix, undo_puts_miss}
use rxin_dexer.UndoLog.Backup.{AreShort, IsApart, backup_db-flush}

-- The two databases agree at the key of a write.
abbrev HasSameValue : Db → Db → Staged → Type 0
HasSameValue db db' s = db (key_of s.op) ≡ db' (key_of s.op)

record_all_agrees :
    (db db' : Db) (staged : List Staged) (u : Undo)
    → All (HasSameValue db db') staged
    → record_all db staged u ≡ record_all db' staged u
unfolding record_all record_undo
record_all_agrees db db' [] u h = refl
record_all_agrees db db' (s ∷ staged) u (same, h) =
    rw same (record_all_agrees db db' staged (record_undo db' s.height (key_of s.op) u) h)

-- A deletion of a key that begins with the prefix.
abbrev IsDeletion : Bytes → Op → Type 0
IsDeletion prefix op = (value_of op ≡ none) × ((b : Bytes) × (prefix ++ b ≡ key_of op))

module _ (prefix : Bytes) where
  delete_range-IsDeletion :
      (n start : ℕ) (ops : List Op)
      → delete_range prefix start n ≡ ok ops
      → All (IsDeletion prefix) ops
  unfolding delete_range
  delete_range-IsDeletion zero start ops e =
      let none_there : [] ≡ ops = cc e in rw (← none_there) tt
  delete_range-IsDeletion (suc n) start ops e =
      let (key, p, e1) =
        >>=-eq-ok (undo_key prefix start)
          (λ key. delete_range prefix (start + 1) n >>= λ rest. ok (delete key ∷ rest)) e in
      let (rest, q, e2) =
        >>=-eq-ok (delete_range prefix (start + 1) n) (λ rest. ok (delete key ∷ rest)) e1 in
      let made : delete key ∷ rest ≡ ops = cc e2 in
      rw (← made)
        ((refl, undo_key-prefix prefix start key p), delete_range-IsDeletion n (start + 1) rest q)

  prune-IsDeletion :
      (reorg_limit blocks next : ℕ) (pruned : List Op × ℕ)
      → prune_old_undo_keys prefix reorg_limit blocks next ≡ ok pruned
      → All (IsDeletion prefix) pruned.0
  unfolding prune_old_undo_keys
  prune-IsDeletion reorg_limit blocks next pruned e =
      elim (Bool-cases (reorg_limit == 0 || leb (blocks - reorg_limit) next)) [
        | inl idle ↦ let same : ([], next) ≡ pruned = cc (rw idle at e) in rw (← same) tt
        | inr due ↦
            let (ops, p, e1) =
              >>=-eq-ok (delete_range prefix next (blocks - reorg_limit - next))
                (λ (ops : List Op). ok (ops, blocks - reorg_limit)) (rw due at e) in
            let same : (ops, blocks - reorg_limit) ≡ pruned = cc e1 in
            rw (← same) (delete_range-IsDeletion (blocks - reorg_limit - next) next ops p)
      ]

  -- Pruning leaves a key as it is, or removes it.
  pruned_cases :
      (ops : List Op) (db : Db) (k : Bytes)
      → All (IsDeletion prefix) ops
      → (write ops db k ≡ db k) ⊎ (write ops db k ≡ none)
  unfolding write
  pruned_cases [] db k h = inl refl
  pruned_cases (op ∷ ops) db k ((gone, _), h) =
      elim (pruned_cases ops (update (key_of op) (value_of op) db) k h) [
        | inr e ↦ inr e
        | inl e ↦ elim (Bool-cases (list_eq (key_of op) k)) [
          | inl same ↦ inr (e ∙ rw same gone)
          | inr differ ↦ inl (e ∙ rw differ refl)
        ]
      ]

  pruned_none :
      (ops : List Op) (db : Db) (k : Bytes)
      → All (IsDeletion prefix) ops
      → db k ≡ none
      → write ops db k ≡ none
  pruned_none ops db k h e = elim (pruned_cases ops db k h) [
    | inl same ↦ same ∙ e
    | inr gone ↦ gone
  ]

  pruned-AreShort :
      (ops : List Op) (db : Db)
      → All (IsDeletion prefix) ops
      → AreShort db
      → AreShort (write ops db)
  pruned-AreShort ops db h short k = elim (pruned_cases ops db k h) [
    | inl same ↦ rw same (short k)
    | inr gone ↦ rw gone tt
  ]

  not_pruned :
      (ops : List Op) (k : Bytes)
      → All (IsDeletion prefix) ops
      → ((b : Bytes) → prefix ++ b ≢ k)
      → has_key k ops ≡ false
  unfolding has_key
  not_pruned [] k h apart = refl
  not_pruned (op ∷ ops) k ((_, (b, starts)), h) apart =
      let here : list_eq (key_of op) k ≡ false = elim (Bool-cases (list_eq (key_of op) k)) [
        | inr differ ↦ differ
        | inl same ↦ absurd (apart b (starts ∙ list_eq→eq (key_of op) k same))
      ] in
      rw (here, not_pruned ops k h apart) refl

  pruned-HasSameValue :
      (ops : List Op) (db : Db) (staged : List Staged)
      → All (IsDeletion prefix) ops
      → All (IsApart prefix) staged
      → All (HasSameValue db (write ops db)) staged
  pruned-HasSameValue ops db [] h apart = tt
  pruned-HasSameValue ops db (s ∷ staged) h (a, apart) = (
    sym (write_other ops (key_of s.op) db (not_pruned ops (key_of s.op) h a)),
    pruned-HasSameValue ops db staged h apart,
  )

  agrees_at :
      (db db' : Db) (staged : List Staged) (h : ℕ) (k : Bytes)
      → All (HasSameValue db db') staged
      → is_staged h k staged ≡ true
      → db k ≡ db' k
  unfolding is_staged
  agrees_at db db' [] h k a e = cc e
  agrees_at db db' (s ∷ staged) h k (same, a) e =
      elim (Bool-cases (s.height == h && list_eq (key_of s.op) k)) [
        | inr other ↦ agrees_at db db' staged h k a (ground arith)
        | inl here ↦
            let q : key_of s.op ≡ k = list_eq→eq (key_of s.op) k (ground arith) in
            ap db (sym q) ∙ same ∙ ap db' q
      ]

  -- The undo records of the batch do not concern a key that does not begin with the prefix.
  pub flush_pruned-other :
      (sorted : Bool) (reorg_limit blocks next : ℕ) (db : Db) (staged : List Staged)
      (flushed : List Op × ℕ) (k : Bytes)
      → flush_pruned prefix sorted reorg_limit blocks next db staged ≡ ok flushed
      → ((b : Bytes) → prefix ++ b ≢ k)
      → write flushed.0 db k ≡ write (ops_of staged) db k
  unfolding flush_pruned flush_ops
  flush_pruned-other sorted reorg_limit blocks next db staged flushed k run apart =
      let (pruned, p, e1) =
        >>=-eq-ok (prune_old_undo_keys prefix reorg_limit blocks next)
          (λ pruned. flush_ops prefix sorted db staged >>= λ ops. ok (pruned.0 ++ ops, pruned.1))
          run in
      let (ops, q, e2) =
        >>=-eq-ok (flush_ops prefix sorted db staged) (λ ops. ok (pruned.0 ++ ops, pruned.1)) e1 in
      let (puts, r, e3) =
        >>=-eq-ok (undo_puts prefix (by_height sorted (record_all db staged no_undo).cache))
          (λ puts. ok (ops_of staged ++ puts)) q in
      let made : ops_of staged ++ puts ≡ ops = cc e3 in
      let batch : pruned.0 ++ ops ≡ flushed.0 = cc e2 in
      let kept : write pruned.0 db k ≡ db k =
        write_other pruned.0 k db
          (not_pruned pruned.0 k (prune-IsDeletion reorg_limit blocks next pruned p) apart) in
      let no_put : has_key k puts ≡ false =
        undo_puts_miss prefix (by_height sorted (record_all db staged no_undo).cache) puts k r
          (λ h there at. let (b, starts) = undo_key-prefix prefix h k at in apart b starts) in
      rw (← batch, ← made)
        (ap (λ (d : Db). d k)
            (write-append pruned.0 (ops_of staged ++ puts) db
              ∙ write-append (ops_of staged) puts (write pruned.0 db))
          ∙ write_other puts k (write (ops_of staged) (write pruned.0 db)) no_put
          ∙ write_at (ops_of staged) k (write pruned.0 db) db kept)

  flush_there :
      (sorted : Bool) (db : Db) (staged : List Staged) (ops : List Op) (db1 : Db)
      → flush_ops prefix sorted db staged ≡ ok ops
      → write ops db ≡ db1
      → flush prefix sorted db staged ≡ ok db1
  unfolding flush
  flush_there sorted db staged ops db1 e made = rw (e, made) refl

  flush_ops_agrees :
      (sorted : Bool) (db db' : Db) (staged : List Staged)
      → All (HasSameValue db db') staged
      → flush_ops prefix sorted db staged ≡ flush_ops prefix sorted db' staged
  unfolding flush_ops
  flush_ops_agrees sorted db db' staged agrees =
      rw (record_all_agrees db db' staged no_undo agrees) refl

  -- The values before the flush are the ones before the pruning.
  before_agrees :
      (db db' : Db) (staged : List Staged) (h : ℕ) (k : Bytes) (other : Option Bytes)
      → All (HasSameValue db db') staged
      → (if is_staged h k staged then db' k else other)
        ≡ (if is_staged h k staged then db k else other)
  before_agrees db db' staged h k other agrees = elim (Bool-cases (is_staged h k staged)) [
    | inl there ↦ rw there (sym (agrees_at db db' staged h k agrees there))
    | inr absent ↦ rw absent refl
  ]

  -- The reorganisation of an index. After a flush that prunes old undo records and then makes writes
  -- for any heights, none of them at a key that begins with the prefix of the undo records, and where
  -- the database had no undo record of the height, `backup` at the height succeeds and leaves every
  -- key that was written for that height with the value it had before the flush, removes the undo
  -- record, and leaves all other keys as the flush left them. (No value before
  -- the flush has 2 ^ 32 - 1 bytes.)
  pub backup_db-flush_pruned :
      (sorted : Bool) (reorg_limit blocks next : ℕ) (db : Db) (staged : List Staged) (h : ℕ)
      (key : Bytes) (flushed : List Op × ℕ)
      → undo_key prefix h ≡ ok key
      → db key ≡ none
      → AreShort db
      → All (IsApart prefix) staged
      → flush_pruned prefix sorted reorg_limit blocks next db staged ≡ ok flushed
      → (db2 : Db) × (backup_db prefix (write flushed.0 db) h ≡ ok db2)
        × ((k : Bytes)
            → db2 k ≡ (
                if is_staged h k staged
                then db k
                else if list_eq key k
                then none
                else write flushed.0 db k))
  unfolding flush_pruned
  backup_db-flush_pruned sorted reorg_limit blocks next db staged h key flushed at fresh short apart
        run =
      let (pruned, p, e1) =
        >>=-eq-ok (prune_old_undo_keys prefix reorg_limit blocks next)
          (λ pruned. flush_ops prefix sorted db staged >>= λ ops. ok (pruned.0 ++ ops, pruned.1))
          run in
      let (ops, q, e2) =
        >>=-eq-ok (flush_ops prefix sorted db staged) (λ ops. ok (pruned.0 ++ ops, pruned.1)) e1 in
      let batch : pruned.0 ++ ops ≡ flushed.0 = cc e2 in
      let prunes = prune-IsDeletion reorg_limit blocks next pruned p in
      let agrees = pruned-HasSameValue pruned.0 db staged prunes apart in
      let written : write ops (write pruned.0 db) ≡ write flushed.0 db =
        sym (write-append pruned.0 ops db) ∙ ap (λ (o : List Op). write o db) batch in
      let flushed_there : flush prefix sorted (write pruned.0 db) staged ≡ ok (write flushed.0 db) =
        flush_there sorted (write pruned.0 db) staged ops (write flushed.0 db)
          (sym (flush_ops_agrees sorted db (write pruned.0 db) staged agrees) ∙ q) written in
      let (db2, run2, result) =
        backup_db-flush prefix sorted (write pruned.0 db) staged h key (write flushed.0 db) at
          (pruned_none pruned.0 db key prunes fresh) (pruned-AreShort pruned.0 db prunes short)
          apart flushed_there in
      (
        db2,
        run2,
        λ k.
            result k
            ∙ before_agrees db (write pruned.0 db) staged h k
                (if list_eq key k then none else write flushed.0 db k) agrees,
      )

  -- The batch of `backup` that does this.
  pub backup-flush_pruned :
      (sorted : Bool) (reorg_limit blocks next : ℕ) (db : Db) (staged : List Staged) (h : ℕ)
      (key : Bytes) (flushed : List Op × ℕ) (batch : List Op)
      → undo_key prefix h ≡ ok key
      → db key ≡ none
      → AreShort db
      → All (IsApart prefix) staged
      → flush_pruned prefix sorted reorg_limit blocks next db staged ≡ ok flushed
      → flushed.0 ≡ batch
      → (ops : List Op) × (backup prefix (write batch db) h ≡ ok ops)
        × ((k : Bytes)
            → write ops (write batch db) k ≡ (
                if is_staged h k staged
                then db k
                else if list_eq key k
                then none
                else write batch db k))
  unfolding backup_db
  backup-flush_pruned sorted reorg_limit blocks next db staged h key flushed batch at fresh short
        apart run same =
      let (db2, run2, result) =
        backup_db-flush_pruned sorted reorg_limit blocks next db staged h key flushed at fresh short
          apart run in
      let (ops, run3, made) =
        >>=-eq-ok (backup prefix (write flushed.0 db) h)
          (λ ops. ok (write ops (write flushed.0 db))) run2 in
      let written : write ops (write flushed.0 db) ≡ db2 = cc made in
      (ops, (rw same at run3), λ k. (rw same at (ap (λ (d : Db). d k) written ∙ result k)))
