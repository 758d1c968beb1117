-- ===== src/Realm/Index/Reorg.antt =====
-- A reorganisation of electrumx/server/realm_index.py: what `backup` leaves after a flush.
use rxin_dexer.Prelude.{
  ℕ, ◌≡◌, ◌≢◌, ◌∙◌, sym, ap, true, none, List, [], ◌∷◌, ◌++◌, if◌then◌else◌, list_eq, if_not_false,
  All, All-append, arith,
}
use rxin_dexer.Prelude.Result.{Result, ok, err, >>=-eq-ok}
use rxin_dexer.Util.{Bytes}
use rxin_dexer.Store.{Db, Op, write}
use rxin_dexer.Store.Cache.{Cache}
use rxin_dexer.UndoLog.{undo_key, flush_pruned}
use rxin_dexer.UndoLog.Recorded.{is_staged}
use rxin_dexer.UndoLog.Backup.{AreShort, IsApart}
use rxin_dexer.UndoLog.Pruned.{backup-flush_pruned}
use rxin_dexer.Realm.Index.{
  realm_prefix, singleton_prefix, undo_prefix, RealmIndex, cache_writes, staged_of, flush,
  backup_index,
}

abbrev second : Bytes → ℕ
second (x ∷ y ∷ rest) = y
second _ = 0

not_realm : (a b : Bytes) → undo_prefix ++ a ≢ realm_prefix ++ b
not_realm a b e = let same : 85 ≡ 77 = ap second e in absurd (omega (arith, same))

not_singleton : (a b : Bytes) → undo_prefix ++ a ≢ singleton_prefix ++ b
not_singleton a b e = let same : 85 ≡ 83 = ap second e in absurd (omega (arith, same))

cache_writes-IsApart :
    (prefix : Bytes) (cache : Cache (ℕ × Bytes))
    → ((a b : Bytes) → undo_prefix ++ a ≢ prefix ++ b)
    → All (IsApart undo_prefix) (cache_writes prefix cache)
unfolding cache_writes
cache_writes-IsApart prefix [] apart = tt
cache_writes-IsApart prefix ((key, (height, value)) ∷ cache) apart =
    ((λ rest. apart rest key), cache_writes-IsApart prefix cache apart)

staged_of-IsApart : (x : RealmIndex) → All (IsApart undo_prefix) (staged_of x)
staged_of-IsApart x =
    All-append (IsApart undo_prefix) (cache_writes realm_prefix x.realm_cache)
      (cache_writes singleton_prefix x.singleton_cache)
      (cache_writes-IsApart realm_prefix x.realm_cache not_realm)
      (cache_writes-IsApart singleton_prefix x.singleton_cache not_singleton)

abbrev ops_or_nil : {A : Type 0} → Result (List Op × A) → List Op
ops_or_nil (ok out) = out.0
ops_or_nil (err e) = []

pub flush-parts :
    (reorg_limit blocks : ℕ) (db : Db) (x : RealmIndex) (flushed : List Op × RealmIndex)
    → x.enabled ≡ true
    → flush reorg_limit blocks db x ≡ ok flushed
    → (out : List Op × ℕ) × (flush_pruned undo_prefix true reorg_limit blocks x.pruned_to db
          (staged_of x)
        ≡ ok out)
      × (out.0 ≡ flushed.0)
unfolding flush
flush-parts reorg_limit blocks db x flushed on run =
    let (out, p, made) =
      >>=-eq-ok (flush_pruned undo_prefix true reorg_limit blocks x.pruned_to db (staged_of x))
        (λ out. ok (out.0, record x { realm_cache = []; singleton_cache = []; pruned_to = out.1 }))
        (sym (if_not_false x.enabled (ok ([], x)) _ on) ∙ run) in
    (out, p, ap (λ (f : Result (List Op × RealmIndex)). ops_or_nil f) made)

-- The reorganisation of the realm index, by itself. When the flush of the enabled index succeeds, and
-- the database had no undo record of a height h below 2 ^ 32 and no value of 2 ^ 32 - 1 bytes, then
-- `backup` at h on the flushed database succeeds. Every key that the flush wrote for h (realms and
-- singletons) then has the value it had before the flush, the undo record of h is gone, and every
-- other key is as the flush left it.
pub backup_index-flush_realms :
    (reorg_limit blocks : ℕ) (db : Db) (x : RealmIndex) (flushed : List Op × RealmIndex) (h : ℕ)
    (key : Bytes)
    → x.enabled ≡ true
    → undo_key undo_prefix h ≡ ok key
    → db key ≡ none
    → AreShort db
    → flush reorg_limit blocks db x ≡ ok flushed
    → (ops : List Op) × (backup_index (write flushed.0 db) h x ≡ ok ops)
      × ((k : Bytes)
          → write ops (write flushed.0 db) k ≡ (
              if is_staged h k (staged_of x)
              then db k
              else if list_eq key k
              then none
              else write flushed.0 db k))
unfolding backup_index
backup_index-flush_realms reorg_limit blocks db x flushed h key on at fresh short run =
    let (out, q, same) = flush-parts reorg_limit blocks db x flushed on run in
    let (ops, run2, result) =
      backup-flush_pruned undo_prefix true reorg_limit blocks x.pruned_to db (staged_of x) h key out
        flushed.0 at fresh short (staged_of-IsApart x) q same in
    (ops, if_not_false x.enabled (ok []) _ on ∙ run2, result)
