-- ===== src/Realm/Index/Restored.antt =====
-- What a reorganisation leaves of the names of electrumx/server/realm_index.py, by the caches.
use rxin_dexer.Prelude.{
  ℕ, ◌≡◌, ◌∙◌, sym, ap, true, ◌⊎◌, inl, inr, ◌||◌, ◌&&◌, ◌==◌, none, some, List, [], ◌∷◌, ◌++◌,
  list_eq, list_eq→eq, list_eq_refl, Bool-cases, some_injective, arith,
}
use rxin_dexer.Prelude.Result.{ok}
use rxin_dexer.Util.{Bytes}
use rxin_dexer.Store.{Db, Op, write}
use rxin_dexer.Store.Cache.{Cache, get, AreDistinct, get-later}
use rxin_dexer.UndoLog.{Staged, undo_key}
use rxin_dexer.UndoLog.Recorded.{is_staged, is_staged-nil, is_staged-append}
use rxin_dexer.UndoLog.Backup.{AreShort}
use rxin_dexer.UndoLog.Restored.{Restored, is_staged-Restored}
use rxin_dexer.Realm.Index.{
  realm_prefix, singleton_prefix, undo_prefix, RealmIndex, cache_writes, staged_of, flush,
  backup_index,
}
use rxin_dexer.Realm.Index.Reorg.{backup_index-flush_realms}

-- The key of an entry that a cache has for a height, behind the prefix of the cache.
pub record IsCachedKey (prefix : Bytes) (cache : Cache (ℕ × Bytes)) (h : ℕ) (k : Bytes)
    : Type 0 where
  pub name : Bytes
  pub value : Bytes
  pub there : get name cache ≡ some (h, value)
  pub key : prefix ++ name ≡ k

-- The key of a realm or of a singleton that the index has in its caches for a height.
abbrev pub IsRealmKey : RealmIndex → ℕ → Bytes → Type 0
IsRealmKey x h k =
    IsCachedKey realm_prefix x.realm_cache h k ⊎ IsCachedKey singleton_prefix x.singleton_cache h k

cache_writes-IsCachedKey :
    (prefix : Bytes) (cache : Cache (ℕ × Bytes)) (h : ℕ) (k : Bytes)
    → AreDistinct cache
    → is_staged h k (cache_writes prefix cache) ≡ true
    → IsCachedKey prefix cache h k
unfolding cache_writes get
cache_writes-IsCachedKey prefix [] h k d there = absurd (cc (there, is_staged-nil h k))
cache_writes-IsCachedKey prefix ((first, (height, value)) ∷ cache) h k (fresh, d) there =
    let split : ((height == h && list_eq (prefix ++ first) k)
          || is_staged h k (cache_writes prefix cache))
        ≡ true =
      unfold is_staged in there in
    elim (Bool-cases (height == h && list_eq (prefix ++ first) k)) [
      | inl here ↦
          let same : height ≡ h = ground arith in
          record {
            name = first;
            value = value;
            there = rw (list_eq_refl first) (ap (λ (n : ℕ). some (n, value)) same);
            key = list_eq→eq (prefix ++ first) k (ground arith);
          }
      | inr other ↦
          let e = cache_writes-IsCachedKey prefix cache h k d (ground arith) in
          record {
            name = e.name;
            value = e.value;
            there = get-later first (height, value) e.name cache fresh e.there;
            key = e.key;
          }
    ]

IsCachedKey-staged :
    (prefix : Bytes) (cache : Cache (ℕ × Bytes)) (h : ℕ) (k : Bytes)
    → IsCachedKey prefix cache h k
    → is_staged h k (cache_writes prefix cache) ≡ true
unfolding cache_writes get is_staged
IsCachedKey-staged prefix [] h k e = let there = e.there in cc there
IsCachedKey-staged prefix ((first, (height, value)) ∷ cache) h k e =
    let found : get e.name ((first, (height, value)) ∷ cache) ≡ some (h, e.value) = e.there in
    elim (Bool-cases (list_eq e.name first)) [
      | inr differ ↦
          let later : is_staged h k (cache_writes prefix cache) ≡ true =
            IsCachedKey-staged prefix cache h k (record {
              name = e.name;
              value = e.value;
              there = rw differ at found;
              key = e.key;
            }) in
          ground (arith, later)
      | inl near ↦
          let own : (height, value) ≡ (h, e.value) = some_injective (rw near at found) in
          let height_is : height ≡ h = ap (λ (p : ℕ × Bytes). p.0) own in
          let k_is : prefix ++ first ≡ k =
            ap (λ (n : Bytes). prefix ++ n) (sym (list_eq→eq e.name first near)) ∙ e.key in
          let here : list_eq (prefix ++ first) k ≡ true =
            ap (list_eq (prefix ++ first)) (sym k_is) ∙ list_eq_refl (prefix ++ first) in
          let at_height : (height == h) ≡ true = ground arith in ground (arith, here, at_height)
    ]

staged_of-IsRealmKey :
    (x : RealmIndex) (h : ℕ) (k : Bytes)
    → AreDistinct x.realm_cache
    → AreDistinct x.singleton_cache
    → is_staged h k (staged_of x) ≡ true
    → IsRealmKey x h k
staged_of-IsRealmKey x h k dr ds there =
    let realms : List Staged = cache_writes realm_prefix x.realm_cache in
    let singletons : List Staged = cache_writes singleton_prefix x.singleton_cache in
    let split : (is_staged h k realms || is_staged h k singletons) ≡ true =
      sym (is_staged-append h k realms singletons) ∙ there in
    elim (Bool-cases (is_staged h k realms)) [
      | inl here ↦ inl (cache_writes-IsCachedKey realm_prefix x.realm_cache h k dr here)
      | inr not_here ↦
          inr (cache_writes-IsCachedKey singleton_prefix x.singleton_cache h k ds (ground arith))
    ]

IsRealmKey-staged :
    (x : RealmIndex) (h : ℕ) (k : Bytes) → IsRealmKey x h k → is_staged h k (staged_of x) ≡ true
IsRealmKey-staged x h k (inl e) =
    let realms : List Staged = cache_writes realm_prefix x.realm_cache in
    let singletons : List Staged = cache_writes singleton_prefix x.singleton_cache in
    let here : is_staged h k realms ≡ true = IsCachedKey-staged realm_prefix x.realm_cache h k e in
    is_staged-append h k realms singletons ∙ ground (arith, here)
IsRealmKey-staged x h k (inr e) =
    let realms : List Staged = cache_writes realm_prefix x.realm_cache in
    let singletons : List Staged = cache_writes singleton_prefix x.singleton_cache in
    let here : is_staged h k singletons ≡ true =
      IsCachedKey-staged singleton_prefix x.singleton_cache h k e in
    is_staged-append h k realms singletons ∙ ground (arith, here)

-- The reorganisation of the realm index, by itself. When the flush of the enabled index succeeds, the
-- caches being dicts, and the database had no undo record of a height h below 2 ^ 32 and no value of
-- 2 ^ 32 - 1 bytes, then `backup` at h on the flushed database succeeds. Every key of a realm or a
-- singleton that the caches had for h then has the value it had before the flush, the undo record of h
-- is gone, and every other key is as the flush left it.
pub backup_index-realms :
    (reorg_limit blocks : ℕ) (db : Db) (x : RealmIndex) (flushed : List Op × RealmIndex) (h : ℕ)
    (undo : Bytes)
    → x.enabled ≡ true
    → AreDistinct x.realm_cache
    → AreDistinct x.singleton_cache
    → undo_key undo_prefix h ≡ ok undo
    → db undo ≡ none
    → AreShort db
    → flush reorg_limit blocks db x ≡ ok flushed
    → (ops : List Op) × (backup_index (write flushed.0 db) h x ≡ ok ops)
      × Restored (IsRealmKey x h) undo db (write flushed.0 db) (write ops (write flushed.0 db))
backup_index-realms reorg_limit blocks db x flushed h undo on dr ds at fresh short run =
    let (ops, run2, result) =
      backup_index-flush_realms reorg_limit blocks db x flushed h undo on at fresh short run in
    (
      ops,
      run2,
      is_staged-Restored (IsRealmKey x h) undo db (write flushed.0 db)
          (write ops (write flushed.0 db)) h (staged_of x)
          (λ k there. staged_of-IsRealmKey x h k dr ds there) (λ k key. IsRealmKey-staged x h k key)
          result,
    )
