-- ===== src/Realm/Index/First.antt =====
-- electrumx/server/realm_index.py: the first registration of a realm wins.
use rxin_dexer.Prelude.{
  ℕ, ◌≡◌, refl, ◌∙◌, sym, ap, Bool, true, false, not, ◌||◌, Option, none, some, list_eq, list_eq→eq,
  Bool-cases, if_true, if_false, inl, inr, arith,
}
use rxin_dexer.Util.{Bytes}
use rxin_dexer.Store.{Db}
use rxin_dexer.Store.Cache.{Cache, get, set, get-set}
use rxin_dexer.Realm.{Meta, Text, RealmFields, extract_realm_fields}
use rxin_dexer.Realm.Index.{
  realm_prefix, singleton_prefix, RealmIndex, OutputRefs, is_known, add_singleton, RealmRecord,
  realm_id_hash, pick_singleton, register, index_fields, process_tx,
}

-- Setting a key that is not known leaves the known ones alone.
set_unknown :
    (db : Db) (prefix : Bytes) (cache : Cache (ℕ × Bytes)) (key k : Bytes) (value : ℕ × Bytes)
    → is_known db prefix cache key ≡ false
    → is_known db prefix cache k ≡ true
    → get k (set key value cache) ≡ get k cache
set_unknown db prefix cache key k value new known =
    get-set key k value cache ∙ elim (Bool-cases (list_eq k key)) [
      | inr other ↦ if_false (list_eq k key) (some value) (get k cache) other
      | inl same ↦
          let clash : is_known db prefix cache key ≡ true =
            ap (is_known db prefix cache) (sym (list_eq→eq k key same)) ∙ known in
          absurd (cc (clash, new))
    ]

add_singleton-known :
    (db : Db) (singleton : Option Bytes) (id_hash : Bytes) (height : ℕ) (cache : Cache (ℕ × Bytes))
    (k : Bytes)
    → is_known db singleton_prefix cache k ≡ true
    → get k (add_singleton db singleton id_hash height cache) ≡ get k cache
add_singleton-known db none id_hash height cache k known = refl
add_singleton-known db (some ref) id_hash height cache k known =
    elim (Bool-cases (is_known db singleton_prefix cache ref)) [
      | inl old ↦ ap (get k) (
          if_true (is_known db singleton_prefix cache ref) cache (set ref (height, id_hash) cache)
            old)
      | inr new ↦
          ap (get k) (
            if_false (is_known db singleton_prefix cache ref) cache
              (set ref (height, id_hash) cache) new)
          ∙ set_unknown db singleton_prefix cache ref k (height, id_hash) new known
    ]

module _ (sha256 : Bytes → Bytes) (lower : Text → Text) (utf8 : Text → Bytes) (has_cbor : Bool)
    (dumps : RealmRecord → Bytes) (db : Db) where
  -- What the caches hold for known keys is kept.
  abbrev pub KeepsKnown : RealmIndex → RealmIndex → Type 0
  KeepsKnown x y =
      ((k : Bytes)
        → is_known db realm_prefix x.realm_cache k ≡ true
        → get k y.realm_cache ≡ get k x.realm_cache)
      × ((k : Bytes)
          → is_known db singleton_prefix x.singleton_cache k ≡ true
          → get k y.singleton_cache ≡ get k x.singleton_cache)

  index_fields-KeepsKnown :
      (f : Option RealmFields) (outputs : OutputRefs) (height : ℕ) (x : RealmIndex)
      → KeepsKnown x (index_fields sha256 lower utf8 has_cbor dumps db f outputs height x)
  unfolding index_fields
  index_fields-KeepsKnown none outputs height x = ((λ k known. refl), (λ k known. refl))
  index_fields-KeepsKnown (some f) outputs height x =
      let key = realm_id_hash sha256 lower utf8 f.id in
      let made = register sha256 lower utf8 has_cbor dumps db f (pick_singleton outputs) height x in
      elim (Bool-cases (is_known db realm_prefix x.realm_cache key || not has_cbor)) [
        | inl old ↦
            let same =
              if_true (is_known db realm_prefix x.realm_cache key || not has_cbor) x made old in
            (
              (λ k known. ap (λ (y : RealmIndex). get k y.realm_cache) same),
              (λ k known. ap (λ (y : RealmIndex). get k y.singleton_cache) same),
            )
        | inr new ↦
            let same =
              if_false (is_known db realm_prefix x.realm_cache key || not has_cbor) x made new in
            (
              (λ k known.
                  ap (λ (y : RealmIndex). get k y.realm_cache) same
                  ∙ set_unknown db realm_prefix x.realm_cache key k _ (ground arith) known),
              (λ k known.
                  ap (λ (y : RealmIndex). get k y.singleton_cache) same
                  ∙ add_singleton-known db (pick_singleton outputs) key height x.singleton_cache k
                      known),
            )
      ]

  -- First registration wins. Whatever transaction is processed, the cache keeps what it holds for every
  -- realm that is known, in the cache or in the database, and the same for every singleton: a realm is
  -- never overwritten by a later registration, and one that is only in the database gets no new entry.
  pub process_tx-KeepsKnown :
      (metadata : Option Meta) (outputs : OutputRefs) (height : ℕ) (x : RealmIndex)
      → KeepsKnown x (process_tx sha256 lower utf8 has_cbor dumps db metadata outputs height x)
  unfolding process_tx
  process_tx-KeepsKnown none outputs height x = ((λ k known. refl), (λ k known. refl))
  process_tx-KeepsKnown (some metadata) outputs height x =
      let made =
        index_fields sha256 lower utf8 has_cbor dumps db (extract_realm_fields metadata) outputs
          height x in
      let (realms, singletons) =
        index_fields-KeepsKnown (extract_realm_fields metadata) outputs height x in
      elim (Bool-cases x.enabled) [
        | inr off ↦
            let same = if_false x.enabled made x off in
            (
              (λ k known. ap (λ (y : RealmIndex). get k y.realm_cache) same),
              (λ k known. ap (λ (y : RealmIndex). get k y.singleton_cache) same),
            )
        | inl on ↦
            let same = if_true x.enabled made x on in
            (
              (λ k known. ap (λ (y : RealmIndex). get k y.realm_cache) same ∙ realms k known),
              (λ k known.
                  ap (λ (y : RealmIndex). get k y.singleton_cache) same ∙ singletons k known),
            )
      ]
