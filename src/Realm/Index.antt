-- ===== src/Realm/Index.antt =====
-- electrumx/server/realm_index.py: RealmIndex. A realm or singleton and its height are always set
-- together, so one cache holds both. `pruned_to` stands for `_last_undo_pruned + 1`. SHA-256, the
-- lower case of a text, its UTF-8 bytes and the CBOR encoder are parameters.
pub mod First
pub mod Reorg
pub mod Restored
pub mod Clash
use rxin_dexer.Prelude.{
  ℕ, ◌+◌, Bool, true, false, not, ◌&&◌, ◌||◌, Option, none, some, List, [], ◌∷◌, ◌++◌, leb, ◌==◌,
  if◌then◌else◌, take,
}
use rxin_dexer.Prelude.Result.{Result, ok, ◌>>=◌}
use rxin_dexer.Util.{Bytes}
use rxin_dexer.Store.{Db, Op, put}
use rxin_dexer.Store.Cache.{Cache, get, set}
use rxin_dexer.UndoLog.{Staged, flush_pruned, backup}
use rxin_dexer.Realm.{Meta, Text, RealmFields, extract_realm_fields}

-- "RM", "RS" and "RU"
abbrev pub realm_prefix : Bytes
realm_prefix = 82 ∷ 77 ∷ []

abbrev pub singleton_prefix : Bytes
singleton_prefix = 82 ∷ 83 ∷ []

abbrev pub undo_prefix : Bytes
undo_prefix = 82 ∷ 85 ∷ []

pub record RealmIndex : Type 0 where
  pub enabled : Bool
  pub realm_cache : Cache (ℕ × Bytes)
  pub singleton_cache : Cache (ℕ × Bytes)
  pub pruned_to : ℕ

-- The dict of the references of each output, with their types.
abbrev pub OutputRefs : Type 0
OutputRefs = List (ℕ × List (Bytes × ℕ))

-- The first reference of type 1.
unfoldable pub first_singleton : List (Bytes × ℕ) → Option Bytes
first_singleton [] = none
first_singleton ((ref, ref_type) ∷ refs) =
    let rest = first_singleton refs in if ref_type == 1 then some ref else rest

-- `output_refs_by_vout.get(0, ())`
unfoldable pub refs_at : ℕ → OutputRefs → List (Bytes × ℕ)
refs_at vout [] = []
refs_at vout ((v, refs) ∷ outputs) =
    let rest = refs_at vout outputs in if v == vout then refs else rest

-- The outputs in the order of their numbers.
unfoldable pub insert_output : ℕ × List (Bytes × ℕ) → OutputRefs → OutputRefs
insert_output (v, refs) [] = (v, refs) ∷ []
insert_output (v, refs) ((v', refs') ∷ outputs) =
    let rest = insert_output (v, refs) outputs in
    if leb v v' then (v, refs) ∷ (v', refs') ∷ outputs else (v', refs') ∷ rest

unfoldable pub sorted_outputs : OutputRefs → OutputRefs
sorted_outputs [] = []
sorted_outputs (o ∷ outputs) = insert_output o (sorted_outputs outputs)

abbrev pub or_else : Option Bytes → Option Bytes → Option Bytes
or_else (some ref) next = some ref
or_else none next = next

unfoldable pub any_singleton : OutputRefs → Option Bytes
any_singleton [] = none
any_singleton ((v, refs) ∷ outputs) = or_else (first_singleton refs) (any_singleton outputs)

unfoldable pub pick_singleton : OutputRefs → Option Bytes
pick_singleton outputs =
    or_else (first_singleton (refs_at 0 outputs)) (any_singleton (sorted_outputs outputs))

abbrev pub is_some : {A : Type 0} → Option A → Bool
is_some none = false
is_some (some a) = true

-- `key in cache or db.get(prefix + key) is not None`
abbrev pub is_known : Db → Bytes → Cache (ℕ × Bytes) → Bytes → Bool
is_known db prefix cache key = is_some (get key cache) || is_some (db (prefix ++ key))

-- The singleton of a realm, unless it belongs to a realm already.
abbrev pub add_singleton : Db → Option Bytes → Bytes → ℕ → Cache (ℕ × Bytes) → Cache (ℕ × Bytes)
add_singleton db none id_hash height cache = cache
add_singleton db (some ref) id_hash height cache =
    if is_known db singleton_prefix cache ref then cache else set ref (height, id_hash) cache

-- The record of a realm: its fields, its singleton and its height.
pub record RealmRecord : Type 0 where
  pub fields : RealmFields
  pub ref : Option Bytes
  pub height : ℕ

module _ (sha256 : Bytes → Bytes) (lower : Text → Text) (utf8 : Text → Bytes) where
  unfoldable pub realm_id_hash : Text → Bytes
  realm_id_hash realm_id = take 16 (sha256 (utf8 (lower realm_id)))

  module _ (has_cbor : Bool) (dumps : RealmRecord → Bytes) where
    -- A realm that is not known yet.
    abbrev pub register : Db → RealmFields → Option Bytes → ℕ → RealmIndex → RealmIndex
    register db f singleton height x = record x {
      realm_cache =
          set (realm_id_hash f.id)
            (height, dumps (record { fields = f; ref = singleton; height = height })) x.realm_cache;
      singleton_cache = add_singleton db singleton (realm_id_hash f.id) height x.singleton_cache;
    }

    unfoldable pub index_fields : Db → Option RealmFields → OutputRefs → ℕ → RealmIndex → RealmIndex
    index_fields db none outputs height x = x
    index_fields db (some f) outputs height x =
        if is_known db realm_prefix x.realm_cache (realm_id_hash f.id) || not has_cbor
        then x
        else register db f (pick_singleton outputs) height x

    unfoldable pub process_tx : Db → Option Meta → OutputRefs → ℕ → RealmIndex → RealmIndex
    process_tx db none outputs height x = x
    process_tx db (some metadata) outputs height x =
        if x.enabled then index_fields db (extract_realm_fields metadata) outputs height x else x

-- The writes of a cache, each under the prefix and for its height.
unfoldable pub cache_writes : Bytes → Cache (ℕ × Bytes) → List Staged
cache_writes prefix [] = []
cache_writes prefix ((key, (height, value)) ∷ cache) =
    record { height = height; op = put (prefix ++ key) value } ∷ cache_writes prefix cache

abbrev pub staged_of : RealmIndex → List Staged
staged_of x =
    cache_writes realm_prefix x.realm_cache ++ cache_writes singleton_prefix x.singleton_cache

-- `flush`: its batch, and the index after it. `blocks` is `db_height + 1`.
unfoldable pub flush : ℕ → ℕ → Db → RealmIndex → Result (List Op × RealmIndex)
flush reorg_limit blocks db x = if not x.enabled then ok ([], x) else (do
  out ← flush_pruned undo_prefix true reorg_limit blocks x.pruned_to db (staged_of x)
  ok (out.0, record x { realm_cache = []; singleton_cache = []; pruned_to = out.1 }))

unfoldable pub backup_index : Db → ℕ → RealmIndex → Result (List Op)
backup_index db height x = if not x.enabled then ok [] else backup undo_prefix db height
