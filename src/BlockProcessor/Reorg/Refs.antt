-- ===== src/BlockProcessor/Reorg/Refs.antt =====
-- What `_backup_txs` of electrumx/server/block_processor.py does with references, where the caches of
-- references are flushed: it raises nothing, and deletes keys of the tables of references only.
use rxin_dexer.Prelude.{
  ◌≡◌, refl, Option, none, some, List, [], ◌∷◌, ◌++◌, inl, inr, Bool-cases, All, All-append,
}
use rxin_dexer.Prelude.Result.{Result, ok}
use rxin_dexer.Util.{Bytes}
use rxin_dexer.Script.Walks.{refs_of, get_push_input_refs_total}
use rxin_dexer.Store.Cache.{Cache, get, remove}
use rxin_dexer.Store.Keys.{has, distinct}
use rxin_dexer.BlockProcessor.{
  Env, RefCaches, truthy, in_both, is_parse_error, except_parse, delete_potential_refs,
}
use rxin_dexer.BlockProcessor.Backup.{delete_stored, delete_ref, delete_refs, refs_to_delete}
use rxin_dexer.BlockProcessor.View.Laws.{IsRefKey}

-- A flush leaves no reference, mint or location in the caches.
abbrev pub IsFlushed : RefCaches → Type 0
IsFlushed refs = (refs.ref_cache ≡ []) × (refs.ref_mint_cache ≡ []) × (refs.ref_loc_cache ≡ [])

abbrev pub Deletes : Result (RefCaches × List Bytes) → Type 0
Deletes r =
    (refs : RefCaches) × (deletes : List Bytes) × (r ≡ ok (refs, deletes))
    × IsFlushed refs
    × All IsRefKey deletes

pub delete_potential_refs-Deletes :
    (env : Env) (outpoint : Bytes) (refs : RefCaches)
    → IsFlushed refs
    → Deletes (delete_potential_refs env outpoint refs)
unfolding delete_potential_refs truthy in_both get remove
delete_potential_refs-Deletes env outpoint refs (e, mint, loc) = (
  record {
    ref_cache = [];
    ref_mint_cache = refs.ref_mint_cache;
    ref_loc_cache = refs.ref_loc_cache;
    data_cache = remove (114 ∷ 98 ∷ outpoint) refs.data_cache;
  },
  (114 ∷ 105 ∷ outpoint) ∷ (114 ∷ 98 ∷ outpoint) ∷ [],
  rw e refl,
  (refl, mint, loc),
  ((105 ∷ outpoint, refl), ((98 ∷ outpoint, refl), tt)),
)

delete_stored-IsRefKey :
    (rest : Bytes) (value : Option Bytes) → All IsRefKey (delete_stored (114 ∷ rest) value)
unfolding delete_stored
delete_stored-IsRefKey rest none = tt
delete_stored-IsRefKey rest (some value) = ((rest, refl), tt)

abbrev stored_key : Env → Bytes → List Bytes
stored_key env rest = delete_stored (114 ∷ rest) (truthy (env.utxo_db (114 ∷ rest)))

delete_ref-flushed :
    (env : Env) (rest ref : Bytes) (cache : Cache Bytes)
    → cache ≡ []
    → delete_ref env (114 ∷ rest) ref cache ≡ ok ([], stored_key env rest)
unfolding delete_ref truthy in_both get remove
delete_ref-flushed env rest ref cache e = rw e refl

pub delete_refs-Deletes :
    (env : Env) (spent all : List Bytes) (refs : RefCaches)
    → IsFlushed refs
    → Deletes (delete_refs env spent all refs)
unfolding delete_refs
delete_refs-Deletes env spent [] refs flushed = (refs, [], refl, flushed, tt)
delete_refs-Deletes env spent (ref ∷ all) refs (own, mint, loc) =
    elim (Bool-cases (has ref spent)) [
      | inl minted ↦
          let (after, more, ran, flushed, keys) =
            delete_refs-Deletes env spent all (record refs { ref_mint_cache = [] })
              (own, refl, loc) in
          (
            after,
            stored_key env (109 ∷ ref) ++ more,
            rw (minted, delete_ref-flushed env (109 ∷ ref) ref refs.ref_mint_cache mint, ran) refl,
            flushed,
            All-append IsRefKey (stored_key env (109 ∷ ref)) more
                (delete_stored-IsRefKey (109 ∷ ref) _) keys,
          )
      | inr moved ↦
          let (after, more, ran, flushed, keys) =
            delete_refs-Deletes env spent all (record refs { ref_loc_cache = [] })
              (own, mint, refl) in
          (
            after,
            stored_key env (108 ∷ ref) ++ more,
            rw (moved, delete_ref-flushed env (108 ∷ ref) ref refs.ref_loc_cache loc, ran) refl,
            flushed,
            All-append IsRefKey (stored_key env (108 ∷ ref)) more
                (delete_stored-IsRefKey (108 ∷ ref) _) keys,
          )
    ]

pub refs_to_delete_total : (s : Bytes) → (all : List Bytes) × (refs_to_delete s ≡ ok all)
unfolding refs_to_delete except_parse is_parse_error
refs_to_delete_total s = elim (get_push_input_refs_total s) [
  | inr (raised, _) ↦ ([], rw raised)
  | inl (its, _, _, e) ↦ (distinct (refs_of its).all, rw e)
]
