-- ===== src/BlockProcessor/View/Spend.antt =====
-- `spend_utxo` of electrumx/server/block_processor.py on the map of unspent outputs.
use rxin_dexer.Prelude.{
  ℕ, suc, ◌<◌, ◌^◌, ◌≡◌, refl, sym, ap, ◌∙◌, true, false, Option, none, some, List, [], ◌∷◌, ◌++◌,
  inl, inr, arith, ltb, lt→ltb, list_eq, list_eq→eq, list_eq_refl, length, take, drop, All,
  Bool-cases, take-append, drop-append, some_injective, Option-cases, length-append,
}
use rxin_dexer.Prelude.Result.{ok}
use rxin_dexer.Util.{Bytes, to_le, pack_le_uint}
use rxin_dexer.Util.Ints.{length-to_le}
use rxin_dexer.Store.Cache.{get, remove, get-remove}
use rxin_dexer.Store.Keys.{has}
use rxin_dexer.BlockProcessor.{
  Env, Utxos, truthy, tx_num_of, udb_key_of, is_other, passed_over, remove_entries, spend_candidate,
  hdb_prefix, spend_cached, spend_utxo,
}
use rxin_dexer.BlockProcessor.View.{
  View, erase, Entry, entry_value, is_hash, or_next, stored, not_deleted, entries_at, on_disk,
  Holds, IsUtxoDb,
}
use rxin_dexer.BlockProcessor.View.Laws.{
  found-Under, on_disk-append, same_outpoint, starts_h, Under, prefix_of,
}

abbrev marked : Entry → Utxos → Utxos
marked entry u = record u { db_deletes = u.db_deletes ++ (entry.0 ∷ udb_key_of entry ∷ []) }

abbrev IsKnown : Env → Entry → Type 0
IsKnown env entry = (h : Bytes) × (env.fs_tx_hash (tx_num_of entry.0) ≡ some h)

-- Among several entries the loop takes the one that `stored` finds.
spend_candidate-many :
    (env : Env) (tx_hash : Bytes) (entries : List Entry) (entry : Entry) (v : Bytes) (u : Utxos)
    → All (IsKnown env) entries
    → stored env tx_hash entries ≡ some (entry, v)
    → spend_candidate env tx_hash true entries u ≡ ok (v, marked entry u)
unfolding stored spend_candidate passed_over is_other is_hash or_next remove_entries
spend_candidate-many env tx_hash [] entry v u known e = cc e
spend_candidate-many env tx_hash (first ∷ entries) entry v u ((h, f), known) e =
    elim (Bool-cases (list_eq h tx_hash)) [
      | inr other ↦
          rw (f, other)
            (spend_candidate-many env tx_hash entries entry v u known (rw (f, other) at e))
      | inl same ↦ elim (Option-cases (truthy (env.utxo_db (udb_key_of first)))) [
        | inr missing ↦
            rw (f, same, missing)
              (spend_candidate-many env tx_hash entries entry v u known
                (rw (f, same, missing) at e))
        | inl (packed, there) ↦
            let it : (first, entry_value first packed) ≡ (entry, v) =
              some_injective (rw (f, same, there) at e) in
            rw (f, same, there) (ap (λ (x : Entry × Bytes). ok (x.1, marked x.0 u)) it)
      ]
    ]

-- A single entry is taken without comparing its hash.
spend_candidate-one :
    (env : Env) (tx_hash : Bytes) (first entry : Entry) (v : Bytes) (u : Utxos)
    → stored env tx_hash (first ∷ []) ≡ some (entry, v)
    → spend_candidate env tx_hash false (first ∷ []) u ≡ ok (v, marked entry u)
unfolding stored spend_candidate passed_over is_hash or_next remove_entries
spend_candidate-one env tx_hash first entry v u e =
    elim (Bool-cases (is_hash tx_hash (env.fs_tx_hash (tx_num_of first.0)))) [
      | inr other ↦ absurd (cc (rw other at e))
      | inl same ↦ elim (Option-cases (truthy (env.utxo_db (udb_key_of first)))) [
        | inr missing ↦ absurd (cc (rw (same, missing) at e))
        | inl (packed, there) ↦
            let it : (first, entry_value first packed) ≡ (entry, v) =
              some_injective (rw (same, there) at e) in
            rw there (ap (λ (x : Entry × Bytes). ok (x.1, marked x.0 u)) it)
      ]
    ]

spend_candidate-stored :
    (env : Env) (tx_hash : Bytes) (entries : List Entry) (entry : Entry) (v : Bytes) (u : Utxos)
    → All (IsKnown env) entries
    → stored env tx_hash entries ≡ some (entry, v)
    → spend_candidate env tx_hash (ltb 1 (length entries)) entries u ≡ ok (v, marked entry u)
spend_candidate-stored env tx_hash [] entry v u known e = unfold stored in cc e
spend_candidate-stored env tx_hash (first ∷ []) entry v u known e =
    spend_candidate-one env tx_hash first entry v u e
spend_candidate-stored env tx_hash (first ∷ second ∷ entries) entry v u known e =
    rw (lt→ltb 1 (suc (suc (length entries))) (omega arith))
      (spend_candidate-many env tx_hash (first ∷ second ∷ entries) entry v u known e)

All-IsKnown :
    (env : Env) (p : Bytes) (entries : List Entry)
    → All (Under env p) entries
    → All (IsKnown env) entries
All-IsKnown env p [] none_left = tt
All-IsKnown env p (first ∷ entries) ((under, h, f), all) = ((h, f), All-IsKnown env p entries all)

has-first : (x y : Bytes) (xs : List Bytes) → has x (xs ++ (x ∷ y ∷ [])) ≡ true
unfolding has
has-first x y [] = rw (list_eq_refl x) refl
has-first x y (z ∷ xs) = elim (Bool-cases (list_eq x z)) [
  | inl same ↦ rw same refl
  | inr apart ↦ rw apart (has-first x y xs)
]

disk_entry :
    (ds : List Bytes) (found : Option (Entry × Bytes)) (v : Bytes)
    → not_deleted ds found ≡ some v
    → (entry : Entry) × (found ≡ some (entry, v))
unfolding not_deleted
disk_entry ds none v e = cc e
disk_entry ds (some (entry, value)) v e = elim (Bool-cases (has entry.0 ds)) [
  | inl gone ↦ absurd (cc (rw gone at e))
  | inr kept ↦ (entry, ap (λ (x : Bytes). some (entry, x)) (some_injective (rw kept at e)))
]

-- With the entry of an outpoint marked for deletion, the outpoint is gone and the others are as before.
marked_gone :
    (env : Env) (ds : List Bytes) (k : Bytes) (entry : Entry) (v : Bytes)
    → stored env (take 32 k) (entries_at env k) ≡ some (entry, v)
    → on_disk env (ds ++ (entry.0 ∷ udb_key_of entry ∷ [])) k ≡ none
unfolding on_disk not_deleted
marked_gone env ds k entry v e = rw (e, has-first entry.0 (udb_key_of entry) ds) refl

marked_other :
    (env : Env) (ds : List Bytes) (k other : Bytes) (entry : Entry) (v : Bytes)
    → IsUtxoDb env
    → length k ≡ 36
    → length other ≡ 36
    → list_eq other k ≡ false
    → stored env (take 32 k) (entries_at env k) ≡ some (entry, v)
    → on_disk env (ds ++ (entry.0 ∷ udb_key_of entry ∷ [])) other ≡ on_disk env ds other
marked_other env ds k other entry v db lk lo apart e =
    on_disk-append env ds (entry.0 ∷ udb_key_of entry ∷ []) other (λ found w f.
      let under = found-Under env other found w db f in
      let (rest, h) = starts_h env other found lo under.0 in
      (
        not_key found (found-Under env k entry v db e) under,
        (rw h (unfold udb_key_of list_eq in refl), tt),
      ))
  where
    not_key :
        (found : Entry)
        → Under env (prefix_of k) entry
          × (is_hash (take 32 k) (env.fs_tx_hash (tx_num_of entry.0)) ≡ true)
        → Under env (prefix_of other) found
          × (is_hash (take 32 other) (env.fs_tx_hash (tx_num_of found.0)) ≡ true)
        → list_eq found.0 entry.0 ≡ false
    not_key found at_k at_other = elim (Bool-cases (list_eq found.0 entry.0)) [
      | inr differ ↦ differ
      | inl same ↦
          let it : k ≡ other =
            same_outpoint env k other entry found lk lo at_k at_other
              (sym (list_eq→eq found.0 entry.0 same)) in
          absurd (cc (apart, ap (λ (x : Bytes). list_eq other x) it, list_eq_refl other))
    ]

outpoint_parts :
    (h : Bytes) (idx : ℕ)
    → length h ≡ 32
    → (length (h ++ to_le 4 idx) ≡ 36)
      × (take 32 (h ++ to_le 4 idx) ≡ h)
      × (drop 32 (h ++ to_le 4 idx) ≡ to_le 4 idx)
outpoint_parts h idx l = (
  omega (arith, length-append h (to_le 4 idx), length-to_le 4 idx),
  rw l at (take-append h (to_le 4 idx)),
  rw l at (drop-append h (to_le 4 idx)),
)

stored_at :
    (env : Env) (h : Bytes) (idx : ℕ)
    → length h ≡ 32
    → stored env h (env.iterator (hdb_prefix h (to_le 4 idx)))
      ≡ stored env (take 32 (h ++ to_le 4 idx)) (entries_at env (h ++ to_le 4 idx))
stored_at env h idx l =
    let (_, front, back) = outpoint_parts h idx l in
    sym (
      ap (λ (x : Bytes). stored env x (env.iterator (hdb_prefix x (drop 32 (h ++ to_le 4 idx)))))
        front
      ∙ ap (λ (x : Bytes). stored env h (env.iterator (hdb_prefix h x))) back)

spend_from_cache :
    (env : Env) (h : Bytes) (idx : ℕ) (v : Bytes) (u : Utxos)
    → idx < 256 ^ 4
    → 0 < length v
    → get (h ++ to_le 4 idx) u.utxo_cache ≡ some v
    → spend_utxo env h idx u
      ≡ ok (v, record u { utxo_cache = remove (h ++ to_le 4 idx) u.utxo_cache })
unfolding spend_utxo pack_le_uint truthy spend_cached
spend_from_cache env h idx [] u small full e = absurd (omega arith)
spend_from_cache env h idx (b ∷ bs) u small full e = rw (lt→ltb idx (256 ^ 4) small, e)

spend_from_db :
    (env : Env) (h : Bytes) (idx : ℕ) (entry : Entry) (v : Bytes) (u : Utxos)
    → idx < 256 ^ 4
    → IsUtxoDb env
    → get (h ++ to_le 4 idx) u.utxo_cache ≡ none
    → stored env h (env.iterator (hdb_prefix h (to_le 4 idx))) ≡ some (entry, v)
    → spend_utxo env h idx u
      ≡ ok (v, marked entry (record u { utxo_cache = remove (h ++ to_le 4 idx) u.utxo_cache }))
unfolding spend_utxo pack_le_uint truthy spend_cached
spend_from_db env h idx entry v u small db missing e =
    let p : Bytes = hdb_prefix h (to_le 4 idx) in
    rw (lt→ltb idx (256 ^ 4) small, missing)
      (spend_candidate-stored env h (env.iterator p) entry v
        (record u { utxo_cache = remove (h ++ to_le 4 idx) u.utxo_cache })
        (All-IsKnown env p (env.iterator p) (db p)) e)

removed_cache :
    (env : Env) (u : Utxos) (view : View) (k : Bytes)
    → Holds env u view
    → on_disk env u.db_deletes k ≡ none
    → Holds env (record u { utxo_cache = remove k u.utxo_cache }) (erase k view)
unfolding erase
removed_cache env u view k holds clear other l = elim (Bool-cases (list_eq other k)) [
  | inl same ↦
      let gone : get other (remove k u.utxo_cache) ≡ none =
        get-remove k other u.utxo_cache ∙ rw same refl in
      inl (gone ∙ rw same refl, ap (on_disk env u.db_deletes) (list_eq→eq other k same) ∙ clear)
  | inr apart ↦
      let kept : get other (remove k u.utxo_cache) ≡ get other u.utxo_cache =
        get-remove k other u.utxo_cache ∙ rw apart refl in
      elim (holds other l) [
        | inl (cached, disk) ↦ inl (kept ∙ cached ∙ rw apart refl, disk)
        | inr (cached, disk) ↦ inr (kept ∙ cached, disk ∙ rw apart refl)
      ]
]

marked_entry :
    (env : Env) (u : Utxos) (view : View) (k : Bytes) (entry : Entry) (v : Bytes)
    → IsUtxoDb env
    → length k ≡ 36
    → Holds env u view
    → stored env (take 32 k) (entries_at env k) ≡ some (entry, v)
    → Holds env (marked entry (record u { utxo_cache = remove k u.utxo_cache })) (erase k view)
unfolding erase
marked_entry env u view k entry v db lk holds e other l = elim (Bool-cases (list_eq other k)) [
  | inl same ↦
      let gone : get other (remove k u.utxo_cache) ≡ none =
        get-remove k other u.utxo_cache ∙ rw same refl in
      inl (
        gone ∙ rw same refl,
        ap (on_disk env (u.db_deletes ++ (entry.0 ∷ udb_key_of entry ∷ [])))
              (list_eq→eq other k same)
            ∙ marked_gone env u.db_deletes k entry v e,
      )
  | inr apart ↦
      let kept : get other (remove k u.utxo_cache) ≡ get other u.utxo_cache =
        get-remove k other u.utxo_cache ∙ rw apart refl in
      let disk_kept = marked_other env u.db_deletes k other entry v db lk l apart e in
      elim (holds other l) [
        | inl (cached, disk) ↦ inl (kept ∙ cached ∙ rw apart refl, disk_kept ∙ disk)
        | inr (cached, disk) ↦ inr (kept ∙ cached, disk_kept ∙ disk ∙ rw apart refl)
      ]
]

-- Where the cache and the database hold a map that has a value for an outpoint, `spend_utxo` returns
-- that value, whichever of the two holds it and whatever other candidates share the compressed hash,
-- and leaves a cache and pending deletes that hold the map without the outpoint.
pub spend_utxo-Holds :
    (env : Env) (u : Utxos) (view : View) (h : Bytes) (idx : ℕ) (v : Bytes)
    → IsUtxoDb env
    → Holds env u view
    → length h ≡ 32
    → idx < 256 ^ 4
    → 0 < length v
    → view (h ++ to_le 4 idx) ≡ some v
    → (after : Utxos) × (spend_utxo env h idx u ≡ ok (v, after))
      × Holds env after (erase (h ++ to_le 4 idx) view)
unfolding on_disk
spend_utxo-Holds env u view h idx v db holds l small full e =
    let k : Bytes = h ++ to_le 4 idx in
    let (lk, _, _) = outpoint_parts h idx l in
    elim (holds k lk) [
      | inl (cached, disk) ↦ (
        record u { utxo_cache = remove k u.utxo_cache },
        spend_from_cache env h idx v u small full (cached ∙ e),
        removed_cache env u view k holds disk,
      )
      | inr (missing, disk) ↦
          let (entry, found) =
            disk_entry u.db_deletes (stored env (take 32 k) (entries_at env k)) v (disk ∙ e) in
          let there : stored env h (env.iterator (hdb_prefix h (to_le 4 idx))) ≡ some (entry, v) =
            stored_at env h idx l ∙ found in
          (
            marked entry (record u { utxo_cache = remove k u.utxo_cache }),
            spend_from_db env h idx entry v u small db missing there,
            marked_entry env u view k entry v db lk holds found,
          )
    ]
