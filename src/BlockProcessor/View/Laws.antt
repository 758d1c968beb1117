-- ===== src/BlockProcessor/View/Laws.antt =====
-- How the operations on the unspent outputs of electrumx/server/block_processor.py change the map that
-- they hold.
use mathlib.Core.Path.{subst}
use rxin_dexer.Prelude.{
  suc, ◌≡◌, refl, sym, ap, ◌∙◌, true, Option, none, some, List, [], ◌∷◌, ◌++◌, inl, inr, arith,
  list_eq, list_eq→eq, length, take, drop, All, Bool-cases, drop-append, some_injective,
  length-take, length-drop, length-append, take-append-drop,
}
use rxin_dexer.Util.{Bytes}
use rxin_dexer.Store.Cache.{set, get-set}
use rxin_dexer.Store.Keys.{Misses, has-append_other}
use rxin_dexer.BlockProcessor.{Env, Utxos, truthy, tx_num_of, udb_key_of, hdb_prefix}
use rxin_dexer.BlockProcessor.View.{
  View, insert, Entry, is_hash, or_next, stored, not_deleted, entries_at, on_disk, Holds, IsUtxoDb,
}

pub absent_on_disk :
    (env : Env) (u : Utxos) (view : View) (k : Bytes)
    → Holds env u view
    → length k ≡ 36
    → view k ≡ none
    → on_disk env u.db_deletes k ≡ none
absent_on_disk env u view k holds l e = elim (holds k l) [
  | inl (cached, disk) ↦ disk
  | inr (cached, disk) ↦ disk ∙ e
]

-- Putting an output that is not there adds it to the map.
pub set-Holds :
    (env : Env) (u : Utxos) (view : View) (k v : Bytes)
    → Holds env u view
    → view k ≡ none
    → Holds env (record u { utxo_cache = set k v u.utxo_cache }) (insert k v view)
unfolding insert
set-Holds env u view k v holds e other l = elim (Bool-cases (list_eq other k)) [
  | inl same ↦ inl (
    get-set k other v u.utxo_cache ∙ rw same refl,
    absent_on_disk env u view other holds l (ap view (list_eq→eq other k same) ∙ e),
  )
  | inr apart ↦
      let at_other = get-set k other v u.utxo_cache ∙ rw apart refl in
      elim (holds other l) [
        | inl (cached, disk) ↦ inl (at_other ∙ cached ∙ rw apart refl, disk)
        | inr (cached, disk) ↦ inr (at_other ∙ cached, disk ∙ rw apart refl)
      ]
]

-- What `stored` finds is one of the entries, and belongs to the transaction.
stored_among :
    (P : Entry → Type 0) (env : Env) (tx_hash : Bytes) (entries : List Entry) (entry : Entry)
    (v : Bytes)
    → All P entries
    → stored env tx_hash entries ≡ some (entry, v)
    → P entry × (is_hash tx_hash (env.fs_tx_hash (tx_num_of entry.0)) ≡ true)
unfolding stored or_next
stored_among P env tx_hash [] entry v all e = cc e
stored_among P env tx_hash (first ∷ entries) entry v (p, all) e =
    elim (Bool-cases (is_hash tx_hash (env.fs_tx_hash (tx_num_of first.0)))) [
      | inr other ↦ stored_among P env tx_hash entries entry v all (rw other at e)
      | inl same ↦
          choose (truthy (env.utxo_db (udb_key_of first))) same
            (stored_among P env tx_hash entries entry v all) (rw same at e)
    ]
  where
    choose :
        (packed : Option Bytes)
        → is_hash tx_hash (env.fs_tx_hash (tx_num_of first.0)) ≡ true
        → (stored env tx_hash entries ≡ some (entry, v)
            → P entry × (is_hash tx_hash (env.fs_tx_hash (tx_num_of entry.0)) ≡ true))
        → or_next first packed (stored env tx_hash entries) ≡ some (entry, v)
        → P entry × (is_hash tx_hash (env.fs_tx_hash (tx_num_of entry.0)) ≡ true)
    choose none same below e = below e
    choose (some packed) same below e =
        let it : first ≡ entry = cc e in
        subst (λ (x : Entry). P x × (is_hash tx_hash (env.fs_tx_hash (tx_num_of x.0)) ≡ true)) it
          (p, same)

-- The prefix under which the entries of an outpoint stand determines its index.
prefix_parts :
    (k : Bytes)
    → length k ≡ 36
    → (length (hdb_prefix (take 32 k) (drop 32 k)) ≡ 9)
      × (drop 5 (hdb_prefix (take 32 k) (drop 32 k)) ≡ drop 32 k)
unfolding hdb_prefix
prefix_parts k l =
    let l4 : length (take 4 (take 32 k)) ≡ 4 =
      omega (arith, length-take 4 (take 32 k), length-take 32 k) in
    let l9 : suc (length (take 4 (take 32 k) ++ drop 32 k)) ≡ 9 =
      omega (arith, length-append (take 4 (take 32 k)) (drop 32 k), length-drop 32 k) in
    (l9, rw l4 at (drop-append (take 4 (take 32 k)) (drop 32 k)))

abbrev pub Under : Env → Bytes → Entry → Type 0
Under env p entry =
    (take (length p) entry.0 ≡ p) × (h : Bytes) × (env.fs_tx_hash (tx_num_of entry.0) ≡ some h)

abbrev pub prefix_of : Bytes → Bytes
prefix_of k = hdb_prefix (take 32 k) (drop 32 k)

-- Entries that two outpoints find with the same key belong to the same outpoint.
pub same_outpoint :
    (env : Env) (k other : Bytes) (a b : Entry)
    → length k ≡ 36
    → length other ≡ 36
    → Under env (prefix_of k) a × (is_hash (take 32 k) (env.fs_tx_hash (tx_num_of a.0)) ≡ true)
    → Under env (prefix_of other) b
      × (is_hash (take 32 other) (env.fs_tx_hash (tx_num_of b.0)) ≡ true)
    → a.0 ≡ b.0
    → k ≡ other
unfolding is_hash
same_outpoint env k other a b lk lo ((pa, ha, fa), same_a) ((pb, hb, fb), same_b) e =
    let (ka, da) = prefix_parts k lk in
    let (kb, db) = prefix_parts other lo in
    let pa' : take 9 a.0 ≡ prefix_of k = rw ka at pa in
    let pb' : take 9 b.0 ≡ prefix_of other = rw kb at pb in
    let prefixes : prefix_of k ≡ prefix_of other = sym pa' ∙ ap (take 9) e ∙ pb' in
    let idx : drop 32 k ≡ drop 32 other = sym da ∙ ap (drop 5) prefixes ∙ db in
    let known_a : ha ≡ take 32 k = list_eq→eq ha (take 32 k) (rw fa at same_a) in
    let known_b : hb ≡ take 32 other = list_eq→eq hb (take 32 other) (rw fb at same_b) in
    let hashes : ha ≡ hb =
      some_injective (sym fa ∙ ap (λ (x : Bytes). env.fs_tx_hash (tx_num_of x)) e ∙ fb) in
    let front : take 32 k ≡ take 32 other = sym known_a ∙ hashes ∙ known_b in
    sym (take-append-drop 32 k)
    ∙ ap (λ (x : Bytes). x ++ drop 32 k) front
    ∙ ap (λ (x : Bytes). take 32 other ++ x) idx
    ∙ take-append-drop 32 other

-- A key of the table "h" is no key that begins otherwise.
pub starts_h :
    (env : Env) (k : Bytes) (a : Entry)
    → length k ≡ 36
    → Under env (prefix_of k) a
    → (rest : Bytes) × (a.0 ≡ 104 ∷ rest)
unfolding hdb_prefix
starts_h env k (key, value) l (p, h, f) = begins key p
  where
    begins :
        (key : Bytes)
        → take (length (104 ∷ (take 4 (take 32 k) ++ drop 32 k))) key
          ≡ 104 ∷ (take 4 (take 32 k) ++ drop 32 k)
        → (rest : Bytes) × (key ≡ 104 ∷ rest)
    begins [] p = cc p
    begins (b ∷ rest) p = (rest, cc p)

-- Deletes of other keys leave what is on disk.
pub on_disk-append :
    (env : Env) (ds more : List Bytes) (k : Bytes)
    → ((entry : Entry) (v : Bytes)
        → stored env (take 32 k) (entries_at env k) ≡ some (entry, v)
        → All (Misses entry.0) more)
    → on_disk env (ds ++ more) k ≡ on_disk env ds k
unfolding on_disk not_deleted
on_disk-append env ds more k misses = at_entry (stored env (take 32 k) (entries_at env k)) misses
  where
    at_entry :
        (found : Option (Entry × Bytes))
        → ((entry : Entry) (v : Bytes) → found ≡ some (entry, v) → All (Misses entry.0) more)
        → not_deleted (ds ++ more) found ≡ not_deleted ds found
    at_entry none m = refl
    at_entry (some (entry, v)) m = rw (has-append_other entry.0 ds more (m entry v refl)) refl

pub found-Under :
    (env : Env) (k : Bytes) (entry : Entry) (v : Bytes)
    → IsUtxoDb env
    → stored env (take 32 k) (entries_at env k) ≡ some (entry, v)
    → Under env (prefix_of k) entry
      × (is_hash (take 32 k) (env.fs_tx_hash (tx_num_of entry.0)) ≡ true)
found-Under env k entry v db e =
    stored_among (Under env (prefix_of k)) env (take 32 k) (entries_at env k) entry v
      (db (prefix_of k)) e

-- A key of one of the tables of references, whose names begin with "r".
abbrev pub IsRefKey : Bytes → Type 0
IsRefKey key = (rest : Bytes) × (key ≡ 114 ∷ rest)

refs-Misses :
    (key rest : Bytes) (ds : List Bytes) → key ≡ 104 ∷ rest → All IsRefKey ds → All (Misses key) ds
refs-Misses key rest [] e tt = tt
refs-Misses key rest (d ∷ ds) e ((tail, r), all) =
    ((rw (e, r) (unfold list_eq in refl)), refs-Misses key rest ds e all)

-- Deletes in the tables of references leave the map.
pub deletes-Holds :
    (env : Env) (u : Utxos) (view : View) (ds : List Bytes)
    → IsUtxoDb env
    → Holds env u view
    → All IsRefKey ds
    → Holds env (record u { db_deletes = u.db_deletes ++ ds }) view
deletes-Holds env u view ds db holds refs k l =
    let same = on_disk-append env u.db_deletes ds k (λ entry v e.
      let (under, _) = found-Under env k entry v db e in
      let (rest, h) = starts_h env k entry l under in refs-Misses entry.0 rest ds h refs) in
    elim (holds k l) [
      | inl (cached, disk) ↦ inl (cached, same ∙ disk)
      | inr (cached, disk) ↦ inr (cached, same ∙ disk)
    ]
