-- ===== src/UndoLog/Recorded.antt =====
-- What the undo information holds after a flush has recorded its writes: for each height the keys
-- written there, each with the value that the database had.
use rxin_dexer.Prelude.{
  ℕ, ◌≡◌, ◌≢◌, refl, ◌∙◌, sym, Bool, true, false, ◌||◌, ◌&&◌, none, some, List, [], ◌∷◌, ◌++◌, ◌==◌,
  if◌then◌else◌, list_eq, list_eq→eq, All, Bool-cases, inl, inr, arith,
}
use rxin_dexer.Util.{Bytes}
use rxin_dexer.Undo.{UndoEntry}
use rxin_dexer.Store.{Db, key_of, has_key}
use rxin_dexer.Store.Writes.{Restores}
use rxin_dexer.UndoLog.{
  Undo, no_undo, is_seen, append_entry, record_undo, Staged, record_all, restore_ops,
}

-- The entries of a height.
unfoldable pub entries_at : ℕ → List (ℕ × List UndoEntry) → List UndoEntry
entries_at height [] = []
entries_at height ((h, entries) ∷ cache) = if h == height then entries else entries_at height cache

-- Whether a key is written at a height.
unfoldable pub is_staged : ℕ → Bytes → List Staged → Bool
is_staged height key [] = false
is_staged height key (s ∷ staged) =
    (s.height == height && list_eq (key_of s.op) key) || is_staged height key staged

pub is_staged-nil : (h : ℕ) (k : Bytes) → is_staged h k [] ≡ false
unfolding is_staged
is_staged-nil h k = refl

pub is_staged-append :
    (h : ℕ) (k : Bytes) (a b : List Staged)
    → is_staged h k (a ++ b) ≡ (is_staged h k a || is_staged h k b)
unfolding is_staged
is_staged-append h k [] b = refl
is_staged-append h k (s ∷ a) b = ground (arith, is_staged-append h k a b)

unfoldable pub has_entry : Bytes → List UndoEntry → Bool
has_entry key [] = false
has_entry key ((k, prev) ∷ entries) = list_eq k key || has_entry key entries

has_entry-append :
    (key : Bytes) (a b : List UndoEntry)
    → has_entry key (a ++ b) ≡ (has_entry key a || has_entry key b)
unfolding has_entry
has_entry-append key [] b = refl
has_entry-append key ((k, prev) ∷ a) b = ground (arith, has_entry-append key a b)

pub entries_at-append_entry :
    (height h : ℕ) (entry : UndoEntry) (cache : List (ℕ × List UndoEntry))
    → entries_at height (append_entry h entry cache)
      ≡ (if h == height then entries_at height cache ++ (entry ∷ []) else entries_at height cache)
unfolding entries_at append_entry
entries_at-append_entry height h entry [] = ground arith
entries_at-append_entry height h entry ((h', es) ∷ cache) =
    ground (arith, entries_at-append_entry height h entry cache)

-- Every pair that was seen has its entry.
abbrev AreRecorded : Undo → Type 0
AreRecorded u = (h : ℕ) (k : Bytes) → is_seen h k u.seen ≡ has_entry k (entries_at h u.cache)

record_undo-AreRecorded :
    (db : Db) (height : ℕ) (key : Bytes) (u : Undo)
    → AreRecorded u
    → AreRecorded (record_undo db height key u)
unfolding record_undo is_seen has_entry
record_undo-AreRecorded db height key u r h k = elim (Bool-cases (is_seen height key u.seen)) [
  | inl e ↦ rw e (r h k)
  | inr e ↦
      let entry : UndoEntry = (key, db key) in
      rw (e, entries_at-append_entry h height entry u.cache)
        (elim (Bool-cases (height == h)) [
          | inl same ↦
              rw (same, has_entry-append k (entries_at h u.cache) (entry ∷ []), r h k)
                (ground arith)
          | inr other ↦ rw (other, r h k) refl
        ])
]

-- Every key that a flush writes at a height has its entry there.
record_all-AreRecorded :
    (db : Db) (staged : List Staged) (u : Undo)
    → AreRecorded u
    → AreRecorded (record_all db staged u)
unfolding record_all
record_all-AreRecorded db [] u r = r
record_all-AreRecorded db (s ∷ staged) u r =
    record_all-AreRecorded db staged (record_undo db s.height (key_of s.op) u)
      (record_undo-AreRecorded db s.height (key_of s.op) u r)

is_seen-record_undo :
    (db : Db) (height : ℕ) (key : Bytes) (u : Undo) (h : ℕ) (k : Bytes)
    → is_seen h k (record_undo db height key u).seen
      ≡ ((height == h && list_eq key k) || is_seen h k u.seen)
unfolding record_undo is_seen
is_seen-record_undo db height key u h k = elim (Bool-cases (is_seen height key u.seen)) [
  | inr e ↦ rw e refl
  | inl e ↦ elim (Bool-cases (height == h && list_eq key k)) [
    | inr other ↦ rw (e, other) refl
    | inl both ↦
        let at_height : height ≡ h = ground arith in
        let same_key : list_eq key k ≡ true = ground arith in
        let at_key : key ≡ k = list_eq→eq key k same_key in
        let seen : is_seen h k u.seen ≡ true = (rw (at_height, at_key) at e) in
        rw (e, both, seen) refl
  ]
]

is_seen-record_all :
    (db : Db) (staged : List Staged) (u : Undo) (h : ℕ) (k : Bytes)
    → is_seen h k (record_all db staged u).seen ≡ (is_seen h k u.seen || is_staged h k staged)
unfolding record_all is_staged
is_seen-record_all db [] u h k = ground arith
is_seen-record_all db (s ∷ staged) u h k =
    is_seen-record_all db staged (record_undo db s.height (key_of s.op) u) h k
    ∙ rw (is_seen-record_undo db s.height (key_of s.op) u h k) (ground arith)

pub has_entry-record_all :
    (db : Db) (staged : List Staged) (h : ℕ) (k : Bytes)
    → has_entry k (entries_at h (record_all db staged no_undo).cache) ≡ is_staged h k staged
unfolding is_seen has_entry entries_at
has_entry-record_all db staged h k =
    sym (record_all-AreRecorded db staged no_undo (λ h k. refl) h k)
    ∙ is_seen-record_all db staged no_undo h k

-- An entry holds the value that the database had.
abbrev pub IsPrevious : Db → UndoEntry → Type 0
IsPrevious db entry = entry.1 ≡ db entry.0

abbrev ArePrevious : Db → Undo → Type 0
ArePrevious db u = (h : ℕ) → All (IsPrevious db) (entries_at h u.cache)

All-snoc :
    {A : Type 0} (P : A → Type 0) (xs : List A) (x : A) → All P xs → P x → All P (xs ++ (x ∷ []))
All-snoc P [] x tt p = (p, tt)
All-snoc P (y ∷ xs) x (q, rest) p = (q, All-snoc P xs x rest p)

record_undo-ArePrevious :
    (db : Db) (height : ℕ) (key : Bytes) (u : Undo)
    → ArePrevious db u
    → ArePrevious db (record_undo db height key u)
unfolding record_undo
record_undo-ArePrevious db height key u r h = elim (Bool-cases (is_seen height key u.seen)) [
  | inl e ↦ rw e (r h)
  | inr e ↦
      let entry : UndoEntry = (key, db key) in
      rw (e, entries_at-append_entry h height entry u.cache)
        (elim (Bool-cases (height == h)) [
          | inl same ↦ rw same (All-snoc (IsPrevious db) (entries_at h u.cache) entry (r h) refl)
          | inr other ↦ rw other (r h)
        ])
]

record_all-ArePrevious :
    (db : Db) (staged : List Staged) (u : Undo)
    → ArePrevious db u
    → ArePrevious db (record_all db staged u)
unfolding record_all
record_all-ArePrevious db [] u r = r
record_all-ArePrevious db (s ∷ staged) u r =
    record_all-ArePrevious db staged (record_undo db s.height (key_of s.op) u)
      (record_undo-ArePrevious db s.height (key_of s.op) u r)

pub entries_at-ArePrevious :
    (db : Db) (staged : List Staged) (h : ℕ)
    → All (IsPrevious db) (entries_at h (record_all db staged no_undo).cache)
unfolding entries_at
entries_at-ArePrevious db staged = record_all-ArePrevious db staged no_undo (λ h. tt)

-- The operations of such entries restore the database, at exactly the keys of the entries.
pub restore_ops-Restores :
    (db : Db) (entries : List UndoEntry)
    → All (IsPrevious db) entries
    → All (Restores db) (restore_ops entries)
restore_ops-Restores db [] tt = tt
restore_ops-Restores db ((k, none) ∷ entries) (p, ps) = (p, restore_ops-Restores db entries ps)
restore_ops-Restores db ((k, some v) ∷ entries) (p, ps) = (p, restore_ops-Restores db entries ps)

pub has_key-restore_ops :
    (k : Bytes) (entries : List UndoEntry) → has_key k (restore_ops entries) ≡ has_entry k entries
unfolding has_key has_entry
has_key-restore_ops k [] = refl
has_key-restore_ops k ((j, none) ∷ entries) = rw (has_key-restore_ops k entries) refl
has_key-restore_ops k ((j, some v) ∷ entries) = rw (has_key-restore_ops k entries) refl

-- No height has an empty list of entries.
abbrev pub AreFilled : List (ℕ × List UndoEntry) → Type 0
AreFilled = All (λ c. c.1 ≢ [])

snoc-ne-nil : (es : List UndoEntry) (entry : UndoEntry) → es ++ (entry ∷ []) ≢ []
snoc-ne-nil [] entry e = cc e
snoc-ne-nil (x ∷ es) entry e = cc e

append_entry-AreFilled :
    (h : ℕ) (entry : UndoEntry) (cache : List (ℕ × List UndoEntry))
    → AreFilled cache
    → AreFilled (append_entry h entry cache)
unfolding append_entry
append_entry-AreFilled h entry [] f = (snoc-ne-nil [] entry, tt)
append_entry-AreFilled h entry ((h', es) ∷ cache) (f, fs) = elim (Bool-cases (h' == h)) [
  | inl e ↦ rw e (snoc-ne-nil es entry, fs)
  | inr e ↦ rw e (f, append_entry-AreFilled h entry cache fs)
]

pub record_all-AreFilled :
    (db : Db) (staged : List Staged) (u : Undo)
    → AreFilled u.cache
    → AreFilled (record_all db staged u).cache
unfolding record_all record_undo
record_all-AreFilled db [] u f = f
record_all-AreFilled db (s ∷ staged) u f =
    record_all-AreFilled db staged (record_undo db s.height (key_of s.op) u)
      (elim (Bool-cases (is_seen s.height (key_of s.op) u.seen)) [
        | inl e ↦ rw e f
        | inr e ↦ rw e (append_entry-AreFilled s.height (key_of s.op, db (key_of s.op)) u.cache f)
      ])
