-- ===== src/UndoLog/Puts.antt =====
-- Where a flush writes its undo information: one record for each height, under a key of its own.
use mathlib.Core.List.{reverse}
use rxin_dexer.Prelude.{
  ℕ, ◌≡◌, ◌≢◌, refl, ◌∙◌, sym, ap, Bool, true, false, ◌||◌, some, List, [], ◌∷◌, ◌++◌, ◌==◌,
  list_eq, list_eq→eq, list_eq_refl, Bool-cases, inl, inr, arith, drop, length, drop-append,
}
use rxin_dexer.Prelude.Result.{ok, ◌>>=◌, >>=-eq-ok}
use rxin_dexer.Util.{Bytes, of_le}
use rxin_dexer.Undo.{UndoEntry, pack_be_uint, encode_undo}
use rxin_dexer.Undo.RoundTrip.{pack_be_uint-value}
use rxin_dexer.Store.{Db, Op, put, key_of, update, write, has_key}
use rxin_dexer.Store.Writes.{write_other}
use rxin_dexer.UndoLog.{
  Undo, append_entry, record_undo, Staged, record_all, undo_key, undo_puts, is_seen,
}
use rxin_dexer.UndoLog.Recorded.{entries_at, AreFilled}

abbrev Cache : Type 0
Cache = List (ℕ × List UndoEntry)

unfoldable pub has_height : ℕ → Cache → Bool
has_height height [] = false
has_height height ((h, entries) ∷ cache) = h == height || has_height height cache

abbrev pub DistinctHeights : Cache → Type 0
DistinctHeights [] = Unit
DistinctHeights ((h, entries) ∷ cache) = (has_height h cache ≡ false) × DistinctHeights cache

has_height-append_entry :
    (height h : ℕ) (entry : UndoEntry) (cache : Cache)
    → has_height height (append_entry h entry cache) ≡ (h == height || has_height height cache)
unfolding has_height append_entry
has_height-append_entry height h entry [] = ground arith
has_height-append_entry height h entry ((h', es) ∷ cache) =
    ground (arith, has_height-append_entry height h entry cache)

append_entry-DistinctHeights :
    (h : ℕ) (entry : UndoEntry) (cache : Cache)
    → DistinctHeights cache
    → DistinctHeights (append_entry h entry cache)
unfolding append_entry has_height
append_entry-DistinctHeights h entry [] d = (refl, tt)
append_entry-DistinctHeights h entry ((h', es) ∷ cache) (fresh, d) = elim (Bool-cases (h' == h)) [
  | inl e ↦ rw e (fresh, d)
  | inr e ↦
      let other : (h == h') ≡ false = ground arith in
      rw e (
        rw (has_height-append_entry h' h entry cache, other) fresh,
        append_entry-DistinctHeights h entry cache d,
      )
]

pub record_all-DistinctHeights :
    (db : Db) (staged : List Staged) (u : Undo)
    → DistinctHeights u.cache
    → DistinctHeights (record_all db staged u).cache
unfolding record_all record_undo
record_all-DistinctHeights db [] u d = d
record_all-DistinctHeights db (s ∷ staged) u d =
    record_all-DistinctHeights db staged (record_undo db s.height (key_of s.op) u)
      (elim (Bool-cases (is_seen s.height (key_of s.op) u.seen)) [
        | inl e ↦ rw e d
        | inr e ↦
            rw e (append_entry-DistinctHeights s.height (key_of s.op, db (key_of s.op)) u.cache d)
      ])

pub entries_at_absent :
    (h : ℕ) (cache : Cache) → has_height h cache ≡ false → entries_at h cache ≡ []
unfolding has_height entries_at
entries_at_absent h [] e = refl
entries_at_absent h ((h', es) ∷ cache) e = ground (arith, entries_at_absent h cache)

pub entries_at-ne-nil :
    (h : ℕ) (cache : Cache) → AreFilled cache → has_height h cache ≡ true → entries_at h cache ≢ []
unfolding has_height entries_at
entries_at-ne-nil h [] f there = cc there
entries_at-ne-nil h ((h', es) ∷ cache) (f, fs) there = elim (Bool-cases (h' == h)) [
  | inl same ↦ rw same f
  | inr other ↦ rw other (entries_at-ne-nil h cache fs (ground arith))
]

module _ (prefix : Bytes) where
  undo_key-bytes :
      (h : ℕ) (k : Bytes)
      → undo_key prefix h ≡ ok k
      → (b : Bytes) × (pack_be_uint 4 h ≡ ok b) × (prefix ++ b ≡ k)
  unfolding undo_key
  undo_key-bytes h k e =
      let (b, p, q) = >>=-eq-ok (pack_be_uint 4 h) (λ c. ok (prefix ++ c)) e in (b, p, cc q)

  -- An undo key begins with the prefix.
  pub undo_key-prefix :
      (h : ℕ) (k : Bytes) → undo_key prefix h ≡ ok k → (b : Bytes) × (prefix ++ b ≡ k)
  undo_key-prefix h k e = let (b, p, q) = undo_key-bytes h k e in (b, q)

  -- Two heights do not share a key.
  undo_key_injective :
      (h h' : ℕ) (k : Bytes) → undo_key prefix h ≡ ok k → undo_key prefix h' ≡ ok k → h ≡ h'
  undo_key_injective h h' k e e' =
      let (b, p, q) = undo_key-bytes h k e in
      let (b', p', q') = undo_key-bytes h' k e' in
      let same : b ≡ b' =
        sym (drop-append prefix b)
        ∙ ap (drop (length prefix)) (q ∙ sym q')
        ∙ drop-append prefix b' in
      let (_, v) = pack_be_uint-value 4 h b p in
      let (_, v') = pack_be_uint-value 4 h' b' p' in
      sym v ∙ ap (λ (c : Bytes). of_le (reverse c)) same ∙ v'

  undo_puts-parts :
      (h : ℕ) (es : List UndoEntry) (cache : Cache) (puts : List Op)
      → undo_puts prefix ((h, es) ∷ cache) ≡ ok puts
      → (key value : Bytes) × (rest : List Op) × (undo_key prefix h ≡ ok key)
        × (encode_undo es ≡ ok value)
        × (undo_puts prefix cache ≡ ok rest)
        × (put key value ∷ rest ≡ puts)
  unfolding undo_puts
  undo_puts-parts h es cache puts e =
      let (key, p, e1) =
        >>=-eq-ok (undo_key prefix h)
          (λ key. encode_undo es >>= λ value.
            undo_puts prefix cache >>= λ rest. ok (put key value ∷ rest))
          e in
      let (value, q, e2) =
        >>=-eq-ok (encode_undo es)
          (λ value. undo_puts prefix cache >>= λ rest. ok (put key value ∷ rest)) e1 in
      let (rest, r, e3) =
        >>=-eq-ok (undo_puts prefix cache) (λ rest. ok (put key value ∷ rest)) e2 in
      (key, value, rest, p, q, r, cc e3)

  -- A key that is the undo key of none of the heights is not written.
  pub undo_puts_miss :
      (cache : Cache) (puts : List Op) (k : Bytes)
      → undo_puts prefix cache ≡ ok puts
      → ((h : ℕ) → has_height h cache ≡ true → undo_key prefix h ≢ ok k)
      → has_key k puts ≡ false
  unfolding has_key has_height undo_puts
  undo_puts_miss [] puts k e other = let none_put : [] ≡ puts = cc e in rw (← none_put) refl
  undo_puts_miss ((h, es) ∷ cache) puts k e other =
      let (key, value, rest, p, q, r, made) = undo_puts-parts h es cache puts e in
      let later : has_key k rest ≡ false =
        undo_puts_miss cache rest k r (λ h' there. other h' (ground (arith, there))) in
      let here : list_eq key k ≡ false = elim (Bool-cases (list_eq key k)) [
        | inr differ ↦ differ
        | inl same ↦ absurd (other h (ground arith) (p ∙ ap ok (list_eq→eq key k same)))
      ] in
      rw (← made, here, later) refl

  -- The key of a height is not written if the height is not among them.
  pub undo_puts_absent :
      (cache : Cache) (puts : List Op) (h : ℕ) (k : Bytes)
      → undo_puts prefix cache ≡ ok puts
      → undo_key prefix h ≡ ok k
      → has_height h cache ≡ false
      → has_key k puts ≡ false
  undo_puts_absent cache puts h k e at absent = undo_puts_miss cache puts k e (λ h' there same.
      let one : h' ≡ h = undo_key_injective h' h k same at in cc (absent, there, one))

  -- And if it is, it gets the entries of the height.
  pub undo_puts_at :
      (cache : Cache) (puts : List Op) (db : Db) (h : ℕ) (k : Bytes)
      → DistinctHeights cache
      → undo_puts prefix cache ≡ ok puts
      → undo_key prefix h ≡ ok k
      → has_height h cache ≡ true
      → (raw : Bytes) × (encode_undo (entries_at h cache) ≡ ok raw) × (write puts db k ≡ some raw)
  unfolding has_height entries_at write
  undo_puts_at [] puts db h k d e at there = cc there
  undo_puts_at ((h', es) ∷ cache) puts db h k (fresh, d) e at there =
      let (key, value, rest, p, q, r, made) = undo_puts-parts h' es cache puts e in
      elim (Bool-cases (h' == h)) [
        | inr other ↦
            let later : has_height h cache ≡ true = ground arith in
            rw (other, ← made)
              (undo_puts_at cache rest (update key (some value) db) h k d r at later)
        | inl same ↦
            let one : h' ≡ h = ground arith in
            let key_same : key ≡ k = cc (p, at, one) in
            let miss : has_key k rest ≡ false =
              undo_puts_absent cache rest h k r at (rw one at fresh) in
            let hit : list_eq key k ≡ true = rw key_same (list_eq_refl k) in
            rw (same, ← made)
              (value, q, write_other rest k (update key (some value) db) miss ∙ rw hit refl)
      ]
