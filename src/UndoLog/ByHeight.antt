-- ===== src/UndoLog/ByHeight.antt =====
-- Sorting the undo records by height keeps what they hold.
use rxin_dexer.Prelude.{
  ℕ, ◌≡◌, ◌≢◌, refl, ◌∙◌, Bool, true, false, ◌||◌, List, [], ◌∷◌, ◌==◌, leb, if◌then◌else◌,
  Bool-cases, inl, inr, arith,
}
use rxin_dexer.Undo.{UndoEntry}
use rxin_dexer.UndoLog.{insert_height, by_height}
use rxin_dexer.UndoLog.Recorded.{entries_at, AreFilled}
use rxin_dexer.UndoLog.Puts.{has_height, DistinctHeights}

abbrev Cache : Type 0
Cache = List (ℕ × List UndoEntry)

has_height-insert_height :
    (k h : ℕ) (es : List UndoEntry) (cache : Cache)
    → has_height k (insert_height (h, es) cache) ≡ (h == k || has_height k cache)
unfolding has_height insert_height
has_height-insert_height k h es [] = refl
has_height-insert_height k h es ((h', es') ∷ cache) =
    ground (arith, has_height-insert_height k h es cache)

insert_height-DistinctHeights :
    (h : ℕ) (es : List UndoEntry) (cache : Cache)
    → has_height h cache ≡ false
    → DistinctHeights cache
    → DistinctHeights (insert_height (h, es) cache)
unfolding has_height insert_height
insert_height-DistinctHeights h es [] fresh d = (refl, tt)
insert_height-DistinctHeights h es ((h', es') ∷ cache) fresh (apart, d) =
    elim (Bool-cases (leb h h')) [
      | inl e ↦ rw e (fresh, (apart, d))
      | inr e ↦
          let other : (h == h') ≡ false = ground arith in
          let later : has_height h cache ≡ false = ground arith in
          rw e (
            rw (has_height-insert_height h' h es cache, other) apart,
            insert_height-DistinctHeights h es cache later d,
          )
    ]

insert_height-AreFilled :
    (h : ℕ) (es : List UndoEntry) (cache : Cache)
    → es ≢ []
    → AreFilled cache
    → AreFilled (insert_height (h, es) cache)
unfolding insert_height
insert_height-AreFilled h es [] f fs = (f, tt)
insert_height-AreFilled h es ((h', es') ∷ cache) f (f', fs) = elim (Bool-cases (leb h h')) [
  | inl e ↦ rw e (f, (f', fs))
  | inr e ↦ rw e (f', insert_height-AreFilled h es cache f fs)
]

entries_at-insert_height :
    (k h : ℕ) (es : List UndoEntry) (cache : Cache)
    → has_height h cache ≡ false
    → entries_at k (insert_height (h, es) cache) ≡ (if h == k then es else entries_at k cache)
unfolding has_height insert_height entries_at
entries_at-insert_height k h es [] fresh = refl
entries_at-insert_height k h es ((h', es') ∷ cache) fresh =
    ground (arith, entries_at-insert_height k h es cache)

pub has_height-by_height :
    (sorted : Bool) (k : ℕ) (cache : Cache)
    → has_height k (by_height sorted cache) ≡ has_height k cache
unfolding has_height by_height
has_height-by_height false k cache = refl
has_height-by_height true k [] = refl
has_height-by_height true k ((h, es) ∷ cache) =
    has_height-insert_height k h es (by_height true cache)
    ∙ rw (has_height-by_height true k cache) refl

pub by_height-DistinctHeights :
    (sorted : Bool) (cache : Cache)
    → DistinctHeights cache
    → DistinctHeights (by_height sorted cache)
unfolding by_height
by_height-DistinctHeights false cache d = d
by_height-DistinctHeights true [] d = d
by_height-DistinctHeights true ((h, es) ∷ cache) (fresh, d) =
    insert_height-DistinctHeights h es (by_height true cache)
      (has_height-by_height true h cache ∙ fresh) (by_height-DistinctHeights true cache d)

pub by_height-AreFilled :
    (sorted : Bool) (cache : Cache) → AreFilled cache → AreFilled (by_height sorted cache)
unfolding by_height
by_height-AreFilled false cache f = f
by_height-AreFilled true [] f = f
by_height-AreFilled true ((h, es) ∷ cache) (f, fs) =
    insert_height-AreFilled h es (by_height true cache) f (by_height-AreFilled true cache fs)

pub entries_at-by_height :
    (sorted : Bool) (k : ℕ) (cache : Cache)
    → DistinctHeights cache
    → entries_at k (by_height sorted cache) ≡ entries_at k cache
unfolding by_height entries_at
entries_at-by_height false k cache d = refl
entries_at-by_height true k [] d = refl
entries_at-by_height true k ((h, es) ∷ cache) (fresh, d) =
    entries_at-insert_height k h es (by_height true cache)
      (has_height-by_height true h cache ∙ fresh)
    ∙ rw (entries_at-by_height true k cache d) refl
