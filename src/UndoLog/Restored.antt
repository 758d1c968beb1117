-- ===== src/UndoLog/Restored.antt =====
-- What `backup` of an index leaves, by the keys that belong to a height: a way to say it without the
-- list of the writes.
use rxin_dexer.Prelude.{
  ◌≡◌, refl, ◌∙◌, ℕ, true, ◌⊎◌, inl, inr, none, List, if◌then◌else◌, list_eq, Bool-cases,
}
use rxin_dexer.Util.{Bytes}
use rxin_dexer.Store.{Db}
use rxin_dexer.UndoLog.{Staged}
use rxin_dexer.UndoLog.Recorded.{is_staged}

-- Each key either belongs to the height and has the value from before the flush, or does not belong to
-- it and is as the flush left it, but for the undo record, which is gone.
abbrev pub Restored : (Belongs : Bytes → Type 0) (undo : Bytes) (before flushed after : Db) → Type 0
Restored Belongs undo before flushed after =
    (k : Bytes)
    → (Belongs k × (after k ≡ before k))
      ⊎ ((¬ Belongs k) × (after k ≡ (if list_eq undo k then none else flushed k)))

pub is_staged-Restored :
    (Belongs : Bytes → Type 0) (undo : Bytes) (before flushed after : Db) (h : ℕ)
    (staged : List Staged)
    → ((k : Bytes) → is_staged h k staged ≡ true → Belongs k)
    → ((k : Bytes) → Belongs k → is_staged h k staged ≡ true)
    → ((k : Bytes)
        → after k
          ≡ (if is_staged h k staged then before k else if list_eq undo k then none else flushed k))
    → Restored Belongs undo before flushed after
is_staged-Restored Belongs undo before flushed after h staged to from result k =
    elim (Bool-cases (is_staged h k staged)) [
      | inl there ↦ inl (to k there, result k ∙ rw there refl)
      | inr absent ↦ inr ((λ b. cc (from k b, absent)), result k ∙ rw absent refl)
    ]
