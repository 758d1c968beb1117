-- ===== src/BlockProcessor/Connect/Maps.antt =====
-- How insertions and removals on maps from outpoints undo one another.
use mathlib.Core.Path.{subst, fun_ext}
use rxin_dexer.Prelude.{
  ◌≡◌, refl, sym, ap, ◌∙◌, false, none, some, List, [], ◌∷◌, list_eq, list_eq→eq, list_eq_refl,
  list_eq_sym, Bool-cases, inl, inr, length,
}
use rxin_dexer.Util.{Bytes}
use rxin_dexer.BlockProcessor.View.{View, Entry, insert, erase}
use rxin_dexer.BlockProcessor.Connect.{insert_all, erase_all, Fresh, IsSized}

pub insert_at : (k v : Bytes) (view : View) → insert k v view k ≡ some v
unfolding insert
insert_at k v view = rw (list_eq_refl k) refl

-- A key that is absent behind an insertion is another key, and was absent before.
insert_absent :
    (k v other : Bytes) (view : View)
    → insert k v view other ≡ none
    → (list_eq other k ≡ false) × (view other ≡ none)
unfolding insert
insert_absent k v other view e = elim (Bool-cases (list_eq other k)) [
  | inl same ↦ absurd (cc (rw same at e))
  | inr apart ↦ (apart, rw apart at e)
]

insert_comm :
    (k v k' v' : Bytes) (view : View)
    → list_eq k' k ≡ false
    → insert k' v' (insert k v view) ≡ insert k v (insert k' v' view)
unfolding insert
insert_comm k v k' v' view differ = fun_ext λ x. elim (Bool-cases (list_eq x k)) [
  | inr apart ↦ rw apart refl
  | inl same ↦
      let other : list_eq x k' ≡ false =
        ap (λ (y : Bytes). list_eq y k') (list_eq→eq x k same) ∙ list_eq_sym k k' ∙ differ in
      rw (same, other) refl
]

-- The first of several insertions of new keys can as well be the last.
pub Fresh-first :
    (entries : List Entry) (k v : Bytes) (view : View)
    → Fresh view ((k, v) ∷ entries)
    → (insert_all entries (insert k v view) ≡ insert k v (insert_all entries view))
      × (insert_all entries view k ≡ none)
      × Fresh view entries
unfolding insert_all
Fresh-first [] k v view (e, fresh) = (refl, e, tt)
Fresh-first ((k', v') ∷ entries) k v view (e, (e', fresh)) =
    let (differ, absent) = insert_absent k v k' view e' in
    let comm = insert_comm k v k' v' view differ in
    let still : insert k' v' view k ≡ none = insert_other k k' v' view differ e in
    let (moved, gone, below) =
      Fresh-first entries k v (insert k' v' view)
        (still, subst (λ (w : View). Fresh w entries) comm fresh) in
    (ap (insert_all entries) comm ∙ moved, gone, (absent, below))
  where
    insert_other :
        (k k' v' : Bytes) (view : View)
        → list_eq k' k ≡ false
        → view k ≡ none
        → insert k' v' view k ≡ none
    insert_other k k' v' view differ e =
        unfold insert in let other : list_eq k k' ≡ false = list_eq_sym k k' ∙ differ in rw other e

pub erase-insert : (k v : Bytes) (view : View) → view k ≡ none → erase k (insert k v view) ≡ view
unfolding insert erase
erase-insert k v view e = fun_ext λ x. elim (Bool-cases (list_eq x k)) [
  | inr apart ↦ rw apart refl
  | inl same ↦ rw same (sym (ap view (list_eq→eq x k same) ∙ e))
]

pub insert-erase : (k v : Bytes) (view : View) → view k ≡ some v → insert k v (erase k view) ≡ view
unfolding insert erase
insert-erase k v view e = fun_ext λ x. elim (Bool-cases (list_eq x k)) [
  | inr apart ↦ rw apart refl
  | inl same ↦ rw same (sym (ap view (list_eq→eq x k same) ∙ e))
]

pub erase_at : (k : Bytes) (view : View) → erase k view k ≡ none
unfolding erase
erase_at k view = rw (list_eq_refl k) refl

pub erase-IsSized : (k : Bytes) (view : View) → IsSized view → IsSized (erase k view)
unfolding erase
erase-IsSized k view sized x v e = elim (Bool-cases (list_eq x k)) [
  | inl same ↦ absurd (cc (rw same at e))
  | inr apart ↦ sized x v (rw apart at e)
]

pub erase_all-IsSized : (ks : List Bytes) (view : View) → IsSized view → IsSized (erase_all ks view)
unfolding erase_all
erase_all-IsSized [] view sized = sized
erase_all-IsSized (k ∷ ks) view sized =
    erase_all-IsSized ks (erase k view) (erase-IsSized k view sized)

pub insert-IsSized :
    (k v : Bytes) (view : View) → length v ≡ 56 → IsSized view → IsSized (insert k v view)
unfolding insert
insert-IsSized k v view l sized x w e = elim (Bool-cases (list_eq x k)) [
  | inl same ↦ let it : v ≡ w = cc (rw same at e) in ap length (sym it) ∙ l
  | inr apart ↦ sized x w (rw apart at e)
]
