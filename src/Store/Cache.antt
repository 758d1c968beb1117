-- ===== src/Store/Cache.antt =====
-- A dict with byte-string keys, in its order: the caches of unflushed records that the indexes of
-- electrumx/server keep.
use mathlib.Core.Path.{subst}
use rxin_dexer.Prelude.{
  ◌≡◌, refl, ◌∙◌, sym, ap, true, false, Option, none, some, List, [], ◌∷◌, if◌then◌else◌, list_eq,
  list_eq→eq, list_eq_sym, list_eq_refl, some_injective, All, Bool-cases, inl, inr,
}
use rxin_dexer.Util.{Bytes}

abbrev pub Cache : Type 0 → Type 0
Cache V = List (Bytes × V)

module _ {V : Type 0} where
  -- `cache.get(key)`
  unfoldable pub get : Bytes → Cache V → Option V
  get key [] = none
  get key ((first, value) ∷ rest) = if list_eq key first then some value else get key rest

  -- `cache[key] = value`
  unfoldable pub set : Bytes → V → Cache V → Cache V
  set key value [] = (key, value) ∷ []
  set key value ((first, old) ∷ rest) =
      let below = set key value rest in
      if list_eq key first then (first, value) ∷ rest else (first, old) ∷ below

  -- `cache.pop(key, None)`, without the value it returns.
  unfoldable pub remove : Bytes → Cache V → Cache V
  remove key [] = []
  remove key ((first, value) ∷ rest) =
      let below = remove key rest in if list_eq key first then below else (first, value) ∷ below

  pub get-remove :
      (key other : Bytes) (cache : Cache V)
      → get other (remove key cache) ≡ (if list_eq other key then none else get other cache)
  unfolding get remove
  get-remove key other [] = elim (Bool-cases (list_eq other key)) [
    | inl same ↦ rw same refl
    | inr apart ↦ rw apart refl
  ]
  get-remove key other ((first, old) ∷ rest) = elim (Bool-cases (list_eq key first)) [
    | inr differ ↦ elim (Bool-cases (list_eq other first)) [
      | inr far ↦ rw (differ, far) (get-remove key other rest)
      | inl near ↦ elim (Bool-cases (list_eq other key)) [
        | inr apart ↦ rw (differ, near, apart) refl
        | inl same ↦
            let clash : list_eq key first ≡ true =
              ap (λ (k : Bytes). list_eq k first) (sym (list_eq→eq other key same)) ∙ near in
            absurd (cc (clash, differ))
      ]
    ]
    | inl same ↦
        rw (same, ← list_eq→eq key first same)
          (get-remove key other rest ∙ elim (Bool-cases (list_eq other key)) [
            | inl near ↦ rw near refl
            | inr far ↦ rw far refl
          ])
  ]

  pub get-set :
      (key other : Bytes) (value : V) (cache : Cache V)
      → get other (set key value cache)
        ≡ (if list_eq other key then some value else get other cache)
  unfolding get set
  get-set key other value [] = refl
  get-set key other value ((first, old) ∷ rest) = elim (Bool-cases (list_eq key first)) [
    | inr differ ↦ elim (Bool-cases (list_eq other first)) [
      | inr far ↦ rw (differ, far) (get-set key other value rest)
      | inl near ↦ elim (Bool-cases (list_eq other key)) [
        | inr apart ↦ rw (differ, near, apart) refl
        | inl same ↦
            let clash : list_eq key first ≡ true =
              ap (λ (k : Bytes). list_eq k first) (sym (list_eq→eq other key same)) ∙ near in
            absurd (cc (clash, differ))
      ]
    ]
    | inl same ↦
        rw (same, list_eq→eq key first same)
          (elim (Bool-cases (list_eq other first)) [
            | inl near ↦ rw near refl
            | inr far ↦ rw far refl
          ])
  ]

  -- No key occurs twice.
  abbrev pub AreDistinct : Cache V → Type 0
  AreDistinct [] = Unit
  AreDistinct ((key, value) ∷ rest) = (get key rest ≡ none) × AreDistinct rest

  -- Behind another key a value is found as before.
  pub get-later :
      (first : Bytes) (old : V) (key : Bytes) (rest : Cache V) {value : V}
      → get first rest ≡ none
      → get key rest ≡ some value
      → get key ((first, old) ∷ rest) ≡ some value
  unfolding get
  get-later first old key rest fresh there = elim (Bool-cases (list_eq key first)) [
    | inr apart ↦ rw apart there
    | inl same ↦
        let gone : get key rest ≡ none =
          ap (λ (k : Bytes). get k rest) (list_eq→eq key first same) ∙ fresh in
        absurd (cc (gone, there))
  ]

  pub set-AreDistinct :
      (key : Bytes) (value : V) (cache : Cache V)
      → AreDistinct cache
      → AreDistinct (set key value cache)
  unfolding get set
  set-AreDistinct key value [] d = (refl, tt)
  set-AreDistinct key value ((first, old) ∷ rest) (fresh, d) =
      elim (Bool-cases (list_eq key first)) [
        | inl same ↦ rw same (fresh, d)
        | inr differ ↦
            let other : list_eq first key ≡ false = list_eq_sym first key ∙ differ in
            rw differ
              ((get-set key first value rest ∙ rw other fresh), set-AreDistinct key value rest d)
      ]

  -- What holds of each value that is found holds of all entries, since no key occurs twice.
  pub All-get :
      (P : Bytes × V → Type 0) (cache : Cache V)
      → AreDistinct cache
      → ((key : Bytes) (value : V) → get key cache ≡ some value → P (key, value))
      → All P cache
  unfolding get
  All-get P [] d found = tt
  All-get P ((first, old) ∷ rest) (fresh, d) found = (
    found first old (rw (list_eq_refl first) refl),
    All-get P rest d (λ key value e. found key value (get-later first old key rest fresh e)),
  )

  pub get-All :
      (P : Bytes × V → Type 0) (cache : Cache V) (key : Bytes) (value : V)
      → All P cache
      → get key cache ≡ some value
      → P (key, value)
  unfolding get
  get-All P [] key value all e = cc e
  get-All P ((first, old) ∷ rest) key value (p, all) e = elim (Bool-cases (list_eq key first)) [
    | inr apart ↦ get-All P rest key value all (rw apart at e)
    | inl same ↦
        let v : old ≡ value = some_injective (rw same at e) in
        subst P
          (ap (λ (k : Bytes). (k, old)) (sym (list_eq→eq key first same))
            ∙ ap (λ (w : V). (key, w)) v)
          p
  ]
