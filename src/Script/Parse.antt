-- ===== src/Script/Parse.antt =====
-- The items of a script, and every walk of Script as a fold over them.
use mathlib.Core.List.{foldl}
use rxin_dexer.Prelude.{
  ℕ, zero, suc, ◌+◌, ◌≤◌, ◌<◌, ◌≡◌, ◌≢◌, refl, sym, ap, ◌∙◌, List, [], ◌∷◌, ◌++◌, arith, ltb,
  length, drop, Bool-cases, inl, inr, ◌⊎◌, ltb→lt, ltb→le, lt→ltb, le→ltb, All, if◌then◌else◌,
  drop-none,
}
use rxin_dexer.Prelude.Result.{Error, Result, ok, err, out_of_fuel, ◌>>=◌, Result-cases}
use rxin_dexer.Util.{Bytes}
use rxin_dexer.Util.Slices.{drop-known, known-fits}
use rxin_dexer.Script.{while_ops}
use rxin_dexer.Script.Grammar.{Item, push, ref, plain, encode, decode}
use rxin_dexer.Script.Decode.{IsItem, Decoded, decode-encode, decode-Decoded}

abbrev pub Placed : Type 0
Placed = ℕ × Item

-- The items from the offset `n` on, each with its offset.
unfoldable pub parse_from : ℕ → Bytes → ℕ → Result (List Placed)
parse_from zero s n = if ltb n (length s) then err out_of_fuel else ok []
parse_from (suc fuel) s n =
    if ltb n (length s)
    then (do (it, m) ← decode s n; rest ← parse_from fuel s m; ok ((n, it) ∷ rest))
    else ok []

unfoldable pub parse : Bytes → Result (List Placed)
unfolding parse_from
parse s = parse_from (length s) s 0

abbrev pub encode_all : List Item → Bytes
encode_all [] = []
encode_all (it ∷ items) = encode it ++ encode_all items

abbrev pub place : ℕ → List Item → List Placed
place n [] = []
place n (it ∷ items) = (n, it) ∷ place (n + length (encode it)) items

-- A walk whose round decodes an item and acts on it is a fold of the act over the items.
module _ {S : Type 0} (round : Bytes → ℕ → S → Result (S × ℕ)) (act : S → Placed → S)
    (round-decode : (s : Bytes) (n : ℕ) (st : S)
      → round s n st ≡ (decode s n >>= λ (it, m). ok (act st (n, it), m))) where
  -- One round and what follows, given that the loop from the next offset on is such a fold.
  round_step :
      (fuel : ℕ) (s : Bytes) (n : ℕ) (st : S) (r : Result (Item × ℕ))
      → ((m : ℕ) (st' : S)
          → while_ops round fuel s m st'
            ≡ (parse_from fuel s m >>= λ items. ok (foldl act st' items)))
      → (r >>= (λ (it, m). ok (act st (n, it), m)) >>= λ (st', m). while_ops round fuel s m st') ≡ (
          r >>= (λ (it, m). parse_from fuel s m >>= λ rest. ok ((n, it) ∷ rest)) >>= λ items.
          ok (foldl act st items))
  round_step fuel s n st (err e) ih = refl
  round_step fuel s n st (ok (it, m)) ih =
      ih m (act st (n, it))
      ∙ elim (Result-cases (parse_from fuel s m)) [ inl (items, e) ↦ rw e | inr (e, p) ↦ rw p ]

  pub while_ops-parse_from :
      (fuel : ℕ) (s : Bytes) (n : ℕ) (st : S)
      → while_ops round fuel s n st ≡ (parse_from fuel s n >>= λ items. ok (foldl act st items))
  unfolding while_ops parse_from
  while_ops-parse_from zero s n st = elim (Bool-cases (ltb n (length s))) [
    | inl e ↦ rw e
    | inr e ↦ rw e
  ]
  while_ops-parse_from (suc fuel) s n st = elim (Bool-cases (ltb n (length s))) [
    | inl e ↦
        rw (e, round-decode s n st)
          (round_step fuel s n st (decode s n) (λ m st'. while_ops-parse_from fuel s m st'))
    | inr e ↦ rw e
  ]

-- What a result of `parse_from` means: the items encode the rest of the script, or an exception.
abbrev Parsed : Bytes → ℕ → Result (List Placed) → Type 0
Parsed s n (ok items) =
    (its : List Item) × All IsItem its × (items ≡ place n its) × (drop n s ≡ encode_all its)
Parsed s n (err e) = e ≢ out_of_fuel

encode_pos : (it : Item) → 0 < length (encode it)
unfolding encode
encode_pos (push op len bytes) = omega arith
encode_pos (ref op bytes) = omega arith
encode_pos (plain op) = omega arith

parse_step :
    (fuel : ℕ) (s : Bytes) (n : ℕ) (r : Result (Item × ℕ))
    → n < length s
    → Decoded s n r
    → ((m : ℕ) → length s ≤ m + fuel → m ≤ length s → Parsed s m (parse_from fuel s m))
    → length s ≤ n + suc fuel
    → Parsed s n (r >>= λ (it, m). parse_from fuel s m >>= λ rest. ok ((n, it) ∷ rest))
parse_step fuel s n (err e) lt h ih f = h
parse_step fuel s n (ok (it, m)) lt (w, e, em, fits) ih f =
    go (parse_from fuel s m) (ih m (omega (arith, encode_pos it)) fits)
  where
    go : (p : Result (List Placed)) → Parsed s m p → Parsed s n (p >>= λ rest. ok ((n, it) ∷ rest))
    go (err e) q = q
    go (ok items) (its, ws, ei, d) =
        (it ∷ its, (w, ws), rw (ei, em), e ∙ ap (λ (t : Bytes). encode it ++ t) d)

parse_from-Parsed :
    (fuel : ℕ) (s : Bytes) (n : ℕ)
    → length s ≤ n + fuel
    → n ≤ length s
    → Parsed s n (parse_from fuel s n)
unfolding parse_from
parse_from-Parsed zero s n f h =
    rw (le→ltb n (length s) (omega arith)) ([], tt, refl, drop-none s n (omega arith))
parse_from-Parsed (suc fuel) s n f h = elim (Bool-cases (ltb n (length s))) [
  | inl e ↦
      let lt : n < length s = ltb→lt _ _ e in
      rw e
        (parse_step fuel s n (decode s n) lt (decode-Decoded s n lt) (parse_from-Parsed fuel s) f)
  | inr e ↦ rw e ([], tt, refl, drop-none s n (ltb→le _ _ e))
]

-- Where the items of the grammar make up the rest of the script, `parse_from` finds them.
parse_from-encode_all :
    (fuel : ℕ) (its : List Item) (s : Bytes) (n : ℕ)
    → length s ≤ n + fuel
    → n ≤ length s
    → All IsItem its
    → drop n s ≡ encode_all its
    → parse_from fuel s n ≡ ok (place n its)
unfolding parse_from
parse_from-encode_all zero [] s n f h ws e = rw (le→ltb n (length s) (omega arith))
parse_from-encode_all zero (it ∷ its) s n f h ws e =
    absurd (omega (arith, encode_pos it, known-fits s (encode it) (encode_all its) n h e))
parse_from-encode_all (suc fuel) [] s n f h ws e =
    let k : n + 0 + 0 ≡ length s = known-fits s [] [] n h e in
    rw (le→ltb n (length s) (omega arith))
parse_from-encode_all (suc fuel) (it ∷ its) s n f h ws e =
    let k : n + length (encode it) + length (encode_all its) ≡ length s =
      known-fits s (encode it) (encode_all its) n h e in
    let p : 0 < length (encode it) = encode_pos it in
    let lt : n < length s = omega arith in
    let m : ℕ = n + length (encode it) in
    rw (
      lt→ltb n (length s) lt,
      decode-encode s n it (encode_all its) lt ws.0 e,
      parse_from-encode_all fuel its s m (omega arith) (omega arith) ws.1
          (drop-known s (encode it) (encode_all its) n e),
    )

-- The parse of a script that the grammar describes is its items, each at its place.
pub parse-encode_all :
    (its : List Item) → All IsItem its → parse (encode_all its) ≡ ok (place 0 its)
unfolding parse
parse-encode_all its ws =
    parse_from-encode_all (length (encode_all its)) its (encode_all its) 0 (omega arith)
      (omega arith) ws refl

-- Whatever the script, its parse gives the items that encode it, or an exception.
pub parse_cases :
    (s : Bytes)
    → ((its : List Item) × All IsItem its × (encode_all its ≡ s) × (parse s ≡ ok (place 0 its)))
      ⊎ ((e : Error) × (parse s ≡ err e) × (e ≢ out_of_fuel))
unfolding parse
parse_cases s =
    go (parse_from (length s) s 0) refl
      (parse_from-Parsed (length s) s 0 (omega arith) (omega arith))
  where
    go :
        (r : Result (List Placed))
        → parse_from (length s) s 0 ≡ r
        → Parsed s 0 r
        → ((its : List Item) × All IsItem its
            × (encode_all its ≡ s)
            × (parse_from (length s) s 0 ≡ ok (place 0 its)))
          ⊎ ((e : Error) × (parse_from (length s) s 0 ≡ err e) × (e ≢ out_of_fuel))
    go (ok items) p (its, ws, ei, d) = inl (its, ws, sym d, p ∙ ap ok ei)
    go (err e) p h = inr (e, p, h)

-- The same bytes are not both well-formed and refused.
pub not_described :
    (s : Bytes) (e : Error) (its : List Item)
    → parse s ≡ err e
    → All IsItem its
    → encode_all its ≢ s
not_described s e its p ws q = cc (rw q at (parse-encode_all its ws))
