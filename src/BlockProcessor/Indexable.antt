-- ===== src/BlockProcessor/Indexable.antt =====
-- `_output_indexable` of electrumx/server/block_processor.py against the parses that the two callers
-- make of the same script afterwards.
use rxin_dexer.Prelude.{
  ℕ, zero, suc, ◌+◌, ◌≡◌, ◌≢◌, refl, true, false, List, ◌⊎◌, inl, inr, arith, ltb, ◌==◌,
  if◌then◌else◌, length, Bool-cases, All, some, get_elem?, Option-cases,
}
use rxin_dexer.Prelude.Result.{
  Result, ok, err, script_error, index_error, ◌>>=◌, >>=-eq-ok, from_option,
}
use rxin_dexer.Util.{Bytes}
use rxin_dexer.Script.{is_unspendable_legacy, zero_refs, get_push_input_refs, except_script}
use rxin_dexer.Script.Template.{get_stateseperator_index, sep_loop, sep_operand}
use rxin_dexer.Script.Grammar.{Item, decode, decode_operand}
use rxin_dexer.Script.Decode.{IsItem}
use rxin_dexer.Script.Parse.{
  Placed, parse, parse_from, place, encode_all, parse_cases, not_described,
}
use rxin_dexer.Script.Walks.{
  refs_of, zeroed, has_checksig, zero_refs_total, zero_refs-described, refs-described,
}
use rxin_dexer.BlockProcessor.{is_parse_error, except_parse, output_indexable}

-- One round moves on by the item at its offset.
sep_operand-decode :
    (s : Bytes) (op n : ℕ) → sep_operand s op n ≡ (decode_operand s op n >>= λ (it, m). ok m)
unfolding sep_operand decode_operand
sep_operand-decode s op n = ground arith

unfoldable Returns : Result ℕ → Type 0
Returns r = (i : ℕ) × (r ≡ ok i)

head_of :
    (s : Bytes) (n : ℕ) (it : Item) (m : ℕ)
    → decode s n ≡ ok (it, m)
    → (op : ℕ) × (get_elem? s n ≡ some op) × (decode_operand s op (n + 1) ≡ ok (it, m))
unfolding decode
head_of s n it m read = elim (Option-cases (get_elem? s n)) [
  | inl (op, there) ↦ (op, there, rw there at read)
  | inr none_there ↦ cc (rw none_there at read)
]

sep_step :
    (s : Bytes) (n op : ℕ) (it : Item) (m : ℕ) (next : ℕ → Result ℕ)
    → get_elem? s n ≡ some op
    → decode s n ≡ ok (it, m)
    → Returns (next m)
    → Returns (
        from_option (get_elem? s n) index_error >>= λ op.
        let rest = sep_operand s op (n + 1) >>= next in if op == 189 then ok n else rest)
unfolding Returns decode
sep_step s n op it m next there read (i, e) =
    let at_op : decode_operand s op (n + 1) ≡ ok (it, m) = rw there at read in
    elim (Bool-cases (op == 189)) [
      | inl sep ↦ rw (there, sep) (n, refl)
      | inr other ↦ rw (there, other, sep_operand-decode s op (n + 1), at_op) (i, e)
    ]

-- Where the rest of a script parses, the search for the state separator returns.
sep_loop-parse_from :
    (fuel : ℕ) (s : Bytes) (n : ℕ) (items : List Placed)
    → parse_from fuel s n ≡ ok items
    → Returns (sep_loop fuel s n)
unfolding Returns sep_loop parse_from
sep_loop-parse_from zero s n items p = elim (Bool-cases (ltb n (length s))) [
  | inl more ↦ cc (rw more at p)
  | inr done ↦ rw done (0, refl)
]
sep_loop-parse_from (suc fuel) s n items p = elim (Bool-cases (ltb n (length s))) [
  | inr done ↦ rw done (0, refl)
  | inl more ↦
      let ((it, m), read, after) = >>=-eq-ok (decode s n) _ (rw more at p) in
      let (rest, below, _) = >>=-eq-ok (parse_from fuel s m) _ after in
      let (op, there, _) = head_of s n it m read in
      rw more (
        sep_step s n op it m (λ k. sep_loop fuel s k) there read
          (sep_loop-parse_from fuel s m rest below))
]

sep_index-described :
    (s : Bytes) (items : List Placed) → parse s ≡ ok items → Returns (get_stateseperator_index s)
unfolding Returns get_stateseperator_index except_script parse
sep_index-described s items p =
    let (i, e) = sep_loop-parse_from (length s) s 0 items p in (i, rw e refl)

returned : (r : Result ℕ) → Returns r → (i : ℕ) × (r ≡ ok i)
unfolding Returns
returned r f = f

-- What `_output_indexable` being true promises about the later parses of the script.
abbrev pub Parses : Bytes → List Item → Type 0
Parses s its =
    (zero_refs s ≡ ok (if has_checksig its then zeroed its else s))
    × (get_push_input_refs s ≡ ok (refs_of its))
    × (i : ℕ) × (get_stateseperator_index s ≡ ok i)

indexable_parsed :
    (s z : Bytes)
    → is_unspendable_legacy s ≡ false
    → zero_refs s ≡ ok z
    → output_indexable s ≡ ok true
unfolding output_indexable except_parse
indexable_parsed s z spendable e = rw (spendable, e)

unindexable :
    (s : Bytes)
    → (is_unspendable_legacy s ≡ true) ⊎ (zero_refs s ≡ err script_error)
    → output_indexable s ≡ ok false
unfolding output_indexable except_parse is_parse_error
unindexable s (inl unspendable) = rw unspendable
unindexable s (inr e) = elim (Bool-cases (is_unspendable_legacy s)) [
  | inl u ↦ rw u
  | inr u ↦ rw (u, e)
]

-- On every script `_output_indexable` answers, and its answer is true exactly when the script is not
-- unspendable and is the bytes of a sequence of well-formed items. Where it is true, none of the
-- parses that follow raises: `zero_refs` gives the zeroed script, `get_push_input_refs` the
-- references of the items, and `get_stateseperator_index` an offset.
pub output_indexable_total :
    (s : Bytes)
    → ((its : List Item) × All IsItem its
        × (encode_all its ≡ s)
        × (is_unspendable_legacy s ≡ false)
        × (output_indexable s ≡ ok true)
        × Parses s its)
      ⊎ ((output_indexable s ≡ ok false)
          × ((is_unspendable_legacy s ≡ true)
              ⊎ ((its : List Item) → All IsItem its → encode_all its ≢ s)))
output_indexable_total s = elim (Bool-cases (is_unspendable_legacy s)) [
  | inl u ↦ inr (unindexable s (inl u), inl u)
  | inr u ↦ elim (parse_cases s) [
    | inl (its, ws, e, p) ↦
        let z = zero_refs-described s its p in
        let (i, found) =
          returned (get_stateseperator_index s) (sep_index-described s (place 0 its) p) in
        inl (its, ws, e, u, indexable_parsed s _ u z, (z, refs-described s its p, i, found))
    | inr (e, p, h) ↦ elim (zero_refs_total s) [
      | inl (its, ws, same, z) ↦ absurd (not_described s e its p ws same)
      | inr (raised, none_such) ↦ inr (unindexable s (inr raised), inr none_such)
    ]
  ]
]
