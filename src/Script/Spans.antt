-- ===== src/Script/Spans.antt =====
-- `_walk_ops` and `push_data` of electrumx/lib/script.py, by the items of the script.
use mathlib.Core.List.{foldl}
use rxin_dexer.Prelude.{
  drop-lt, get_elem?, get_elem?-none, get_elem?-drop, some, ℕ, ◌+◌, ◌≤◌, ◌<◌, ◌≡◌, ◌≢◌, refl, sym,
  ap, ◌∙◌, false, List, [], ◌∷◌, ◌++◌, arith, length, All, append-nil, append_assoc, ltb, ltb→lt,
  ltb→le, le→ltb, Bool-cases, ◌⊎◌, inl, inr,
}
use rxin_dexer.Prelude.Result.{Error, Result, ok, err, out_of_fuel, ◌>>=◌, >>=-eq-ok, Result-cases}
use rxin_dexer.Util.{Bytes, pack_le_uint, of_le}
use rxin_dexer.Util.Ints.{pack_le_uint-value}
use rxin_dexer.Script.{OpSpan, walk_round, span_operand, walk_ops, push_data, operand}
use rxin_dexer.Util.Slices.{length-slice}
use rxin_dexer.Script.Operand.{width, told}
use rxin_dexer.Script.Grammar.{
  Item, push, plain, encode, decode, decode_operand, walk_act, data_len, op_of,
}
use rxin_dexer.Script.Decode.{IsItem, decode-Decoded, Decoded}
use rxin_dexer.Script.Parse.{
  parse, encode_all, place, parse-encode_all, parse_cases, while_ops-parse_from, not_described,
}

-- The spans of the items from the offset `n` on.
unfoldable pub spans : ℕ → List Item → List OpSpan
spans n [] = []
spans n (it ∷ its) =
    record { op = op_of it; data_len = data_len it; op_start = n; op_end = n + length (encode it) }
    ∷ spans (n + length (encode it)) its

abbrev pub PushItem : Bytes → Bytes → Type 0
PushItem bytes bs =
    (op : ℕ) × (len : Bytes) × IsItem (push op len bytes) × (encode (push op len bytes) ≡ bs)

wide_push :
    (op w : ℕ) (bytes bs : Bytes)
    → op ≤ 78
    → ltb op 76 ≡ false
    → width op ≡ w
    → (pack_le_uint w (length bytes) >>= λ len. ok ((op ∷ []) ++ (len ++ bytes))) ≡ ok bs
    → PushItem bytes bs
unfolding encode told
wide_push op w bytes bs small big e p =
    let (len, q, r) = >>=-eq-ok (pack_le_uint w (length bytes)) _ p in
    let (l, v) = pack_le_uint-value w (length bytes) len q in
    (op, len, (small, l ∙ sym e, rw big (sym v)), ground arith)

push_data_short :
    (bytes bs : Bytes) → length bytes < 256 → push_data bytes ≡ ok bs → PushItem bytes bs
unfolding push_data encode told of_le
push_data_short bytes bs h p = elim (Bool-cases (ltb (length bytes) 76)) [
  | inl e ↦ (length bytes, [], ground arith, ground arith)
  | inr e ↦ (76, length bytes ∷ [], omega arith, ground arith)
]

pub push_data-item : (bytes bs : Bytes) → push_data bytes ≡ ok bs → PushItem bytes bs
unfolding push_data
push_data-item bytes bs p = elim (Bool-cases (ltb (length bytes) 256)) [
  | inl e ↦ push_data_short bytes bs (ltb→lt _ _ e) p
  | inr e ↦
      let no : ltb (length bytes) 76 ≡ false = le→ltb _ _ (omega (arith, ltb→le _ _ e)) in
      elim (Bool-cases (ltb (length bytes) 65536)) [
        | inl f ↦ wide_push 77 2 bytes bs (omega arith) refl refl (rw (no, e, f) at p)
        | inr f ↦ wide_push 78 4 bytes bs (omega arith) refl refl (rw (no, e, f) at p)
      ]
]

-- What `push_data` returns parses as one push, whose data are the bytes that it was given.
pub parse-push_data :
    (bytes bs : Bytes)
    → push_data bytes ≡ ok bs
    → (op : ℕ) × (len : Bytes) × (parse bs ≡ ok ((0, push op len bytes) ∷ []))
parse-push_data bytes bs p =
    let (op, len, w, e) = push_data-item bytes bs p in
    let one : encode_all (push op len bytes ∷ []) ≡ bs = append-nil _ ∙ e in
    (op, len, rw one at (parse-encode_all (push op len bytes ∷ []) (w, tt)))

span_of : ℕ → Item → ℕ → OpSpan
span_of n it m = record { op = op_of it; data_len = data_len it; op_start = n; op_end = m }

abbrev spanned : ℕ → Item × ℕ → Result (OpSpan × ℕ)
spanned n (it, m) = ok (span_of n it m, m)

-- A span is that of the decoded item.
span_operand-decode :
    (s : Bytes) (n op i : ℕ) → span_operand s n op i ≡ (decode_operand s op i >>= spanned n)
unfolding span_operand decode_operand span_of op_of data_len
span_operand-decode s n op i = elim (Result-cases (operand s op i)) [
  | inr (e, p) ↦ rw p (ground arith)
  | inl ((k, m), p) ↦ rw p (ground (arith, length-slice s m k))
]

abbrev collect : List OpSpan → OpSpan × ℕ → Result (List OpSpan × ℕ)
collect st (span, m) = ok (st ++ (span ∷ []), m)

abbrev acted : ℕ → List OpSpan → Item × ℕ → Result (List OpSpan × ℕ)
acted n st (it, m) = ok (walk_act st (n, it), m)

-- The end of the span is the offset behind the item.
span_end :
    (s : Bytes) (n : ℕ) (st : List OpSpan) (r : Result (Item × ℕ))
    → Decoded s n r
    → (r >>= spanned n >>= collect st) ≡ (r >>= acted n st)
unfolding span_of walk_act
span_end s n st (err e) h = refl
span_end s n st (ok (it, m)) (w, e, em, fits) = rw em

walk_round-decode :
    (s : Bytes) (n : ℕ) (st : List OpSpan)
    → walk_round s n st ≡ (decode s n >>= λ (it, m). ok (walk_act st (n, it), m))
unfolding walk_round decode
walk_round-decode s n st = elim (Bool-cases (ltb n (length s))) [
  | inr out ↦ rw (get_elem?-none s n (ltb→le _ _ out))
  | inl e ↦
      let lt : n < length s = ltb→lt _ _ e in
      let (op, d) = drop-lt s n lt in
      let g : get_elem? s n ≡ some op = get_elem?-drop n s op _ d in
      let good : Decoded s n (decode_operand s op (n + 1)) = rw g at (decode-Decoded s n lt) in
      rw (g, span_operand-decode s n op (n + 1)) (span_end s n st _ good)
]

foldl-spans :
    (its : List Item) (n : ℕ) (st : List OpSpan)
    → foldl walk_act st (place n its) ≡ st ++ spans n its
unfolding spans walk_act
foldl-spans [] n st = sym (append-nil st)
foldl-spans (it ∷ its) n st = foldl-spans its _ _ ∙ append_assoc st _ _

walk_ops-parse : (s : Bytes) → walk_ops s ≡ (parse s >>= λ items. ok (foldl walk_act [] items))
unfolding walk_ops parse
walk_ops-parse s = while_ops-parse_from walk_round walk_act walk_round-decode (length s) s 0 []

-- On every script: either its bytes are those of a sequence of well-formed items, and `_walk_ops`
-- returns one span for each item, which begins where the last one ended, the first one at 0; or no
-- sequence of well-formed items has these bytes, and it raises (and has not run out of rounds).
pub walk_ops_total :
    (s : Bytes)
    → ((its : List Item) × All IsItem its × (encode_all its ≡ s) × (walk_ops s ≡ ok (spans 0 its)))
      ⊎ ((e : Error) × (walk_ops s ≡ err e)
          × (e ≢ out_of_fuel)
          × ((its : List Item) → All IsItem its → encode_all its ≢ s))
walk_ops_total s = elim (parse_cases s) [
  | inl (its, ws, e, p) ↦ inl (its, ws, e, walk_ops-parse s ∙ rw p (ap ok (foldl-spans its 0 [])))
  | inr (e, p, h) ↦ inr (e, walk_ops-parse s ∙ rw p, h, λ its ws. not_described s e its p ws)
]

pub walk_ops-encode_all :
    (its : List Item) → All IsItem its → walk_ops (encode_all its) ≡ ok (spans 0 its)
walk_ops-encode_all its ws =
    walk_ops-parse (encode_all its) ∙ rw (parse-encode_all its ws) (ap ok (foldl-spans its 0 []))

-- The items of a P2PKH script: DUP HASH160 <20 bytes> EQUALVERIFY CHECKSIG.
unfoldable pub p2pkh_items : Bytes → List Item
p2pkh_items h = plain 118 ∷ plain 169 ∷ push 20 [] h ∷ plain 136 ∷ plain 172 ∷ []
