-- ===== src/Script/Decode.antt =====
-- `decode` of Script/Grammar reads exactly the items of the grammar.
use native.Mathlib.Nat.{add_assoc}
use rxin_dexer.Prelude.{
  ℕ, suc, ◌+◌, ◌≤◌, ◌<◌, ◌≡◌, ◌≢◌, refl, sym, ap, ◌∙◌, true, false, [], ◌∷◌, ◌++◌, arith, leb,
  length, drop, Bool-cases, inl, inr, drop-lt, get_elem?-drop, append_assoc, length-append, le→leb,
  lt→leb, leb→le, leb→lt,
}
use rxin_dexer.Prelude.Result.{Result, ok, err, out_of_fuel}
use rxin_dexer.Util.{Bytes, slice}
use rxin_dexer.Util.Slices.{length-slice, drop-eq-slice, slice-known, drop-known, known-fits}
use rxin_dexer.Script.{is_input_ref, operand}
use rxin_dexer.Script.Operand.{width, told, operand_fits, operand_short}
use rxin_dexer.Script.Grammar.{Item, push, ref, plain, encode, decode, decode_operand}

-- A well-formed item: the data of a push have the length that its opcode and length field tell.
abbrev pub IsItem : Item → Type 0
IsItem (push op len bytes) = (op ≤ 78) × (length len ≡ width op) × (length bytes ≡ told op len)
IsItem (ref op bytes) = (78 < op) × (is_input_ref op ≡ true) × (length bytes ≡ 36)
IsItem (plain op) = (78 < op) × (is_input_ref op ≡ false)

decode_head :
    (s : Bytes) (n op : ℕ) (rest : Bytes)
    → drop n s ≡ op ∷ rest
    → decode s n ≡ decode_operand s op (n + 1)
unfolding decode
decode_head s n op rest e = rw (get_elem?-drop n s op rest e)

drop-head : (s : Bytes) (n op : ℕ) (rest : Bytes) → drop n s ≡ op ∷ rest → drop (n + 1) s ≡ rest
drop-head s n op rest e = drop-known s (op ∷ []) rest n e

decode_push :
    (s : Bytes) (n op : ℕ) (len bytes rest : Bytes)
    → n ≤ length s
    → IsItem (push op len bytes)
    → drop n s ≡ len ++ (bytes ++ rest)
    → decode_operand s op n ≡ ok (push op len bytes, n + (length len + length bytes))
unfolding decode_operand
decode_push s n op len bytes rest h (small, w, l) e =
    let a : n + length len + length (bytes ++ rest) ≡ length s =
      known-fits s len (bytes ++ rest) n h e in
    let fits : n + length len + length bytes ≤ length s = omega (arith, length-append bytes rest) in
    let field : slice s n (n + length len) ≡ len = slice-known s len (bytes ++ rest) n e in
    let after : drop (n + length len) s ≡ bytes ++ rest = drop-known s len (bytes ++ rest) n e in
    let body : slice s (n + length len) (n + length len + length bytes) ≡ bytes =
      slice-known s bytes rest (n + length len) after in
    let read : operand s op n ≡ ok (told op len, n + length len) =
      rw (← w, field) at (operand_fits s op n small (omega arith)) in
    rw (le→leb op 78 small, read, ← l, le→leb _ _ fits, field, body)
      (rw (add_assoc n (length len) (length bytes)))

decode_ref :
    (s : Bytes) (n op : ℕ) (bytes rest : Bytes)
    → n ≤ length s
    → IsItem (ref op bytes)
    → drop n s ≡ bytes ++ rest
    → decode_operand s op n ≡ ok (ref op bytes, n + length bytes)
unfolding decode_operand
decode_ref s n op bytes rest h (big, is, l) e =
    let fits : n + 36 ≤ length s = omega (arith, known-fits s bytes rest n h e) in
    let body : slice s n (n + 36) ≡ bytes = rw l at (slice-known s bytes rest n e) in
    rw (lt→leb op 78 big, is, le→leb _ _ fits, body, l)

-- At an item of the grammar, `decode` reads that item.
pub decode-encode :
    (s : Bytes) (n : ℕ) (it : Item) (rest : Bytes)
    → n < length s
    → IsItem it
    → drop n s ≡ encode it ++ rest
    → decode s n ≡ ok (it, n + length (encode it))
unfolding encode
decode-encode s n (push op len bytes) rest h w e =
    let e' : drop n s ≡ op ∷ (len ++ (bytes ++ rest)) = rw append_assoc at e in
    let m : n + 1 + (length len + length bytes) ≡ n + suc (length (len ++ bytes)) =
      omega (arith, length-append len bytes) in
    decode_head s n op (len ++ (bytes ++ rest)) e'
    ∙ decode_push s (n + 1) op len bytes rest (omega arith) w
        (drop-head s n op (len ++ (bytes ++ rest)) e')
    ∙ rw m
decode-encode s n (ref op bytes) rest h w e =
    let m : n + 1 + length bytes ≡ n + suc (length bytes) = omega arith in
    decode_head s n op (bytes ++ rest) e
    ∙ decode_ref s (n + 1) op bytes rest (omega arith) w (drop-head s n op (bytes ++ rest) e)
    ∙ rw m
decode-encode s n (plain op) rest h w e =
    decode_head s n op rest e ∙ (unfold decode_operand in rw (lt→leb op 78 w.0, w.1))

-- What a result of `decode` at `n` means: an item of the grammar stands there, or an exception.
abbrev pub Decoded : Bytes → ℕ → Result (Item × ℕ) → Type 0
Decoded s n (ok (it, m)) =
    IsItem it × (drop n s ≡ encode it ++ drop m s) × (m ≡ n + length (encode it)) × (m ≤ length s)
Decoded s n (err e) = e ≢ out_of_fuel

two_slices :
    (s : Bytes) (i w k : ℕ)
    → drop i s ≡ (slice s i (i + w) ++ slice s (i + w) (i + w + k)) ++ drop (i + w + k) s
two_slices s i w k =
    drop-eq-slice s i w
    ∙ ap (λ (t : Bytes). slice s i (i + w) ++ t) (drop-eq-slice s (i + w) k)
    ∙ sym (append_assoc (slice s i (i + w)) (slice s (i + w) (i + w + k)) (drop (i + w + k) s))

-- The item that a push opcode at `n` begins, where its field and its data end inside the script.
push_inside :
    (s : Bytes) (n op w k : ℕ)
    → drop n s ≡ op ∷ drop (n + 1) s
    → op ≤ 78
    → w ≡ width op
    → k ≡ told op (slice s (n + 1) (n + 1 + w))
    → n + 1 + w + k ≤ length s
    → Decoded s n (
        ok (
          push op (slice s (n + 1) (n + 1 + w)) (slice s (n + 1 + w) (n + 1 + w + k)),
          n + 1 + w + k,
        ))
unfolding encode
push_inside s n op w k e small ew ek h =
    let l1 : length (slice s (n + 1) (n + 1 + w)) ≡ w = length-slice s (n + 1) w (omega arith) in
    let l2 : length (slice s (n + 1 + w) (n + 1 + w + k)) ≡ k = length-slice s (n + 1 + w) k h in
    (
      (small, l1 ∙ ew, l2 ∙ ek),
      e ∙ ap (λ (t : Bytes). op ∷ t) (two_slices s (n + 1) w k),
      omega (
        arith,
        l1,
        l2,
        length-append (slice s (n + 1) (n + 1 + w)) (slice s (n + 1 + w) (n + 1 + w + k)),
      ),
      h,
    )

push_Decoded :
    (s : Bytes) (n op : ℕ)
    → drop n s ≡ op ∷ drop (n + 1) s
    → n + 1 ≤ length s
    → op ≤ 78
    → Decoded s n (decode_operand s op (n + 1))
unfolding decode_operand
push_Decoded s n op e h small = elim (Bool-cases (leb (n + 1 + width op) (length s))) [
  | inr out ↦ elim (operand_short s op (n + 1) small h (leb→lt _ _ out)) [
    | inl r ↦ rw (le→leb op 78 small, r) (λ p. cc)
    | inr r ↦ rw (le→leb op 78 small, r) (λ p. cc)
  ]
  | inl inside ↦
      let k : ℕ = told op (slice s (n + 1) (n + 1 + width op)) in
      let read : operand s op (n + 1) ≡ ok (k, n + 1 + width op) =
        operand_fits s op (n + 1) small (leb→le _ _ inside) in
      elim (Bool-cases (leb (n + 1 + width op + k) (length s))) [
        | inl room ↦
            rw (le→leb op 78 small, read, room)
              (push_inside s n op (width op) k e small refl refl (leb→le _ _ room))
        | inr none ↦ rw (le→leb op 78 small, read, none) (λ p. cc)
      ]
]

other_Decoded :
    (s : Bytes) (n op : ℕ)
    → drop n s ≡ op ∷ drop (n + 1) s
    → n + 1 ≤ length s
    → 78 < op
    → Decoded s n (decode_operand s op (n + 1))
unfolding decode_operand encode
other_Decoded s n op e h big = elim (Bool-cases (is_input_ref op)) [
  | inr no_ref ↦ rw (lt→leb op 78 big, no_ref) ((big, no_ref), e, omega arith, h)
  | inl is ↦ elim (Bool-cases (leb (n + 1 + 36) (length s))) [
    | inr out ↦ rw (lt→leb op 78 big, is, out) (λ p. cc)
    | inl room ↦
        let l : length (slice s (n + 1) (n + 1 + 36)) ≡ 36 =
          length-slice s (n + 1) 36 (leb→le _ _ room) in
        rw (lt→leb op 78 big, is, room)
          (
            (big, is, l),
            e ∙ ap (λ (t : Bytes). op ∷ t) (drop-eq-slice s (n + 1) 36),
            omega (arith, l),
            leb→le _ _ room,
          )
  ]
]

-- Inside a script `decode` reads an item of the grammar, or raises.
pub decode-Decoded : (s : Bytes) (n : ℕ) → n < length s → Decoded s n (decode s n)
decode-Decoded s n h =
    let (op, e) = drop-lt s n h in
    rw (decode_head s n op (drop (n + 1) s) e) (elim (Bool-cases (leb op 78)) [
      | inl small ↦ push_Decoded s n op e h' (leb→le _ _ small)
      | inr big ↦ other_Decoded s n op e h' (leb→lt _ _ big)
    ])
  where
    h' : n + 1 ≤ length s
    h' = omega arith
