-- ===== src/Chunks/Pushes.antt =====
-- The chunks of a script that is OP_RETURN and then pushes, as `Script.push_data` writes them.
use rxin_dexer.Prelude.{
  ℕ, zero, suc, ◌+◌, ◌≤◌, ◌<◌, ◌≡◌, ◌≢◌, refl, ◌∙◌, sym, ap, Bool, true, false, ◌||◌, List, [], ◌∷◌,
  ◌++◌, ltb, leb, ◌==◌, length, get_elem?, drop, All, Bool-cases, inl, inr, arith, append_assoc,
  get_elem?-drop, get_elem?-none, length-drop, le→leb, length-append, ltb→lt,
}
use rxin_dexer.Prelude.Result.{ok, ◌>>=◌, >>=-eq-ok}
use rxin_dexer.Util.{Bytes, slice, of_le}
use rxin_dexer.Util.Slices.{slice-known, drop-known, known-fits}
use rxin_dexer.Script.{push_data}
use rxin_dexer.Tx.{join_all}
use rxin_dexer.Script.Operand.{told, width}
use rxin_dexer.Script.Grammar.{push, encode}
use rxin_dexer.Script.Decode.{IsItem}
use rxin_dexer.Script.Spans.{push_data-item}
use rxin_dexer.Chunks.{
  chunk, push_round, pushdata1_round, pushdata_round, chunk_round, after_round, read_op, chunk_loop,
  parse_script_chunks, parse_swap_chunks,
}

-- The data of a push are read where they stand.
push_round_known :
    (s bytes rest : Bytes) (dlen pos : ℕ)
    → length bytes ≡ dlen
    → pos ≤ length s
    → drop pos s ≡ bytes ++ rest
    → push_round s dlen pos ≡ chunk bytes (pos + length bytes)
unfolding push_round
push_round_known s bytes rest dlen pos l h e =
    let fits : pos + length bytes + length rest ≡ length s = known-fits s bytes rest pos h e in
    let room : pos + length bytes ≤ length s = omega arith in
    rw (← l, le→leb _ _ room, slice-known s bytes rest pos e) refl

pushdata_round_known :
    (s len bytes rest : Bytes) (pos w : ℕ)
    → pos ≤ length s
    → drop pos s ≡ len ++ (bytes ++ rest)
    → length len ≡ w
    → of_le len ≡ length bytes
    → pushdata_round s pos w ≡ chunk bytes (pos + w + length bytes)
unfolding pushdata_round
pushdata_round_known s len bytes rest pos w h e l v =
    let fits : pos + length len + length (bytes ++ rest) ≡ length s =
      known-fits s len (bytes ++ rest) pos h e in
    let room : pos + w ≤ length s = omega arith in
    let cut : slice s pos (pos + w) ≡ len = rw l at (slice-known s len (bytes ++ rest) pos e) in
    let next : drop (pos + w) s ≡ bytes ++ rest =
      rw l at (drop-known s len (bytes ++ rest) pos e) in
    rw (le→leb _ _ room, cut)
      (push_round_known s bytes rest (of_le len) (pos + w) (sym v) room next)

length-zero : (bytes : Bytes) → length bytes ≡ 0 → bytes ≡ []
length-zero [] e = refl
length-zero (b ∷ bytes) e = absurd (omega (arith, e))

-- The rounds of the four kinds of push.
direct_round :
    (small : Bool) (s bytes rest : Bytes) (op pos : ℕ)
    → op < 76
    → bytes ≢ []
    → length bytes ≡ op
    → pos ≤ length s
    → drop pos s ≡ bytes ++ rest
    → chunk_round small s op pos ≡ chunk bytes (pos + length bytes)
unfolding chunk_round
direct_round small s bytes rest op pos lt ne l h e =
    let some_data : op ≢ 0 = λ z. ne (length-zero bytes (l ∙ z)) in
    let not_bare : (op == 106 || op == 0) ≡ false = ground arith in
    let direct : leb op 75 ≡ true = ground arith in
    rw (not_bare, direct) (push_round_known s bytes rest op pos l h e)

pushdata1_known :
    (small : Bool) (s bytes rest : Bytes) (dlen pos : ℕ)
    → length bytes ≡ dlen
    → pos ≤ length s
    → drop pos s ≡ dlen ∷ (bytes ++ rest)
    → chunk_round small s 76 pos ≡ chunk bytes (pos + 1 + length bytes)
unfolding chunk_round pushdata1_round
pushdata1_known small s bytes rest dlen pos l h e =
    let fits : pos + 1 + length (bytes ++ rest) ≡ length s =
      known-fits s (dlen ∷ []) (bytes ++ rest) pos h e in
    let room : pos + 1 ≤ length s = omega arith in
    rw (get_elem?-drop pos s dlen (bytes ++ rest) e) (
      push_round_known s bytes rest dlen (pos + 1) l room
        (drop-known s (dlen ∷ []) (bytes ++ rest) pos e))

pushdata_known :
    (small : Bool) (s len bytes rest : Bytes) (op pos : ℕ)
    → (op == 77 || op == 78) ≡ true
    → length len ≡ width op
    → of_le len ≡ length bytes
    → pos ≤ length s
    → drop pos s ≡ len ++ (bytes ++ rest)
    → chunk_round small s op pos ≡ chunk bytes (pos + width op + length bytes)
unfolding chunk_round
pushdata_known small s len bytes rest op pos wide l v h e = elim (Bool-cases (op == 77)) [
  | inl two ↦
      let q : op ≡ 77 = ground arith in
      rw q (pushdata_round_known s len bytes rest pos 2 h e (rw q at l) v)
  | inr four ↦
      let q : op ≡ 78 = ground arith in
      rw q (pushdata_round_known s len bytes rest pos 4 h e (rw q at l) v)
]

-- The length field of OP_PUSHDATA1 is one byte.
one_byte : (len : Bytes) → length len ≡ 1 → (b : ℕ) × (len ≡ b ∷ []) × (of_le len ≡ b)
unfolding of_le
one_byte [] l = absurd (omega (arith, l))
one_byte (b ∷ []) l = (b, refl, omega arith)
one_byte (b ∷ c ∷ len) l = absurd (omega (arith, l))

item_round :
    (small : Bool) (s len bytes rest : Bytes) (op pos : ℕ)
    → IsItem (push op len bytes)
    → bytes ≢ []
    → pos ≤ length s
    → drop pos s ≡ len ++ (bytes ++ rest)
    → chunk_round small s op pos ≡ chunk bytes (pos + length len + length bytes)
unfolding told
item_round small s len bytes rest op pos (top, w, l) ne h e = elim (Bool-cases (ltb op 76)) [
  | inl lt ↦
      let none_there : length len ≡ 0 = (rw lt at w) in
      let empty : len ≡ [] = length-zero len none_there in
      let direct : length bytes ≡ op = (rw lt at l) in
      let here : drop pos s ≡ bytes ++ rest = (rw empty at e) in
      let sum : pos + length len ≡ pos = omega arith in
      rw sum (direct_round small s bytes rest op pos (ltb→lt _ _ lt) ne direct h here)
  | inr ge ↦ elim (Bool-cases (op == 76)) [
    | inl one ↦
        let q : op ≡ 76 = ground arith in
        let (b, is_b, v) = one_byte len (rw q at w) in
        let told_b : length bytes ≡ b = (rw ge at l) ∙ v in
        let here : drop pos s ≡ b ∷ (bytes ++ rest) = (rw is_b at e) in
        rw (q, is_b) (pushdata1_known small s bytes rest b pos told_b h here)
    | inr more ↦
        let wide : (op == 77 || op == 78) ≡ true = ground arith in
        let told_len : length bytes ≡ of_le len = (rw ge at l) in
        rw w (pushdata_known small s len bytes rest op pos wide w (sym told_len) h e)
  ]
]

-- A push is read, and takes at least one byte.
push_read :
    (small : Bool) (s bytes bs rest : Bytes) (pos : ℕ)
    → bytes ≢ []
    → push_data bytes ≡ ok bs
    → pos ≤ length s
    → drop pos s ≡ bs ++ rest
    → (read_op small s pos (get_elem? s pos) ≡ chunk bytes (pos + length bs)) × (1 ≤ length bs)
unfolding read_op encode
push_read small s bytes bs rest pos ne p h e =
    let (op, len, w, made) = push_data-item bytes bs p in
    let here : drop pos s ≡ op ∷ (len ++ (bytes ++ rest)) =
      e
      ∙ ap (λ (t : Bytes). t ++ rest) (sym made)
      ∙ ap (λ (t : Bytes). op ∷ t) (append_assoc len bytes rest) in
    let fits : pos + 1 + length (len ++ (bytes ++ rest)) ≡ length s =
      known-fits s (op ∷ []) (len ++ (bytes ++ rest)) pos h here in
    let room : pos + 1 ≤ length s = omega arith in
    let next : drop (pos + 1) s ≡ len ++ (bytes ++ rest) =
      drop-known s (op ∷ []) (len ++ (bytes ++ rest)) pos here in
    let whole : length (op ∷ (len ++ bytes)) ≡ length bs = ap length made in
    let sum : pos + 1 + length len + length bytes ≡ pos + length bs =
      omega (arith, whole, length-append len bytes) in
    (
      rw (get_elem?-drop pos s op (len ++ (bytes ++ rest)) here)
          (rw sum at (item_round small s len bytes rest op (pos + 1) w ne room next)),
      omega (arith, whole),
    )

-- Data of which none is empty.
abbrev pub AreFilled : List Bytes → Type 0
AreFilled = All (λ c. c ≢ [])

joined_parts :
    (c : Bytes) (datas : List Bytes) (body : Bytes)
    → join_all push_data (c ∷ datas) ≡ ok body
    → (part rest : Bytes) × (push_data c ≡ ok part)
      × (join_all push_data datas ≡ ok rest)
      × (part ++ rest ≡ body)
unfolding join_all
joined_parts c datas body p =
    let (part, q, p') =
      >>=-eq-ok (push_data c) (λ a. join_all push_data datas >>= λ b. ok (a ++ b)) p in
    let (rest, q', r) = >>=-eq-ok (join_all push_data datas) (λ b. ok (part ++ b)) p' in
    (part, rest, q, q', cc r)

chunk_loop-pushes :
    (small : Bool) (datas : List Bytes) (fuel pos : ℕ) (s body : Bytes)
    → AreFilled datas
    → pos ≤ length s
    → length s ≤ pos + fuel
    → drop pos s ≡ body
    → join_all push_data datas ≡ ok body
    → chunk_loop fuel small s pos ≡ datas
unfolding chunk_loop read_op after_round join_all
chunk_loop-pushes small [] zero pos s body f h enough e p = refl
chunk_loop-pushes small [] (suc fuel) pos s body f h enough e p =
    let empty : [] ≡ body = cc p in
    let l : length (drop pos s) ≡ length body = ap length e in
    let none_left : length body ≡ 0 = sym (ap length empty) in
    rw (get_elem?-none s pos (omega (arith, l, none_left, length-drop pos s))) refl
chunk_loop-pushes small (c ∷ datas) zero pos s body (ne, f) h enough e p =
    let (part, rest, q, q', split) = joined_parts c datas body p in
    let here : drop pos s ≡ part ++ rest = e ∙ sym split in
    let fits = known-fits s part rest pos h here in
    let (_, one) = push_read small s c part rest pos ne q h here in absurd (omega arith)
chunk_loop-pushes small (c ∷ datas) (suc fuel) pos s body (ne, f) h enough e p =
    let (part, rest, q, q', split) = joined_parts c datas body p in
    let here : drop pos s ≡ part ++ rest = e ∙ sym split in
    let fits = known-fits s part rest pos h here in
    let (read, one) = push_read small s c part rest pos ne q h here in
    rw
      (
        read,
        chunk_loop-pushes small datas fuel (pos + length part) s rest f (omega arith) (omega arith)
            (drop-known s part rest pos here) q',
      )
      refl

-- The chunks of OP_RETURN and the pushes that `Script.push_data` writes for data none of which is
-- empty are OP_RETURN and the data, in order: both for the parser of predict_index.py and
-- royalty_index.py and for that of swap_index.py.
pub parse_script_chunks-push_data :
    (datas : List Bytes) (body : Bytes)
    → AreFilled datas
    → join_all push_data datas ≡ ok body
    → (parse_script_chunks (106 ∷ body) ≡ (106 ∷ []) ∷ datas)
      × (parse_swap_chunks (106 ∷ body) ≡ (106 ∷ []) ∷ datas)
unfolding parse_script_chunks parse_swap_chunks chunk_loop read_op chunk_round after_round
parse_script_chunks-push_data datas body f p =
    let whole = λ (small : Bool).
      chunk_loop-pushes small datas (length body) 1 (106 ∷ body) body f (omega arith) (omega arith)
        refl p in
    (
      ap (λ (r : List Bytes). (106 ∷ []) ∷ r) (whole false),
      ap (λ (r : List Bytes). (106 ∷ []) ∷ r) (whole true),
    )
