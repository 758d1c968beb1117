-- ===== src/Undo/RoundTrip.antt =====
-- decode_undo of electrumx/lib/util.py reads back what encode_undo wrote.
use mathlib.Core.List.{reverse, reverse-cons, reverse-reverse}
use rxin_dexer.Prelude.{
  ℕ, zero, suc, ◌+◌, ◌≤◌, ◌<◌, ◌≡◌, ◌≢◌, refl, sym, ap, ◌∙◌, false, Option, none, some, List, [],
  ◌∷◌, ◌++◌, arith, ◌==◌, length, drop, All, append_assoc, length-append, length-drop, lt→ltb,
  le→ltb, le→leb,
}
use rxin_dexer.Prelude.Result.{Result, ok, ◌>>=◌, >>=-eq-ok}
use rxin_dexer.Util.{Bytes, slice, of_le, pack_le_uint, unpack_be_uint_from}
use rxin_dexer.Util.Ints.{pack_le_uint-value}
use rxin_dexer.Util.Slices.{slice-known, drop-known, known-fits}
use rxin_dexer.Undo.{
  pack_be_uint, undo_none_sentinel, UndoEntry, encode_value, encode_entry, encode_undo,
  decode_value, decode_loop, decode_undo,
}

length-reverse : (bs : Bytes) → length (reverse bs) ≡ length bs
length-reverse [] = refl
length-reverse (b ∷ bs) =
    rw (reverse-cons b bs) (omega (arith, length-append (reverse bs) (b ∷ []), length-reverse bs))

pub pack_be_uint-value :
    (w n : ℕ) (bs : Bytes) → pack_be_uint w n ≡ ok bs → (length bs ≡ w) × (of_le (reverse bs) ≡ n)
unfolding pack_be_uint
pack_be_uint-value w n bs p =
    let (b, q, r) = >>=-eq-ok (pack_le_uint w n) (λ c. ok (reverse c)) p in
    let (l, v) = pack_le_uint-value w n b q in
    let e : reverse b ≡ bs = cc r in
    rw (← e) (length-reverse b ∙ l, ap of_le (reverse-reverse b) ∙ v)

-- An integer is read back at the position where its bytes stand.
pub unpack-pack :
    (w n pos : ℕ) (raw bs rest : Bytes)
    → pos ≤ length raw
    → drop pos raw ≡ bs ++ rest
    → pack_be_uint w n ≡ ok bs
    → (unpack_be_uint_from w raw pos ≡ ok n) × (length bs ≡ w)
unfolding unpack_be_uint_from
unpack-pack w n pos raw bs rest h e p =
    let (l, v) = pack_be_uint-value w n bs p in
    let fits : pos + length bs + length rest ≡ length raw = known-fits raw bs rest pos h e in
    let room : pos + w ≤ length raw = omega arith in
    let cut : slice raw pos (pos + w) ≡ bs = rw l at (slice-known raw bs rest pos e) in
    (rw (le→leb _ _ room, cut, v), l)

-- A previous value whose length is not the mark of a missing one.
abbrev pub HasLength : UndoEntry → Type 0
HasLength (key, none) = Unit
HasLength (key, some prev) = length prev ≢ 4294967295

value_back :
    (key : Bytes) (prev : Option Bytes) (pos : ℕ) (raw bs rest : Bytes)
    → HasLength (key, prev)
    → pos ≤ length raw
    → drop pos raw ≡ bs ++ rest
    → encode_value prev ≡ ok bs
    → (val_len : ℕ) × (unpack_be_uint_from 4 raw pos ≡ ok val_len)
      × (decode_value raw val_len (pos + 4) ≡ (prev, pos + length bs))
      × (4 ≤ length bs)
unfolding encode_value decode_value
value_back key none pos raw bs rest k h e p =
    let (u, l) = unpack-pack 4 undo_none_sentinel pos raw bs rest h e p in
    (undo_none_sentinel, u, rw l refl, omega arith)
value_back key (some prev) pos raw bs rest k h e p =
    let (len, q, r) = >>=-eq-ok (pack_be_uint 4 (length prev)) (λ c. ok (c ++ prev)) p in
    let split : len ++ prev ≡ bs = cc r in
    let e' : drop pos raw ≡ len ++ (prev ++ rest) =
      e ∙ ap (λ (t : Bytes). t ++ rest) (sym split) ∙ append_assoc len prev rest in
    let (u, l) = unpack-pack 4 (length prev) pos raw len (prev ++ rest) h e' q in
    let behind : drop (pos + 4) raw ≡ prev ++ rest =
      rw l at (drop-known raw len (prev ++ rest) pos e') in
    let whole : length bs ≡ 4 + length prev =
      rw (← split) (omega (arith, length-append len prev)) in
    let no : (length prev == 4294967295) ≡ false = ground arith in
    let cut : slice raw (pos + 4) (pos + 4 + length prev) ≡ prev =
      slice-known raw prev rest (pos + 4) behind in
    let sum : pos + 4 + length prev ≡ pos + (4 + length prev) = omega arith in
    (length prev, u, rw (no, cut, whole, sum) refl, omega arith)

-- What one round appends to the entries of the rounds after it.
abbrev behind_entry : UndoEntry → List UndoEntry → Result (List UndoEntry)
behind_entry entry entries = ok (entry ∷ entries)

-- One round on the bytes of an entry.
round_back :
    (fuel pos : ℕ) (raw part rest : Bytes) (entry : UndoEntry)
    → HasLength entry
    → pos ≤ length raw
    → drop pos raw ≡ part ++ rest
    → encode_entry entry ≡ ok part
    → (decode_loop (suc fuel) raw pos
        ≡ (decode_loop fuel raw (pos + length part) >>= behind_entry entry))
      × (6 ≤ length part)
unfolding encode_entry decode_loop
round_back fuel pos raw part rest (key, prev) k h e p =
    let (len, q, p') =
      >>=-eq-ok (pack_be_uint 2 (length key)) (λ c. encode_value prev >>= λ v. ok (c ++ (key ++ v)))
        p in
    let (value, q', r) = >>=-eq-ok (encode_value prev) (λ v. ok (len ++ (key ++ v))) p' in
    let split : len ++ (key ++ value) ≡ part = cc r in
    let e1 : drop pos raw ≡ len ++ (key ++ (value ++ rest)) =
      e
      ∙ ap (λ (t : Bytes). t ++ rest) (sym split)
      ∙ append_assoc len (key ++ value) rest
      ∙ ap (λ (t : Bytes). len ++ t) (append_assoc key value rest) in
    let (u, l) = unpack-pack 2 (length key) pos raw len (key ++ (value ++ rest)) h e1 q in
    let e2 : drop (pos + 2) raw ≡ key ++ (value ++ rest) =
      rw l at (drop-known raw len (key ++ (value ++ rest)) pos e1) in
    let e3 : drop (pos + 2 + length key) raw ≡ value ++ rest =
      drop-known raw key (value ++ rest) (pos + 2) e2 in
    let fits : pos + length len + length (key ++ (value ++ rest)) ≡ length raw =
      known-fits raw len (key ++ (value ++ rest)) pos h e1 in
    let inner : length (key ++ (value ++ rest)) ≡ length key + (length value + length rest) =
      length-append key (value ++ rest)
      ∙ ap (λ (t : ℕ). length key + t) (length-append value rest) in
    let h3 : pos + 2 + length key ≤ length raw = omega arith in
    let (val_len, uv, dv, lv) =
      value_back key prev (pos + 2 + length key) raw value rest k h3 e3 q' in
    let whole : length part ≡ 2 + (length key + length value) =
      let made : length (len ++ (key ++ value)) ≡ length part = ap length split in
      omega (arith, made, length-append len (key ++ value), length-append key value) in
    let go : pos < length raw = omega arith in
    let head : pos + 2 ≤ length raw = omega arith in
    let tail : pos + 2 + length key + 4 ≤ length raw = omega arith in
    let cut : slice raw (pos + 2) (pos + 2 + length key) ≡ key =
      slice-known raw key (value ++ rest) (pos + 2) e2 in
    let sum : pos + 2 + length key + length value ≡ pos + length part = omega arith in
    (rw (lt→ltb _ _ go, le→ltb _ _ head, u, le→ltb _ _ tail, uv, dv, cut, sum) refl, omega arith)

-- At the end of the bytes the loop stops, with rounds left or not.
decode_loop-end : (fuel pos : ℕ) (raw : Bytes) → length raw ≤ pos → decode_loop fuel raw pos ≡ ok []
unfolding decode_loop
decode_loop-end zero pos raw h = rw (le→ltb _ _ h)
decode_loop-end (suc fuel) pos raw h = rw (le→ltb _ _ h)

encoded_parts :
    (entry : UndoEntry) (entries : List UndoEntry) (bs : Bytes)
    → encode_undo (entry ∷ entries) ≡ ok bs
    → (part rest : Bytes) × (encode_entry entry ≡ ok part)
      × (encode_undo entries ≡ ok rest)
      × (part ++ rest ≡ bs)
unfolding encode_undo
encoded_parts entry entries bs p =
    let (part, q, p') =
      >>=-eq-ok (encode_entry entry) (λ c. encode_undo entries >>= λ r. ok (c ++ r)) p in
    let (rest, q', r) = >>=-eq-ok (encode_undo entries) (λ r. ok (part ++ r)) p' in
    (part, rest, q, q', cc r)

loop_back :
    (entries : List UndoEntry) (fuel pos : ℕ) (raw bs : Bytes)
    → All HasLength entries
    → pos ≤ length raw
    → length raw ≤ pos + fuel
    → drop pos raw ≡ bs
    → encode_undo entries ≡ ok bs
    → decode_loop fuel raw pos ≡ ok entries
unfolding encode_undo
loop_back [] fuel pos raw bs k h enough e p =
    let none_left : length bs ≡ 0 = ground arith in
    let left : length (drop pos raw) ≡ length bs = ap length e in
    decode_loop-end fuel pos raw (omega (arith, length-drop pos raw))
loop_back (entry ∷ entries) zero pos raw bs k h enough e p =
    let (part, rest, q, q', split) = encoded_parts entry entries bs p in
    let e1 : drop pos raw ≡ part ++ rest = e ∙ sym split in
    let fits = known-fits raw part rest pos h e1 in
    let (_, six) = round_back 0 pos raw part rest entry k.0 h e1 q in absurd (omega arith)
loop_back (entry ∷ entries) (suc fuel) pos raw bs k h enough e p =
    let (part, rest, q, q', split) = encoded_parts entry entries bs p in
    let e1 : drop pos raw ≡ part ++ rest = e ∙ sym split in
    let fits = known-fits raw part rest pos h e1 in
    let (round, six) = round_back fuel pos raw part rest entry k.0 h e1 q in
    let next : decode_loop fuel raw (pos + length part) ≡ ok entries =
      loop_back entries fuel (pos + length part) raw rest k.1 (omega arith) (omega arith)
        (drop-known raw part rest pos e1) q' in
    round ∙ rw next

-- What encode_undo wrote for a list of entries, none of whose values has the length that marks a
-- missing value, decode_undo reads back: the same keys and previous values in the same order.
pub decode_undo-encode_undo :
    (entries : List UndoEntry) (bs : Bytes)
    → All HasLength entries
    → encode_undo entries ≡ ok bs
    → decode_undo bs ≡ ok entries
unfolding decode_undo
decode_undo-encode_undo entries bs k p =
    loop_back entries (length bs) 0 bs bs k (omega arith) (omega arith) refl p
