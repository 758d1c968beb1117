-- ===== src/Tx/Failures.antt =====
-- The Deserializer of electrumx/lib/tx.py on any input, well formed or not.
use rxin_dexer.Prelude.{
  ℕ, zero, suc, ◌+◌, ◌≤◌, ◌≡◌, ◌∙◌, refl, Bool, true, false, arith, length, leb, ltb, leb→le,
  ltb→le, Bool-cases, inl, inr, get_elem?, get_elem?-bound, Option, none, some, if◌then◌else◌,
  le→leb,
}
use rxin_dexer.Prelude.Result.{Error, Result, ok, err, index_error, value_error, assertion_error}
use rxin_dexer.Util.{Bytes, unpack_le_uint_from, unpack_le_int_from, of_le, slice}
use rxin_dexer.Tx.Deserializer.{
  Deserializer, Read, ◌>>=◌, resume, pure, eval, skip, ensure, read_byte, read_nbytes, read_le_uint,
  read_le_int, read_varint, read_varint_tail, read_varbytes, read_many, read_input, read_output,
  read_inputs, read_outputs, read_tx,
}

-- The exceptions that the block and mempool parse guards catch.
abbrev pub IsParseError : Error → Type 0
IsParseError index_error = Unit
IsParseError value_error = Unit
IsParseError assertion_error = Unit
IsParseError _ = ⊥

-- A result leaves the binary alone and the cursor between where it was and the end.
abbrev pub Outcome : {A : Type 0} → Deserializer → Result (A × Deserializer) → Type 0
Outcome d (ok (a, d')) =
    (d'.binary ≡ d.binary) × (d.cursor ≤ d'.cursor) × (d'.cursor ≤ length d.binary)
Outcome d (err e) = IsParseError e

record Behaves {A : Type 0} (m : Read A) : Type 0 where
  at : (d : Deserializer) → d.cursor ≤ length d.binary → Outcome d (m d)

Behaves-pure : {A : Type 0} (a : A) → Behaves (pure a)
unfolding pure
Behaves-pure a = record { at = λ d h. (refl, omega arith, h) }

module _ {A B : Type 0} where
  Outcome-resume :
      (f : A → Read B) (d : Deserializer) (r : Result (A × Deserializer))
      → ((a : A) → Behaves (f a))
      → Outcome d r
      → Outcome d (resume r f)
  Outcome-resume f d (ok (a, d')) hf (same, up, fits) = after (f a d') ((hf a).at d' (rw same fits))
    where
      after : (r : Result (B × Deserializer)) → Outcome d' r → Outcome d r
      after (ok (b, e)) (same', up', fits') = (same' ∙ same, omega arith, rw same at fits')
      after (err e) h = h
  Outcome-resume f d (err e) hf h = h

  Behaves-bind :
      (m : Read A) (f : A → Read B) → Behaves m → ((a : A) → Behaves (f a)) → Behaves (m >>= f)
  unfolding ◌>>=◌
  Behaves-bind m f hm hf = record { at = λ d h. Outcome-resume f d (m d) hf (hm.at d h) }

Behaves-if :
    {A : Type 0} (b : Bool) {m n : Read A} → Behaves m → Behaves n → Behaves (if b then m else n)
Behaves-if true hm hn = hm
Behaves-if false hm hn = hn

read_byte-Behaves : Behaves read_byte
unfolding read_byte ◌>>=◌ pure eval skip
read_byte-Behaves = record { at = λ d h. go d (get_elem? d.binary d.cursor) refl }
  where
    go :
        (d : Deserializer) (o : Option ℕ)
        → get_elem? d.binary d.cursor ≡ o
        → Outcome d (read_byte d)
    go d none e = rw e tt
    go d (some b) e = rw e (refl, omega arith, omega (arith, get_elem?-bound d.binary d.cursor b e))

read_nbytes-Behaves : (n : ℕ) → Behaves (read_nbytes n)
unfolding read_nbytes
read_nbytes-Behaves n = record {
  at = λ d h. elim (Bool-cases (leb (d.cursor + n) (length d.binary))) [
    | inl e ↦ rw e (refl, omega arith, leb→le _ _ e)
    | inr e ↦ rw e tt
  ];
}

-- With `w` bytes left the unpacking does not raise.
unpack_fits :
    (w i : ℕ) (b : Bytes)
    → i + w ≤ length b
    → unpack_le_uint_from w b i ≡ ok (of_le (slice b i (i + w)))
unfolding unpack_le_uint_from
unpack_fits w i b h = rw (le→leb _ _ h)

read_le_uint-Behaves : (w : ℕ) → Behaves (read_le_uint w)
unfolding read_le_uint ensure ◌>>=◌ pure eval skip
read_le_uint-Behaves w = record {
  at = λ d h. elim (Bool-cases (ltb (length d.binary) (d.cursor + w))) [
    | inl e ↦ rw e tt
    | inr e ↦
        let fits : d.cursor + w ≤ length d.binary = ltb→le _ _ e in
        rw (e, unpack_fits w d.cursor d.binary fits) (refl, omega arith, fits)
  ];
}

read_le_int-Behaves : (w : ℕ) → Behaves (read_le_int w)
unfolding read_le_int ensure unpack_le_int_from ◌>>=◌ pure eval skip
read_le_int-Behaves w = record {
  at = λ d h. elim (Bool-cases (ltb (length d.binary) (d.cursor + w))) [
    | inl e ↦ rw e tt
    | inr e ↦
        let fits : d.cursor + w ≤ length d.binary = ltb→le _ _ e in
        rw (e, unpack_fits w d.cursor d.binary fits) (refl, omega arith, fits)
  ];
}

ruleset parts = (
  Behaves-pure, Behaves-bind, Behaves-if, read_byte-Behaves, read_nbytes-Behaves,
  read_le_uint-Behaves, read_le_int-Behaves,
)

read_varint-Behaves : Behaves read_varint
unfolding read_varint read_varint_tail
read_varint-Behaves = search parts

read_varbytes-Behaves : Behaves read_varbytes
unfolding read_varbytes
read_varbytes-Behaves = search (parts, read_varint-Behaves)

read_many-Behaves :
    {A : Type 0} (read : Read A) → Behaves read → (n : ℕ) → Behaves (read_many read n)
unfolding read_many
read_many-Behaves read h zero = search parts
read_many-Behaves read h (suc n) =
    Behaves-bind read _ h
      λ a. Behaves-bind (read_many read n) _ (read_many-Behaves read h n) (λ rest. Behaves-pure _)

read_input-Behaves : Behaves read_input
unfolding read_input
read_input-Behaves = search (parts, read_varbytes-Behaves) depth 9

read_output-Behaves : Behaves read_output
unfolding read_output
read_output-Behaves = search (parts, read_varbytes-Behaves) depth 9

read_inputs-Behaves : Behaves read_inputs
unfolding read_inputs
read_inputs-Behaves =
    Behaves-bind _ _ read_varint-Behaves (read_many-Behaves read_input read_input-Behaves)

read_outputs-Behaves : Behaves read_outputs
unfolding read_outputs
read_outputs-Behaves =
    Behaves-bind _ _ read_varint-Behaves (read_many-Behaves read_output read_output-Behaves)

read_tx-Behaves : Behaves read_tx
unfolding read_tx
read_tx-Behaves = search (parts, read_inputs-Behaves, read_outputs-Behaves) depth 9

-- From a cursor inside the binary, on any bytes at all, reading a transaction either succeeds with
-- the binary unchanged and the cursor moved on to a place not past its end, or raises IndexError,
-- ValueError or AssertionError: never struct.error.
pub read_tx_outcome : (d : Deserializer) → d.cursor ≤ length d.binary → Outcome d (read_tx d)
read_tx_outcome d h = read_tx-Behaves.at d h
