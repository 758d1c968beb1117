-- ===== src/Tx/RoundTrip.antt =====
-- Deserializing what electrumx/lib/tx.py serialized.
use native.Mathlib.Nat.{add-zero}
use mathlib.Core.Path.{subst}
use rxin_dexer.Prelude.{
  ℕ, ◌+◌, ◌≡◌, refl, sym, append_assoc, List, [], ◌∷◌, ◌++◌, arith, length, All, ap,
}
use rxin_dexer.Prelude.Result.{Result, ok, err, ◌>>=◌, >>=-eq-ok}
use rxin_dexer.Util.{Bytes, pack_le_uint, pack_varint, pack_varbytes}
use rxin_dexer.Tx.{
  Tx, TxInput, TxOutput, ◌<>◌, serialize_input, serialize_output, join_all, serialize,
}
use rxin_dexer.Tx.Deserializer
use rxin_dexer.Tx.Deserializer.{
  Deserializer, Read, read_nbytes, read_le_uint, read_le_int, read_varint, read_varbytes, read_many,
  read_input, read_output, read_inputs, read_outputs, read_tx, pure,
}
use rxin_dexer.Tx.Deserializer.Reads.{Reads, Reads-bind, Reads-last}
use rxin_dexer.Tx.Deserializer.Parts.{
  read_nbytes-Reads, pack_le_uint-Reads, pack_le_int-Reads, pack_varint-Reads, pack_varbytes-Reads,
}

-- The reader returns `a` from whatever the serializer produced.
pub record Undoes {A : Type 0} (s : Result Bytes) (read : Read A) (a : A) : Type 0 where
  pub reads : (bs : Bytes) → s ≡ ok bs → Reads read bs a

module _ {A B : Type 0} (s : Result Bytes) (m : Read A) (f : A → Read B) (a : A) (b : B) where
  Undoes-bind :
      (k : Result Bytes)
      → Undoes s m a
      → Undoes k (f a) b
      → Undoes (s <> k) (Deserializer.◌>>=◌ m f) b
  Undoes-bind k hs hk = record {
    reads = λ bs p.
        let (xs, ps, q) = >>=-eq-ok s (λ x. k >>= λ y. ok (x ++ y)) p in
        let (ys, pk, r) = >>=-eq-ok k (λ y. ok (xs ++ y)) q in
        let e : xs ++ ys ≡ bs = ground arith in
        rw (← e) (Reads-bind m f xs ys a b (hs.reads xs ps) (hk.reads ys pk));
  }

  Undoes-last : Undoes s m a → f a ≡ pure b → Undoes s (Deserializer.◌>>=◌ m f) b
  Undoes-last hs e = record { reads = λ bs p. Reads-last m f bs a b (hs.reads bs p) e }

Undoes-nil : {A : Type 0} (a : A) → Undoes (ok []) (pure a) a
unfolding pure
Undoes-nil a = record {
  reads =
      λ bs p. let e : [] ≡ bs = ground arith in rw (← e) (record { run = λ d rest h. rw add-zero });
}

uint-Undoes : (w n : ℕ) → Undoes (pack_le_uint w n) (read_le_uint w) n
uint-Undoes w n = record { reads = pack_le_uint-Reads w n }

varint-Undoes : (n : ℕ) → Undoes (pack_varint n) read_varint n
varint-Undoes n = record { reads = pack_varint-Reads n }

varbytes-Undoes : (s : Bytes) → Undoes (pack_varbytes s) read_varbytes s
varbytes-Undoes s = record { reads = pack_varbytes-Reads s }

hash-Undoes : (h : Bytes) → length h ≡ 32 → Undoes (ok h) (read_nbytes 32) h
hash-Undoes h e = record {
  reads = λ bs p. let q : h ≡ bs = ground arith in rw (← q) (rw e at (read_nbytes-Reads h));
}

-- What a transaction's input must be: its hash has 32 bytes.
abbrev pub HasHash : TxInput → Type 0
HasHash i = length i.prev_hash ≡ 32

input-Undoes : (i : TxInput) → HasHash i → Undoes (serialize_input i) read_input i
unfolding serialize_input read_input
input-Undoes i h = Undoes-bind _ (read_nbytes 32) _ i.prev_hash i _ (hash-Undoes i.prev_hash h) (
    Undoes-bind _ (read_le_uint 4) _ i.prev_idx i _ (uint-Undoes 4 i.prev_idx) (
      Undoes-bind _ read_varbytes _ i.script i _ (varbytes-Undoes i.script)
        (Undoes-last _ (read_le_uint 4) _ i.sequence i (uint-Undoes 4 i.sequence) refl)))

output-Undoes : (o : TxOutput) → Undoes (serialize_output o) read_output o
unfolding serialize_output read_output
output-Undoes o =
    Undoes-bind _ (read_le_int 8) _ o.value o _
      (record { reads = λ bs p. pack_le_int-Reads 8 o.value bs (omega arith) p })
      (Undoes-last _ read_varbytes _ o.pk_script o (varbytes-Undoes o.pk_script) refl)

-- A counted loop reads the concatenation that `join_all` wrote.
module _ {A : Type 0} (P : A → Type 0) (part : A → Result Bytes) (read : Read A)
    (each : (a : A) → P a → Undoes (part a) read a) where
  many-Undoes : (xs : List A) → All P xs → Undoes (join_all part xs) (read_many read (length xs)) xs
  unfolding join_all read_many
  many-Undoes [] h = Undoes-nil []
  many-Undoes (x ∷ xs) h =
      Undoes-bind _ read _ x (x ∷ xs) _ (each x h.0)
        (Undoes-last _ (read_many read (length xs)) _ xs (x ∷ xs) (many-Undoes xs h.1) refl)

  pub counted-Undoes :
      (xs : List A)
      → All P xs
      → Undoes
          (pack_varint (length xs) <> join_all part xs)
          (Deserializer.◌>>=◌ read_varint (read_many read))
          xs
  counted-Undoes xs h =
      Undoes-bind _ read_varint (read_many read) (length xs) xs _ (varint-Undoes (length xs))
        (many-Undoes xs h)

-- `All` of a predicate that always holds.
All-unit : {A : Type 0} (xs : List A) → All (λ _. Unit {0}) xs
All-unit [] = tt
All-unit (x ∷ xs) = (tt, All-unit xs)

join_assoc : (s t k : Result Bytes) → (s <> (t <> k)) ≡ ((s <> t) <> k)
join_assoc (err e) t k = refl
join_assoc (ok a) (err e) k = refl
join_assoc (ok a) (ok b) (err e) = refl
join_assoc (ok a) (ok b) (ok c) = ap ok (sym (append_assoc a b c))

-- As `Undoes-bind`, where the reader undoes two parts of the serialization.
Undoes-bind_two :
    {A B : Type 0} (s t : Result Bytes) (m : Read A) (f : A → Read B) (a : A) (b : B)
    (k : Result Bytes)
    → Undoes (s <> t) m a
    → Undoes k (f a) b
    → Undoes (s <> (t <> k)) (Deserializer.◌>>=◌ m f) b
Undoes-bind_two s t m f a b k hs hk =
    subst (λ (r : Result Bytes). Undoes r (Deserializer.◌>>=◌ m f) b) (sym (join_assoc s t k))
      (Undoes-bind (s <> t) m f a b k hs hk)

outputs-Undoes :
    (os : List TxOutput)
    → Undoes (pack_varint (length os) <> join_all serialize_output os) read_outputs os
unfolding read_outputs
outputs-Undoes os =
    counted-Undoes (λ _. Unit {0}) serialize_output read_output (λ o _. output-Undoes o) os
      (All-unit os)

inputs-Undoes :
    (is : List TxInput)
    → All HasHash is
    → Undoes (pack_varint (length is) <> join_all serialize_input is) read_inputs is
unfolding read_inputs
inputs-Undoes = counted-Undoes HasHash serialize_input read_input input-Undoes

pub tx-Undoes : (tx : Tx) → All HasHash tx.inputs → Undoes (serialize tx) read_tx tx
unfolding serialize read_tx
tx-Undoes tx h =
    Undoes-bind _ (read_le_int 4) _ tx.version tx _
      (record { reads = λ bs p. pack_le_int-Reads 4 tx.version bs (omega arith) p })
      (Undoes-bind_two _ _ read_inputs _ tx.inputs tx _ (inputs-Undoes tx.inputs h) (
        Undoes-bind_two _ _ read_outputs _ tx.outputs tx _ (outputs-Undoes tx.outputs)
          (Undoes-last _ (read_le_uint 4) _ tx.locktime tx (uint-Undoes 4 tx.locktime) refl)))

-- A deserializer at the start of the bytes that `serialize` produced for a transaction whose
-- previous hashes have 32 bytes reads back that transaction, and stops behind those bytes,
-- whatever bytes follow them.
pub read_tx-serialize :
    (tx : Tx) (bs rest : Bytes)
    → All HasHash tx.inputs
    → serialize tx ≡ ok bs
    → read_tx (record { binary = bs ++ rest; cursor = 0 })
      ≡ ok (tx, record { binary = bs ++ rest; cursor = length bs })
read_tx-serialize tx bs rest h p =
    let e : 0 + length bs ≡ length bs = omega arith in
    rw e at (
      ((tx-Undoes tx h).reads bs p).run (record { binary = bs ++ rest; cursor = 0 }) rest
        (record { left = refl; within = omega arith }))
