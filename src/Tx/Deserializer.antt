-- ===== src/Tx/Deserializer.antt =====
-- The class Deserializer of electrumx/lib/tx.py: a cursor over a byte string. A method maps the
-- deserializer to its result and the deserializer with the cursor moved, or to the exception.
pub mod Reads
pub mod Parts
use mathlib.Core.List.{reverse}
use rxin_dexer.Prelude.{
  ℕ, zero, suc, ◌+◌, ℤ, List, [], ◌∷◌, ltb, leb, ◌==◌, if◌then◌else◌, length, get_elem?,
}
use rxin_dexer.Prelude.Result.{
  Result, ok, err, index_error, value_error, assertion_error, guard, from_option,
}
use rxin_dexer.Util.{
  Bytes, slice, of_le, unpack_le_uint_from, unpack_le_int_from, unpack_be_uint_from,
}
use rxin_dexer.Tx.{Tx, TxInput, TxOutput}

pub record Deserializer : Type 0 where
  pub binary : Bytes
  pub cursor : ℕ

abbrev pub Read : Type 0 → Type 0
Read A = Deserializer → Result (A × Deserializer)

abbrev pub resume :
    {A B : Type 0} → Result (A × Deserializer) → (A → Read B) → Result (B × Deserializer)
resume (ok (a, d)) f = f a d
resume (err e) f = err e

infixl 5 ◌>>=◌ ◌>>◌
unfoldable pub ◌>>=◌ : {A B : Type 0} → Read A → (A → Read B) → Read B
◌>>=◌ m f d = resume (m d) f

abbrev pub ◌>>◌ : {B : Type 0} → Read (Unit {0}) → Read B → Read B
m >> k = m >>= λ _. k

unfoldable pub pure : {A : Type 0} → A → Read A
pure a d = ok (a, d)

-- `self.cursor += n`
abbrev pub advance : ℕ → Deserializer → Deserializer
advance n d = record d { cursor = d.cursor + n }

-- An expression that may raise, evaluated at the deserializer.
abbrev pub at : {A : Type 0} → Result A → Read A
at (ok a) d = ok (a, d)
at (err e) d = err e

unfoldable pub eval : {A : Type 0} → (Deserializer → Result A) → Read A
eval f d = at (f d) d

unfoldable pub skip : ℕ → Read (Unit {0})
skip n d = ok (tt, advance n d)

unfoldable pub read_byte : Read ℕ
read_byte = do b ← eval (λ d. from_option (get_elem? d.binary d.cursor) index_error); skip 1; pure b

-- The cursor is moved before the assertion, and the slice is taken from where it was.
unfoldable pub read_nbytes : ℕ → Read Bytes
read_nbytes n d =
    if leb (d.cursor + n) (length d.binary)
    then ok (slice d.binary d.cursor (d.cursor + n), advance n d)
    else err assertion_error

unfoldable pub ensure : ℕ → Read (Unit {0})
ensure n d = if ltb (length d.binary) (d.cursor + n) then err value_error else ok (tt, d)

-- _read_le_uint16, _read_le_uint32 and _read_le_uint64 at the widths 2, 4 and 8.
unfoldable pub read_le_uint : ℕ → Read ℕ
read_le_uint w = do
  ensure w
  result ← eval (λ d. unpack_le_uint_from w d.binary d.cursor)
  skip w
  pure result

-- _read_le_int32 and _read_le_int64 at the widths 4 and 8.
unfoldable pub read_le_int : ℕ → Read ℤ
read_le_int w = do
  ensure w
  result ← eval (λ d. unpack_le_int_from w d.binary d.cursor)
  skip w
  pure result

unfoldable pub read_be_uint16 : Read ℕ
read_be_uint16 = do
  ensure 2
  result ← eval (λ d. unpack_be_uint_from 2 d.binary d.cursor)
  skip 2
  pure result

-- What follows the first byte of a varint.
unfoldable pub read_varint_tail : ℕ → Read ℕ
read_varint_tail n =
    if ltb n 253
    then pure n
    else if n == 253
    then read_le_uint 2
    else if n == 254
    then read_le_uint 4
    else read_le_uint 8

unfoldable pub read_varint : Read ℕ
read_varint = do n ← read_byte; read_varint_tail n

unfoldable pub read_varbytes : Read Bytes
read_varbytes = do n ← read_varint; read_nbytes n

-- `[read() for _ in range(n)]`
unfoldable pub read_many : {A : Type 0} → Read A → ℕ → Read (List A)
read_many read zero = pure []
read_many read (suc n) = do a ← read; rest ← read_many read n; pure (a ∷ rest)

unfoldable pub read_input : Read TxInput
read_input = do
  prev_hash ← read_nbytes 32
  prev_idx ← read_le_uint 4
  script ← read_varbytes
  sequence ← read_le_uint 4
  pure (record { prev_hash = prev_hash; prev_idx = prev_idx; script = script; sequence = sequence })

unfoldable pub read_output : Read TxOutput
read_output = do
  value ← read_le_int 8
  pk_script ← read_varbytes
  pure (record { value = value; pk_script = pk_script })

unfoldable pub read_inputs : Read (List TxInput)
read_inputs = do n ← read_varint; read_many read_input n

unfoldable pub read_outputs : Read (List TxOutput)
read_outputs = do n ← read_varint; read_many read_output n

unfoldable pub read_tx : Read Tx
read_tx = do
  version ← read_le_int 4
  inputs ← read_inputs
  outputs ← read_outputs
  locktime ← read_le_uint 4
  pure (record { version = version; inputs = inputs; outputs = outputs; locktime = locktime })

-- The size is that of the whole binary, not of the transaction in it.
unfoldable pub read_tx_and_vsize : Read (Tx × ℕ)
read_tx_and_vsize = do tx ← read_tx; eval (λ d. ok (tx, length d.binary))
