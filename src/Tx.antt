-- ===== src/Tx.antt =====
-- electrumx/lib/tx.py: transactions and their serialization. `Tx`, `TxInput` and `TxOutput` are
-- named tuples; `version` and `value` are signed.
pub mod Deserializer
pub mod RoundTrip
pub mod Failures
pub mod Hash
use rxin_dexer.Prelude.{
  ℕ, Bool, ◌&&◌, ℤ, List, [], ◌∷◌, ◌++◌, ◌==◌, length, replicate, ◌≡◌, refl, list_eq,
}
use rxin_dexer.Prelude.Result.{Result, ok, ◌>>=◌}
use rxin_dexer.Util.{Bytes, pack_le_uint, pack_le_int, pack_varint, pack_varbytes}

pub record TxInput : Type 0 where
  pub prev_hash : Bytes
  pub prev_idx : ℕ
  pub script : Bytes
  pub sequence : ℕ

pub record TxOutput : Type 0 where
  pub value : ℤ
  pub pk_script : Bytes

pub record Tx : Type 0 where
  pub version : ℤ
  pub inputs : List TxInput
  pub outputs : List TxOutput
  pub locktime : ℕ

abbrev zero_hash : Bytes
zero_hash = replicate 32 0

abbrev minus_1 : ℕ
minus_1 = 4294967295

unfoldable pub is_generation : TxInput → Bool
is_generation i = i.prev_idx == minus_1 && list_eq i.prev_hash zero_hash

-- `b''.join` of two parts: the first exception is raised, else the bytes are joined.
infixr 6 ◌<>◌
abbrev pub ◌<>◌ : Result Bytes → Result Bytes → Result Bytes
m <> k = do a ← m; b ← k; ok (a ++ b)

unfoldable pub serialize_input : TxInput → Result Bytes
serialize_input i =
    ok i.prev_hash
    <> (pack_le_uint 4 i.prev_idx <> (pack_varbytes i.script <> pack_le_uint 4 i.sequence))

unfoldable pub serialize_output : TxOutput → Result Bytes
serialize_output o = pack_le_int 8 o.value <> pack_varbytes o.pk_script

-- `b''.join(x.serialize() for x in items)`
unfoldable pub join_all : {A : Type 0} → (A → Result Bytes) → List A → Result Bytes
join_all part [] = ok []
join_all part (x ∷ xs) = part x <> join_all part xs

unfoldable pub serialize : Tx → Result Bytes
serialize tx =
    pack_le_int 4 tx.version
    <> (pack_varint (length tx.inputs)
        <> (join_all serialize_input tx.inputs
            <> (pack_varint (length tx.outputs)
                <> (join_all serialize_output tx.outputs <> pack_le_uint 4 tx.locktime))))
