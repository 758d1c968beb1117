-- ===== src/BlockProcessor/Connect.antt =====
-- An independent description of what connecting a block does to the set of unspent outputs, as a map
-- from outpoints to values: the outputs that the inputs name go, then the new outputs come.
pub mod Maps
use rxin_dexer.Prelude.{
  ℕ, ◌+◌, ◌<◌, ◌≤◌, ◌^◌, ◌≡◌, Bool, true, false, ℤ, pos, negsuc, Option, none, some, List, [], ◌∷◌,
  ◌++◌, if◌then◌else◌, length, take, drop,
}
use rxin_dexer.Prelude.Result.{Result, ok, err}
use rxin_dexer.Util.{Bytes, to_le}
use rxin_dexer.Tx.{Tx, TxInput, TxOutput, is_generation}
use rxin_dexer.Script.{zero_refs}
use rxin_dexer.Script.Template.{get_stateseperator_index}
use rxin_dexer.BlockProcessor.{hashx_len, output_indexable}
use rxin_dexer.BlockProcessor.Advance.{BlockTx}
use rxin_dexer.BlockProcessor.View.{View, Entry, insert, erase}

-- The outpoints that a transaction spends.
unfoldable pub spent_keys : List TxInput → List Bytes
spent_keys [] = []
spent_keys (txin ∷ inputs) =
    let rest = spent_keys inputs in
    if is_generation txin then rest else (txin.prev_hash ++ to_le 4 txin.prev_idx) ∷ rest

-- The value kept for an output: two hashes of 11 and 32 bytes, 5 bytes of the transaction's number
-- and 8 of the amount.
unfoldable pub new_value :
    (Bytes → Bytes) → ℕ → Bytes → Result Bool → Result Bytes → Result ℕ → ℤ → Option Bytes
new_value sha256 tx_num s (ok true) (ok zeroed) (ok i) (pos amount) = some (
    take hashx_len (sha256 zeroed)
    ++ (sha256 (drop i s) ++ (take 5 (to_le 8 tx_num) ++ to_le 8 amount)))
new_value sha256 tx_num s _ _ _ _ = none

abbrev pub value_of_output : (Bytes → Bytes) → ℕ → TxOutput → Option Bytes
value_of_output sha256 tx_num o =
    new_value sha256 tx_num o.pk_script (output_indexable o.pk_script) (zero_refs o.pk_script)
      (get_stateseperator_index o.pk_script) o.value

unfoldable pub with_entry : Bytes → Option Bytes → List Entry → List Entry
with_entry k none rest = rest
with_entry k (some v) rest = (k, v) ∷ rest

-- The outputs that a transaction creates, from the index on.
unfoldable pub created : (Bytes → Bytes) → ℕ → Bytes → ℕ → List TxOutput → List Entry
created sha256 tx_num h idx [] = []
created sha256 tx_num h idx (o ∷ outputs) =
    with_entry (h ++ to_le 4 idx) (value_of_output sha256 tx_num o)
      (created sha256 tx_num h (idx + 1) outputs)

unfoldable pub erase_all : List Bytes → View → View
erase_all [] view = view
erase_all (k ∷ ks) view = erase_all ks (erase k view)

unfoldable pub insert_all : List Entry → View → View
insert_all [] view = view
insert_all ((k, v) ∷ entries) view = insert_all entries (insert k v view)

unfoldable pub connect_tx : (Bytes → Bytes) → ℕ → BlockTx → View → View
connect_tx sha256 tx_num (tx, h) view =
    insert_all (created sha256 tx_num h 0 tx.outputs) (erase_all (spent_keys tx.inputs) view)

unfoldable pub connect : (Bytes → Bytes) → ℕ → List BlockTx → View → View
connect sha256 tx_num [] view = view
connect sha256 tx_num (tx ∷ txs) view =
    connect sha256 (tx_num + 1) txs (connect_tx sha256 tx_num tx view)

-- The values that spending gives up, in order.
unfoldable pub or_no_value : Option Bytes → Bytes
or_no_value none = []
or_no_value (some v) = v

unfoldable pub given_up : List Bytes → View → List Bytes
given_up [] view = []
given_up (k ∷ ks) view = or_no_value (view k) ∷ given_up ks (erase k view)

unfoldable pub given_up_by : (Bytes → Bytes) → ℕ → List BlockTx → View → List Bytes
given_up_by sha256 tx_num [] view = []
given_up_by sha256 tx_num ((tx, h) ∷ txs) view =
    given_up (spent_keys tx.inputs) view
    ++ given_up_by sha256 (tx_num + 1) txs (connect_tx sha256 tx_num (tx, h) view)

-- Every value of the map has the length of an entry of the undo information.
abbrev pub IsSized : View → Type 0
IsSized view = (k v : Bytes) → view k ≡ some v → length v ≡ 56

-- The keys have values, each until it is spent.
abbrev pub Live : View → List Bytes → Type 0
Live view [] = Unit
Live view (k ∷ ks) = ((v : Bytes) × (view k ≡ some v)) × Live (erase k view) ks

-- The keys are new, each until it is added.
abbrev pub Fresh : View → List Entry → Type 0
Fresh view [] = Unit
Fresh view ((k, v) ∷ entries) = (view k ≡ none) × Fresh (insert k v view) entries

-- What the format of transactions bounds: hashes have 32 bytes, indexes 32 bits.
abbrev pub InputsFit : List TxInput → Type 0
InputsFit [] = Unit
InputsFit (txin ∷ inputs) =
    (length txin.prev_hash ≡ 32) × (txin.prev_idx < 256 ^ 4) × InputsFit inputs

-- Amounts are not negative and have 64 bits.
abbrev pub OutputsFit : List TxOutput → Type 0
OutputsFit [] = Unit
OutputsFit (o ∷ outputs) =
    ((amount : ℕ) × (o.value ≡ pos amount) × (amount < 256 ^ 8)) × OutputsFit outputs

abbrev pub Fits : BlockTx → Type 0
Fits (tx, h) =
    (length h ≡ 32) × InputsFit tx.inputs × OutputsFit tx.outputs × (length tx.outputs ≤ 256 ^ 4)

-- A transaction that spends outputs that are there, and whose own outpoints are not there yet.
abbrev pub Connects : (Bytes → Bytes) → ℕ → BlockTx → View → Type 0
Connects sha256 tx_num (tx, h) view =
    Live view (spent_keys tx.inputs)
    × Fresh (erase_all (spent_keys tx.inputs) view) (created sha256 tx_num h 0 tx.outputs)

abbrev pub IsValid : (Bytes → Bytes) → ℕ → List BlockTx → View → Type 0
IsValid sha256 tx_num [] view = Unit
IsValid sha256 tx_num (tx ∷ txs) view =
    Fits tx
    × Connects sha256 tx_num tx view
    × IsValid sha256 (tx_num + 1) txs (connect_tx sha256 tx_num tx view)
