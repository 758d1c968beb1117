-- ===== src/Examples/Blocks.antt =====
-- Concrete blocks and histories for the theorems on electrumx/server/block_processor.py and
-- electrumx/server/history.py.
use rxin_dexer.Prelude.{
  ℕ, ltb, lt→ltb, le→ltb, negsuc, ◌+◌, ◌%◌, ◌≡◌, refl, true, false, pos, Option, none, some, List,
  [], ◌∷◌, ◌++◌, arith, if◌then◌else◌, list_eq, length, replicate, length-replicate, inl, inr, ◌⊎◌,
  ◌≢◌, ◌==◌, Bool-cases, list_eq→eq, list_eq_refl, All,
}
use rxin_dexer.Prelude.Result.{ok}
use rxin_dexer.Util.{Bytes, to_le, of_le, pack_le_uint}
use rxin_dexer.Undo.{pack_be_uint}
use rxin_dexer.Tx.{is_generation}
use rxin_dexer.Script.{
  is_unspendable_legacy, zero_refs, except_script, while_ops, zero_round, zero_operand, operand,
  is_checksig, is_input_ref,
}
use rxin_dexer.Script.Template.{get_stateseperator_index, sep_loop, sep_operand}
use rxin_dexer.Database.{
  join, block_undo_key, ref_loc_undo_key, read_undo_info, read_ref_loc_undo_info,
}
use rxin_dexer.Store.Cache.{get}
use rxin_dexer.BlockProcessor.{
  Env, BlockProcessor, Utxos, RefCaches, except_parse, output_indexable, hdb_prefix, tx_num_of,
  udb_key_of, truthy, spend_utxo,
}
use rxin_dexer.BlockProcessor.Advance.{BlockTx, advance_txs}
use rxin_dexer.BlockProcessor.Backup.{backup_txs}
use rxin_dexer.BlockProcessor.View.{
  View, Holds, on_disk, not_deleted, stored, is_hash, or_next, insert, erase, IsUtxoDb,
}
use rxin_dexer.BlockProcessor.View.Spend.{spend_utxo-Holds}
use rxin_dexer.BlockProcessor.ReorgRange.{
  hashes_from, calc_reorg_range, ForkAt, calc_reorg_range-ForkAt,
}
use rxin_dexer.BlockProcessor.Indexable.{Parses, output_indexable_total}
use rxin_dexer.Script.Grammar.{Item}
use rxin_dexer.Script.Decode.{IsItem}
use rxin_dexer.Script.Parse.{encode_all}
use rxin_dexer.Store.Keys.{has}
use rxin_dexer.BlockProcessor.Connect.{
  spent_keys, new_value, with_entry, created, erase_all, insert_all, connect_tx, connect,
  given_up_by, IsSized, IsValid,
}
use rxin_dexer.BlockProcessor.Refine.Blocks.{HashesHaveLength, advance_txs-connect}
use rxin_dexer.BlockProcessor.Reorg.{HasUndo, backup_txs-advance_txs}

abbrev sha256 : Bytes → Bytes
sha256 s = replicate 32 (length s % 256)

sha256-HashesHaveLength : HashesHaveLength sha256
sha256-HashesHaveLength s = length-replicate 32 (length s % 256)

-- A database without outputs, that holds one value for every key.
abbrev env_with : (Bytes → Option Bytes) → Env
env_with db = record {
  utxo_db = db;
  iterator = λ prefix. [];
  fs_tx_hash = λ tx_num. none;
  sha256 = sha256;
  header_hash = sha256;
}

abbrev no_refs : RefCaches
no_refs = record { ref_cache = []; ref_mint_cache = []; ref_loc_cache = []; data_cache = [] }

abbrev no_utxos : Utxos
no_utxos = record { utxo_cache = []; db_deletes = [] }

abbrev processor : BlockProcessor
processor = record {
  utxos = no_utxos;
  ref_caches = no_refs;
  touched = [];
  height = 9;
  tip = [];
  headers = [];
  tx_count = 5;
  tx_counts = 5 ∷ [];
  tx_hashes = [];
  unflushed = [];
  undo_infos = [];
  ref_loc_undo_infos = [];
}

abbrev nothing : View
nothing k = none

-- A coinbase with a spendable and an unspendable output, and a transaction that spends the former
-- and mints the reference that it gives.
abbrev coinbase_hash : Bytes
coinbase_hash = replicate 32 1

abbrev coinbase : BlockTx
coinbase = (
  record {
    version = pos 1;
    inputs =
        record { prev_hash = replicate 32 0; prev_idx = 4294967295; script = []; sequence = 0 }
        ∷ [];
    outputs =
        record { value = pos 50; pk_script = 81 ∷ [] }
        ∷ record { value = pos 0; pk_script = 106 ∷ [] }
        ∷ [];
    locktime = 0;
  },
  coinbase_hash,
)

abbrev minting : BlockTx
minting = (
  record {
    version = pos 1;
    inputs = record { prev_hash = coinbase_hash; prev_idx = 0; script = []; sequence = 0 } ∷ [];
    outputs =
        record { value = pos 40; pk_script = 216 ∷ (coinbase_hash ++ (0 ∷ 0 ∷ 0 ∷ 0 ∷ [])) } ∷ [];
    locktime = 0;
  },
  replicate 32 2,
)

abbrev block : List BlockTx
block = coinbase ∷ minting ∷ []

block-IsValid : IsValid sha256 5 block nothing
unfolding spent_keys created erase_all insert_all connect_tx new_value with_entry insert erase
    is_generation list_eq output_indexable is_unspendable_legacy zero_refs except_script while_ops
    zero_round zero_operand operand is_checksig is_input_ref except_parse get_stateseperator_index
    sep_loop sep_operand to_le
block-IsValid = (
  (
    refl,
    (refl, omega arith, tt),
    ((50, refl, omega arith), ((0, refl, omega arith), tt)),
    omega arith,
  ),
  (tt, (refl, tt)),
  (
    (refl, (refl, omega arith, tt), ((40, refl, omega arith), tt), omega arith),
    (((_, refl), tt), (refl, tt)),
    tt,
  ),
)

nothing-IsSized : IsSized nothing
nothing-IsSized k v e = cc e

empty-IsUtxoDb : (db : Bytes → Option Bytes) → IsUtxoDb (env_with db)
empty-IsUtxoDb db p = tt

no_utxos-Holds : (db : Bytes → Option Bytes) → Holds (env_with db) no_utxos nothing
unfolding on_disk not_deleted stored get
no_utxos-Holds db k l = inl (refl, refl)

abbrev no_values : Bytes → Option Bytes
no_values k = none

advance_txs-connect_example :
    (after : BlockProcessor) × (undo_info : List Bytes) × (ref_loc_undo_info : List Bytes)
    × (advance_txs (env_with no_values) block processor ≡ ok (after, undo_info, ref_loc_undo_info))
    × Holds (env_with no_values) after.utxos (connect sha256 5 block nothing)
    × (undo_info ≡ given_up_by sha256 5 block nothing)
    × (after.tx_count ≡ 5 + 2)
advance_txs-connect_example =
    advance_txs-connect (env_with no_values) block processor nothing (empty-IsUtxoDb no_values)
      sha256-HashesHaveLength nothing-IsSized (omega arith) block-IsValid (no_utxos-Holds no_values)

-- The block taken, as its parts.
taken :
    (after : BlockProcessor) × (undo_info : List Bytes) × (ref_loc_undo_info : List Bytes)
    × (advance_txs (env_with no_values) block processor ≡ ok (after, undo_info, ref_loc_undo_info))
taken =
    let (after, undo_info, locs, ran, _, _, _) =
      advance_txs-connect (env_with no_values) block processor nothing (empty-IsUtxoDb no_values)
        sha256-HashesHaveLength nothing-IsSized (omega arith) block-IsValid
        (no_utxos-Holds no_values) in
    (after, undo_info, locs, ran)

-- The database with the undo information at height 10, and the processor with its references flushed.
abbrev with_undo : Bytes → Option Bytes
with_undo k = if list_eq k (85 ∷ 0 ∷ 0 ∷ 0 ∷ 10 ∷ []) then some (join (taken.1)) else some []

abbrev tip_processor : BlockProcessor
tip_processor = record taken.0 { ref_caches = no_refs; height = 10 }

with_undo-HasUndo : HasUndo (env_with with_undo) 10 (taken.1)
unfolding read_undo_info read_ref_loc_undo_info block_undo_key ref_loc_undo_key pack_be_uint
    pack_le_uint to_le list_eq
with_undo-HasUndo = (refl, [], refl)

same-Holds :
    (now : View)
    → Holds (env_with no_values) taken.0.utxos now
    → Holds (env_with with_undo) tip_processor.utxos now
unfolding on_disk not_deleted stored
same-Holds now holds = holds

backup_txs-advance_txs_example :
    (back : BlockProcessor) × (backup_txs (env_with with_undo) block tip_processor ≡ ok back)
    × Holds (env_with with_undo) back.utxos nothing
    × (back.tx_count ≡ 5)
backup_txs-advance_txs_example =
    backup_txs-advance_txs (env_with no_values) (env_with with_undo) block processor (taken.0)
      tip_processor (taken.1) (taken.2) nothing (empty-IsUtxoDb no_values)
      (empty-IsUtxoDb with_undo) sha256-HashesHaveLength nothing-IsSized (omega arith) block-IsValid
      (no_utxos-Holds no_values) (taken.3) same-Holds (refl, refl, refl) refl with_undo-HasUndo

-- Two outputs in the database whose transactions share the first four bytes of their hashes.
abbrev first_hash : Bytes
first_hash = 7 ∷ 7 ∷ 7 ∷ 7 ∷ replicate 28 1

abbrev second_hash : Bytes
second_hash = 7 ∷ 7 ∷ 7 ∷ 7 ∷ replicate 28 2

abbrev shared_prefix : Bytes
shared_prefix = 104 ∷ 7 ∷ 7 ∷ 7 ∷ 7 ∷ 0 ∷ 0 ∷ 0 ∷ 0 ∷ []

abbrev colliding : List (Bytes × Bytes)
colliding =
    (shared_prefix ++ (3 ∷ 0 ∷ 0 ∷ 0 ∷ 0 ∷ []), replicate 43 8)
    ∷ (shared_prefix ++ (4 ∷ 0 ∷ 0 ∷ 0 ∷ 0 ∷ []), replicate 43 9)
    ∷ []

abbrev colliding_db : Env
colliding_db = record {
  utxo_db = λ key. some (50 ∷ 0 ∷ 0 ∷ 0 ∷ 0 ∷ 0 ∷ 0 ∷ 0 ∷ []);
  iterator = λ prefix. if list_eq prefix shared_prefix then colliding else [];
  fs_tx_hash = λ tx_num. some (if tx_num == 3 then first_hash else second_hash);
  sha256 = sha256;
  header_hash = sha256;
}

colliding-IsUtxoDb : IsUtxoDb colliding_db
unfolding tx_num_of of_le
colliding-IsUtxoDb p = elim (Bool-cases (list_eq p shared_prefix)) [
  | inr other ↦ rw other tt
  | inl same ↦
      rw (list_eq→eq p shared_prefix same, list_eq_refl shared_prefix)
        ((refl, first_hash, refl), ((refl, second_hash, refl), tt))
]

colliding-Holds : Holds colliding_db no_utxos (on_disk colliding_db [])
unfolding get
colliding-Holds k l = inr (refl, refl)

abbrev second_value : Bytes
second_value = replicate 43 9 ++ (4 ∷ 0 ∷ 0 ∷ 0 ∷ 0 ∷ 50 ∷ 0 ∷ 0 ∷ 0 ∷ 0 ∷ 0 ∷ 0 ∷ 0 ∷ [])

second_there : on_disk colliding_db [] (second_hash ++ to_le 4 0) ≡ some second_value
unfolding on_disk not_deleted stored is_hash or_next to_le hdb_prefix tx_num_of of_le udb_key_of
    truthy list_eq has
second_there = refl

spend_utxo-Holds_example :
    (after : Utxos) × (spend_utxo colliding_db second_hash 0 no_utxos ≡ ok (second_value, after))
    × Holds colliding_db after (erase (second_hash ++ to_le 4 0) (on_disk colliding_db []))
spend_utxo-Holds_example =
    spend_utxo-Holds colliding_db no_utxos (on_disk colliding_db []) second_hash 0 second_value
      colliding-IsUtxoDb colliding-Holds refl (omega arith) (omega arith) second_there

-- A push whose data are cut off.
output_indexable_total_example :
    ((its : List Item) × All IsItem its
      × (encode_all its ≡ 5 ∷ 97 ∷ 98 ∷ [])
      × (is_unspendable_legacy (5 ∷ 97 ∷ 98 ∷ []) ≡ false)
      × (output_indexable (5 ∷ 97 ∷ 98 ∷ []) ≡ ok true)
      × Parses (5 ∷ 97 ∷ 98 ∷ []) its)
    ⊎ ((output_indexable (5 ∷ 97 ∷ 98 ∷ []) ≡ ok false)
        × ((is_unspendable_legacy (5 ∷ 97 ∷ 98 ∷ []) ≡ true)
            ⊎ ((its : List Item) → All IsItem its → encode_all its ≢ 5 ∷ 97 ∷ 98 ∷ [])))
output_indexable_total_example = output_indexable_total (5 ∷ 97 ∷ 98 ∷ [])

-- Two chains that fork at height 6.
abbrev our_chain : ℕ → Bytes
our_chain height = 1 ∷ height ∷ []

abbrev their_chain : ℕ → Bytes
their_chain height = if ltb height 6 then 1 ∷ height ∷ [] else 2 ∷ height ∷ []

chains-ForkAt : ForkAt 6 our_chain their_chain
unfolding list_eq
chains-ForkAt = (
  (λ height below. rw (lt→ltb height 6 below) refl),
  (λ height above. rw (le→ltb height 6 above) refl),
)

calc_reorg_range-ForkAt_example :
    calc_reorg_range (hashes_from our_chain) (hashes_from their_chain) 9 (negsuc 0)
    ≡ ok (pos 6, pos 4)
calc_reorg_range-ForkAt_example =
    calc_reorg_range-ForkAt our_chain their_chain 6 9 0 chains-ForkAt (omega arith) (omega arith)
