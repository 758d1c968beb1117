-- ===== src/Examples/Markets.antt =====
-- The theorems on electrumx/server/predict_index.py at small inputs.
use rxin_dexer.Prelude.{
  ℕ, ◌≡◌, ◌≢◌, refl, pos, Bool, true, false, none, some, some-ne-none, List, [], ◌∷◌, ◌++◌,
  replicate, arith, list_eq,
}
use rxin_dexer.Prelude.Result.{Result, ok, err}
use rxin_dexer.Util.{Bytes, pack_le_uint, to_le, of_le}
use rxin_dexer.Undo.{encode_undo, encode_entry, encode_value, pack_be_uint}
use rxin_dexer.Tx.{Tx, TxOutput, join_all}
use rxin_dexer.Script.{push_data}
use rxin_dexer.Store.{Db, Op, write}
use rxin_dexer.Store.Cache.{get, set}
use rxin_dexer.UndoLog.{
  undo_key, flush_pruned, flush_ops, prune_old_undo_keys, delete_range, undo_puts, by_height,
  insert_height, record_all, record_undo, append_entry, is_seen,
}
use rxin_dexer.Chunks
use rxin_dexer.Chunks.Pushes.{parse_script_chunks-push_data}
use rxin_dexer.Predict
use rxin_dexer.Predict.{Beacon}
use rxin_dexer.Predict.Record.{
  MarketRecord, to_bytes, from_bytes, bytes_middle, bytes_tail, question_bytes, from_bytes-to_bytes,
  HasSizes,
}
use rxin_dexer.Predict.Index
use rxin_dexer.Predict.Index.{PredictIndex, is_in}
use rxin_dexer.UndoLog.Restored.{Restored}
use rxin_dexer.Predict.Index.Restored.{IsMarketKey, backup_index-markets}
use rxin_dexer.Predict.Index.Queries.{get_market-flush}
use rxin_dexer.Predict.Index.Recorded.{process_tx-IsDeployed, IsDeployed}

cons-ne-nil : {x : ℕ} {xs : Bytes} → x ∷ xs ≢ []
cons-ne-nil e = cc e

parse_script_chunks-push_data_example :
    (Chunks.parse_script_chunks (106 ∷ 2 ∷ 7 ∷ 8 ∷ 1 ∷ 9 ∷ [])
      ≡ (106 ∷ []) ∷ (7 ∷ 8 ∷ []) ∷ (9 ∷ []) ∷ [])
    × (Chunks.parse_swap_chunks (106 ∷ 2 ∷ 7 ∷ 8 ∷ 1 ∷ 9 ∷ [])
        ≡ (106 ∷ []) ∷ (7 ∷ 8 ∷ []) ∷ (9 ∷ []) ∷ [])
unfolding join_all push_data
parse_script_chunks-push_data_example =
    parse_script_chunks-push_data ((7 ∷ 8 ∷ []) ∷ (9 ∷ []) ∷ []) (2 ∷ 7 ∷ 8 ∷ 1 ∷ 9 ∷ [])
      (cons-ne-nil, (cons-ne-nil, tt)) refl

-- The decoders of a text that accept every byte string.
abbrev is_utf8 : Bytes → Bool
is_utf8 b = true

abbrev utf8_replace : Bytes → Bytes
utf8_replace b = b

abbrev market : MarketRecord
market = record {
  market_ref = replicate 36 1;
  yes_ref = replicate 36 2;
  no_ref = replicate 36 3;
  expiry = 0;
  grace = 0;
  oracle = replicate 33 0;
  status = 0;
  optimistic = false;
  question = some (63 ∷ []);
  beacon_params_match = true;
  create_txid = replicate 32 9;
  create_height = 5;
}

abbrev value_or : {A : Type 0} → Result A → A → A
value_or (ok a) other = a
value_or (err e) other = other

market-HasSizes : HasSizes market
market-HasSizes = record {
  market_ref = refl;
  yes_ref = refl;
  no_ref = refl;
  oracle = refl;
  create_txid = refl;
}

abbrev market_bytes : Bytes
market_bytes = value_or (to_bytes market) []

from_bytes-to_bytes_example : from_bytes utf8_replace market_bytes ≡ ok market
unfolding to_bytes bytes_middle bytes_tail question_bytes pack_le_uint pack_be_uint to_le
from_bytes-to_bytes_example =
    from_bytes-to_bytes utf8_replace market market_bytes market-HasSizes
      (cons-ne-nil, omega arith, refl) refl

-- A beacon of the market, its singleton and its two anchors.
abbrev beacon_script : Bytes
beacon_script =
    106 ∷ 4 ∷ 82 ∷ 77 ∷ 75 ∷ 84 ∷ 1 ∷ 1 ∷ 36 ∷ replicate 36 1
    ++ (36 ∷ replicate 36 2
        ++ (36 ∷ replicate 36 3
            ++ (4 ∷ replicate 4 0
                ++ (4 ∷ replicate 4 0 ++ (33 ∷ replicate 33 0 ++ (1 ∷ 63 ∷ []))))))

abbrev singleton_script : Bytes
singleton_script =
    42 ∷ replicate 42 0
    ++ (189 ∷ 216 ∷ replicate 36 1 ++ (208 ∷ replicate 36 2 ++ (208 ∷ replicate 36 3)))

abbrev anchor_script : ℕ → Bytes
anchor_script n = 20 ∷ replicate 20 0 ++ (189 ∷ 208 ∷ replicate 36 n ++ (208 ∷ replicate 36 1))

abbrev output : Bytes → TxOutput
output script = record { value = pos 0; pk_script = script }

abbrev market_tx : Tx
market_tx = record {
  version = pos 2;
  inputs = [];
  outputs =
      output singleton_script
      ∷ output (anchor_script 2)
      ∷ output (anchor_script 3)
      ∷ output beacon_script
      ∷ [];
  locktime = 0;
}

abbrev empty_index : PredictIndex
empty_index = record { enabled = true; market_cache = []; pruned_to = 0 }

abbrev market_index : PredictIndex
market_index = record {
  enabled = true;
  market_cache = (replicate 36 1, market) ∷ [];
  pruned_to = 0;
}

abbrev empty_db : Db
empty_db k = none

indexes :
    Index.process_tx is_utf8 (replicate 32 9) market_tx 5 (replicate 36 1 ∷ []) empty_index
    ≡ market_index
unfolding Index.process_tx Index.indexed Index.first_beacon Predict.parse_market_beacon
    Predict.beacon_of_chunks Chunks.parse_script_chunks Chunks.chunk_loop Chunks.after_round
    Chunks.read_op Chunks.chunk_round Chunks.push_round list_eq Predict.beacon_fields Index.deployed
    Index.market_record Predict.parse_singleton_state Predict.state_of_parts Predict.parse_stateful
    Chunks.bare_chunk Chunks.pushdata1_round Chunks.pushdata_round Index.binds_refs
    Index.params_match Predict.is_anchor Predict.is_anchor_for Predict.is_part Predict.split_state
    Predict.state_fields set of_le
indexes = refl

changes :
    get
      (replicate 36 1)
      (Index.process_tx is_utf8
        (replicate 32 9)
        market_tx
        5
        (replicate 36 1 ∷ [])
        empty_index).market_cache
    ≢ none
unfolding get list_eq
changes e = some-ne-none market (rw indexes at e)

process_tx-IsDeployed_example :
    (b : Beacon) × (m : MarketRecord) × (true ≡ true)
    × (Index.first_beacon is_utf8 market_tx.outputs ≡ some b)
    × (b.market_ref ≡ replicate 36 1)
    × (is_in (replicate 36 1) (replicate 36 1 ∷ []) ≡ true)
    × (get
          (replicate 36 1)
          (Index.process_tx is_utf8
            (replicate 32 9)
            market_tx
            5
            (replicate 36 1 ∷ [])
            empty_index).market_cache
        ≡ some m)
    × IsDeployed b market_tx.outputs (replicate 32 9) 5 m
unfolding get
process_tx-IsDeployed_example =
    process_tx-IsDeployed is_utf8 (replicate 32 9) market_tx 5 (replicate 36 1 ∷ []) empty_index
      (replicate 36 1) changes

abbrev flushed : List Op × PredictIndex
flushed = value_or (Index.flush 2 5 empty_db market_index) ([], empty_index)

abbrev key_5 : Bytes
key_5 = 80 ∷ 77 ∷ 117 ∷ 0 ∷ 0 ∷ 0 ∷ 5 ∷ []

get_market-flush_example :
    Index.get_market utf8_replace (write flushed.0 empty_db) flushed.1 (replicate 36 1)
    ≡ ok (some market)
unfolding flush_pruned flush_ops prune_old_undo_keys delete_range undo_key undo_puts by_height
    insert_height record_all record_undo append_entry is_seen encode_undo encode_entry encode_value
    pack_be_uint pack_le_uint to_le list_eq Index.flush Index.staged_of Index.stage_market to_bytes
    bytes_middle bytes_tail question_bytes get Index.get_market Index.cached_or_stored
get_market-flush_example =
    get_market-flush utf8_replace 2 5 empty_db market_index flushed (replicate 36 1) refl (refl, tt)
      (market-HasSizes, (cons-ne-nil, omega arith, refl), (market_bytes, refl)) refl

backup_index-markets_example :
    (ops : List Op) × (Index.backup_index (write flushed.0 empty_db) 5 market_index ≡ ok ops)
    × Restored
        (IsMarketKey market_index.market_cache 5)
        key_5
        empty_db
        (write flushed.0 empty_db)
        (write ops (write flushed.0 empty_db))
unfolding flush_pruned flush_ops prune_old_undo_keys delete_range undo_key undo_puts by_height
    insert_height record_all record_undo append_entry is_seen encode_undo encode_entry encode_value
    pack_be_uint pack_le_uint to_le list_eq Index.flush Index.staged_of Index.stage_market to_bytes
    bytes_middle bytes_tail question_bytes get
backup_index-markets_example =
    backup_index-markets 2 5 empty_db market_index flushed 5 key_5 refl (refl, tt) refl refl
      (λ k. tt) refl
