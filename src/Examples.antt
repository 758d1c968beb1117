-- ===== src/Examples.antt =====
-- Runs of the theorems on small inputs of electrumx/lib/tx.py, script.py, merkle.py and
-- electrumx/server/rate_limiter.py.
pub mod Blocks
pub mod Histories
pub mod Indexes
pub mod Realms
pub mod Swaps
pub mod Markets
use Prim.Native.String.{String}
use rxin_dexer.Prelude.{
  ℕ, ◌%◌, ◌≡◌, ◌≢◌, ◌↔◌, ◌⊎◌, refl, Bool, true, false, Option, none, some, List, [], ◌∷◌, ◌++◌, pos,
  negsuc, length, replicate, All, arith, if◌then◌else◌,
}
use rxin_dexer.Prelude.Dict
use rxin_dexer.Prelude.Result.{Error, ok, err, script_error, out_of_fuel}
use rxin_dexer.Util.{Bytes, of_le, to_le, pack_le_int, pack_le_uint, pack_varint, pack_varbytes}
use rxin_dexer.Tx.{Tx, serialize, serialize_input, serialize_output, join_all}
use rxin_dexer.Tx.Deserializer.{read_tx}
use rxin_dexer.Tx.RoundTrip.{read_tx-serialize}
use rxin_dexer.Tx.Failures.{Outcome, read_tx_outcome}
use rxin_dexer.Script.Operand.{told}
use rxin_dexer.Tx.Hash
use rxin_dexer.Tx.Hash.Block.{read_tx_block-serialize, tx_hash}
use rxin_dexer.Script
use rxin_dexer.Undo.{encode_undo, encode_entry, encode_value, decode_undo, pack_be_uint}
use rxin_dexer.Undo.RoundTrip.{decode_undo-encode_undo}
use rxin_dexer.Script.{is_input_ref, get_push_input_refs, zero_refs, walk_ops, push_data}
use rxin_dexer.Script.Grammar.{Item, push, ref, plain, op_of}
use rxin_dexer.Script.Decode.{IsItem}
use rxin_dexer.Script.Parse.{parse, encode_all}
use rxin_dexer.Script.Walks.{
  refs_of, has_checksig, zeroed, get_push_input_refs_total, zero_refs_total,
}
use rxin_dexer.Script.Spans.{spans, p2pkh_items, parse-push_data, walk_ops_total}
use rxin_dexer.Script.Template.{base_locking_script}
use rxin_dexer.Script.Base.{base_locking_script-p2pkh, base_locking_script-p2pkh_script}
use rxin_dexer.Script.{p2pkh_script}
use rxin_dexer.Merkle.{ceil_log, branch_and_root, root_from_proof}
use rxin_dexer.RateLimiter.{
  Config, Limiter, decay, check_cost, check_can_register, check_can_subscribe,
}
use rxin_dexer.RateLimiter.Event.{
  Event, register, release, charge, unsubscribed, happen_all, time_of,
}
use rxin_dexer.RateLimiter.Block.{Within, IsRefused, block_lasts}
use rxin_dexer.Merkle.Proof.{root_from_proof-branch_and_root}

abbrev coin_hash : Bytes
coin_hash = replicate 32 7

-- One input and two outputs, the second one of a negative value.
abbrev small_tx : Tx
small_tx = record {
  version = pos 2;
  inputs =
      record { prev_hash = coin_hash; prev_idx = 1; script = 81 ∷ 82 ∷ []; sequence = 4294967295 }
      ∷ [];
  outputs =
      record { value = pos 5000; pk_script = 118 ∷ [] }
      ∷ record { value = negsuc 0; pk_script = [] }
      ∷ [];
  locktime = 600;
}

abbrev small_bytes : Bytes
small_bytes =
    2 ∷ 0 ∷ 0 ∷ 0 ∷ 1 ∷ coin_hash
    ++ (1 ∷ 0 ∷ 0 ∷ 0 ∷ 2 ∷ 81 ∷ 82 ∷ 255 ∷ 255 ∷ 255 ∷ 255 ∷ 2 ∷ 136 ∷ 19 ∷ 0 ∷ 0 ∷ 0 ∷ 0 ∷ 0 ∷ 0
        ∷ 1 ∷ 118 ∷ 255 ∷ 255 ∷ 255 ∷ 255 ∷ 255 ∷ 255 ∷ 255 ∷ 255 ∷ 0 ∷ 88 ∷ 2 ∷ 0 ∷ 0 ∷ [])

read_tx-serialize_example :
    read_tx (record { binary = small_bytes ++ (9 ∷ []); cursor = 0 })
    ≡ ok (small_tx, record { binary = small_bytes ++ (9 ∷ []); cursor = length small_bytes })
unfolding serialize serialize_input serialize_output join_all pack_le_int pack_le_uint pack_varint
    pack_varbytes to_le
read_tx-serialize_example = read_tx-serialize small_tx small_bytes (9 ∷ []) (refl, tt) refl

read_tx_outcome_example :
    Outcome
      (record { binary = 1 ∷ 0 ∷ 0 ∷ 0 ∷ 253 ∷ []; cursor = 0 })
      (read_tx (record { binary = 1 ∷ 0 ∷ 0 ∷ 0 ∷ 253 ∷ []; cursor = 0 }))
read_tx_outcome_example =
    read_tx_outcome (record { binary = 1 ∷ 0 ∷ 0 ∷ 0 ∷ 253 ∷ []; cursor = 0 }) (omega arith)

-- A push, a signature check, and a reference opcode whose operand is cut short.
abbrev cut_script : Bytes
cut_script = 2 ∷ 5 ∷ 6 ∷ 172 ∷ 208 ∷ 1 ∷ []

get_push_input_refs_total_example :
    ((its : List Item) × All IsItem its
      × (encode_all its ≡ cut_script)
      × (get_push_input_refs cut_script ≡ ok (refs_of its)))
    ⊎ ((get_push_input_refs cut_script ≡ err script_error)
        × ((its : List Item) → All IsItem its → encode_all its ≢ cut_script))
get_push_input_refs_total_example = get_push_input_refs_total cut_script

zero_refs_total_example :
    ((its : List Item) × All IsItem its
      × (encode_all its ≡ cut_script)
      × (zero_refs cut_script ≡ ok (if has_checksig its then zeroed its else cut_script)))
    ⊎ ((zero_refs cut_script ≡ err script_error)
        × ((its : List Item) → All IsItem its → encode_all its ≢ cut_script))
zero_refs_total_example = zero_refs_total cut_script

walk_ops_total_example :
    ((its : List Item) × All IsItem its
      × (encode_all its ≡ cut_script)
      × (walk_ops cut_script ≡ ok (spans 0 its)))
    ⊎ ((e : Error) × (walk_ops cut_script ≡ err e)
        × (e ≢ out_of_fuel)
        × ((its : List Item) → All IsItem its → encode_all its ≢ cut_script))
walk_ops_total_example = walk_ops_total cut_script

parse-push_data_example :
    (op : ℕ) × (len : Bytes) × (parse (76 ∷ 80 ∷ replicate 80 3)
      ≡ ok ((0, push op len (replicate 80 3)) ∷ []))
unfolding push_data pack_le_uint to_le
parse-push_data_example = parse-push_data (replicate 80 3) (76 ∷ 80 ∷ replicate 80 3) refl

-- A token reference, the state separator, and then the address.
base_locking_script-p2pkh_example :
    base_locking_script (
      encode_all (
        (ref 208 (replicate 36 4) ∷ plain 117 ∷ plain 189 ∷ [])
        ++ (p2pkh_items (replicate 20 5) ++ (push 1 [] (9 ∷ []) ∷ []))))
    ≡ ok (encode_all (p2pkh_items (replicate 20 5)))
unfolding op_of is_input_ref told
base_locking_script-p2pkh_example =
    base_locking_script-p2pkh (ref 208 (replicate 36 4) ∷ plain 117 ∷ plain 189 ∷ [])
      (push 1 [] (9 ∷ []) ∷ []) (replicate 20 5) refl
      (omega arith, (omega arith, (omega arith, tt)))
      ((omega arith, refl, refl), ((omega arith, refl), ((omega arith, refl), tt)))
      ((omega arith, refl, refl), tt)

abbrev checksum : Bytes → Bytes
checksum bs = of_le bs % 251 ∷ []

abbrev five : List Bytes
five = (10 ∷ []) ∷ (20 ∷ []) ∷ (30 ∷ []) ∷ (40 ∷ []) ∷ (50 ∷ []) ∷ []

root_from_proof-branch_and_root_example :
    (branch : List Bytes) × (r : Bytes) × (branch_and_root checksum five 4 (some 4) false
      ≡ ok (branch, r))
    × (root_from_proof checksum (50 ∷ []) branch 4 ≡ ok r)
    × (length branch ≡ 4)
unfolding ceil_log
root_from_proof-branch_and_root_example =
    root_from_proof-branch_and_root checksum five 4 4 (some 4) (50 ∷ []) refl refl

abbrev limits : Config
limits = record {
  enabled = true;
  max_subs_per_ip = 100;
  max_sessions_per_ip = 10;
  ip_cost_hard_limit = 1000;
  block_duration = 60;
  ip_state_ttl = 3600;
  cost_decay_per_sec = 2;
}

abbrev nobody : String → Bool
nobody ip = false

-- An address over the limit: its cost has come down from 1200 to 1180.
abbrev busy : Limiter
busy = record {
  states =
      (
        "10.0.0.1",
        record {
          cost = 1200;
          violations = 0;
          blocked_until = 0;
          sessions = 3 ∷ [];
          sub_count = 4;
          last_seen = 490;
          cost_time = 490;
        },
      )
      ∷ [];
  ops_since_evict = 255;
}

-- The client leaves, its subscriptions with it, and connects again.
abbrev reconnects : List Event
reconnects =
    unsubscribed (some "10.0.0.1") 4 510
    ∷ release (some "10.0.0.1") 3 50 0 510
    ∷ charge (some "10.0.0.1") (negsuc 4) 520
    ∷ register (some "10.0.0.1") (some 4) 530
    ∷ []

block_lasts_example :
    let later =
      happen_all limits nobody reconnects (check_cost limits nobody (some "10.0.0.1") 500 busy).0 in
    IsRefused (check_cost limits nobody (some "10.0.0.1") 550 later).1
    × IsRefused (check_can_register limits nobody (some "10.0.0.1") 550 later)
    × ((count : ℕ) (current : Option ℕ)
        → IsRefused (check_can_subscribe limits nobody (some "10.0.0.1") count 550 current later))
unfolding check_cost decay Dict.lookup Within time_of
block_lasts_example =
    block_lasts limits nobody "10.0.0.1" 500 550 busy reconnects (omega arith) refl
      (
        (omega arith, omega arith),
        (
          (omega arith, omega arith),
          ((omega arith, omega arith), ((omega arith, omega arith), tt)),
        ),
      )
      (omega arith) refl refl

abbrev undo_entries : List (Bytes × Option Bytes)
undo_entries = (1 ∷ 2 ∷ [], none) ∷ (3 ∷ [], some (7 ∷ 8 ∷ [])) ∷ []

decode_undo-encode_undo_example :
    decode_undo (0 ∷ 2 ∷ 1 ∷ 2 ∷ 255 ∷ 255 ∷ 255 ∷ 255 ∷ 0 ∷ 1 ∷ 3 ∷ 0 ∷ 0 ∷ 0 ∷ 2 ∷ 7 ∷ 8 ∷ [])
    ≡ ok undo_entries
unfolding encode_undo encode_entry encode_value pack_be_uint pack_le_uint to_le
decode_undo-encode_undo_example =
    decode_undo-encode_undo undo_entries
      (0 ∷ 2 ∷ 1 ∷ 2 ∷ 255 ∷ 255 ∷ 255 ∷ 255 ∷ 0 ∷ 1 ∷ 3 ∷ 0 ∷ 0 ∷ 0 ∷ 2 ∷ 7 ∷ 8 ∷ [])
      (tt, (ground arith, tt)) refl

-- A transaction of version 3 with a token reference in its output.
abbrev token_tx : Tx
token_tx = record {
  version = pos 3;
  inputs = [];
  outputs = record { value = pos 1; pk_script = 208 ∷ replicate 36 4 } ∷ [];
  locktime = 0;
}

abbrev token_bytes : Bytes
token_bytes =
    3 ∷ 0 ∷ 0 ∷ 0 ∷ 0 ∷ 1 ∷ 1 ∷ 0 ∷ 0 ∷ 0 ∷ 0 ∷ 0 ∷ 0 ∷ 0 ∷ 37 ∷ 208 ∷ replicate 36 4
    ++ (0 ∷ 0 ∷ 0 ∷ 0 ∷ [])

abbrev block_bytes : Bytes
block_bytes = 2 ∷ small_bytes ++ token_bytes

abbrev block_txs : List (Tx × Bytes)
block_txs = (small_tx, 202 ∷ []) ∷ (token_tx, 222 ∷ []) ∷ []

read_tx_block-serialize_example :
    Hash.read_tx_block checksum (record { binary = block_bytes ++ (9 ∷ []); cursor = 0 })
    ≡ ok (block_txs, record { binary = block_bytes ++ (9 ∷ []); cursor = length block_bytes })
unfolding serialize serialize_input serialize_output join_all pack_le_int pack_le_uint pack_varint
    pack_varbytes to_le of_le tx_hash Hash.get_transaction_hash_preimage_v3 Hash.preimage
    Hash.hashed Hash.get_hash_prev_inputs Hash.get_hash_sequence Hash.get_hash_output_hashes
    Hash.calculate_pushrefs_count_and_hash Hash.push_input_refs_hash Hash.sort_refs Hash.insert_ref
    Hash.ref_keys Hash.has_ref Hash.joined Hash.pack_uint_of Script.get_push_input_refs
    Script.while_ops Script.refs_round Script.refs_operand Script.add_ref Script.is_input_ref
    Script.except_script
read_tx_block-serialize_example =
    read_tx_block-serialize checksum block_txs block_bytes (9 ∷ [])
      (((refl, tt), refl), ((tt, refl), tt)) refl

abbrev address_script : Bytes
address_script = 118 ∷ 169 ∷ 20 ∷ replicate 20 5 ++ (136 ∷ 172 ∷ [])

base_locking_script-p2pkh_script_example :
    base_locking_script (address_script ++ encode_all (plain 189 ∷ ref 208 (replicate 36 4) ∷ []))
    ≡ ok address_script
unfolding p2pkh_script push_data is_input_ref
base_locking_script-p2pkh_script_example =
    base_locking_script-p2pkh_script (replicate 20 5) address_script
      (plain 189 ∷ ref 208 (replicate 36 4) ∷ []) refl
      ((omega arith, refl), ((omega arith, refl, refl), tt)) refl
