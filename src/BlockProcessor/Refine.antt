-- ===== src/BlockProcessor/Refine.antt =====
-- `advance_txs` of electrumx/server/block_processor.py implements the description of a block's effect on
-- the map of unspent outputs.
pub mod Outputs
pub mod Blocks
use mathlib.Core.Path.{subst}
use rxin_dexer.Prelude.{
  ℕ, suc, ◌+◌, ◌<◌, ◌≤◌, ◌^◌, ◌≡◌, ◌≢◌, refl, sym, ap, ◌∙◌, Bool, true, false, ℤ, pos, Option, none,
  some, List, [], ◌∷◌, ◌++◌, ◌⊎◌, inl, inr, arith, ltb, lt→ltb, if◌then◌else◌, length, take, drop,
  Bool-cases, map, length-append, length-take, append-nil,
}
use rxin_dexer.Prelude.Result.{Error, Result, ok, err, assertion_error, script_error, ◌>>=◌}
use rxin_dexer.Util.{Bytes, to_le, pack_le_uint}
use rxin_dexer.Util.Ints.{length-to_le}
use rxin_dexer.Tx.{Tx, TxInput, TxOutput, is_generation}
use rxin_dexer.Script.{Refs, zero_refs, get_push_input_refs}
use rxin_dexer.Script.Template.{get_stateseperator_index}
use rxin_dexer.Script.Walks.{refs_of, get_push_input_refs_total}
use rxin_dexer.Store.Cache.{Cache, get, set}
use rxin_dexer.Store.Keys.{has, distinct}
use rxin_dexer.History.{add_unflushed}
use rxin_dexer.BlockProcessor.{
  Env, Utxos, BlockProcessor, hashx_len, is_parse_error, except_parse, output_indexable,
  hash_x_from_script, code_script_hash_from_script, spend_utxo,
}
use rxin_dexer.BlockProcessor.Advance.{
  BlockTx, RefState, spent_outpoints, spend_inputs, enc_ref_type, refs_value, put_parsed_refs,
  index_refs, hash_output, pack_le_uint64, Added, put_output, add_output, add_outputs, Advanced,
  advance_tx, advance_loop, advance_txs,
}
use rxin_dexer.BlockProcessor.Indexable.{output_indexable_total, Parses}
use rxin_dexer.BlockProcessor.View.{View, Entry, insert, erase, Holds, IsUtxoDb}
use rxin_dexer.BlockProcessor.View.Laws.{set-Holds}
use rxin_dexer.BlockProcessor.View.Spend.{spend_utxo-Holds}
use rxin_dexer.BlockProcessor.Connect.{
  spent_keys, new_value, value_of_output, with_entry, created, erase_all, insert_all, connect_tx,
  connect, or_no_value, given_up, given_up_by, IsSized, Live, Fresh, InputsFit, OutputsFit, Fits,
  Connects, IsValid,
}
use rxin_dexer.BlockProcessor.Connect.Maps.{erase-IsSized}

pub packs : (w n : ℕ) → n < 256 ^ w → pack_le_uint w n ≡ ok (to_le w n)
unfolding pack_le_uint
packs w n small = rw (lt→ltb n (256 ^ w) small)

pub spent_outpoints-spent_keys :
    (inputs : List TxInput) → InputsFit inputs → spent_outpoints inputs ≡ ok (spent_keys inputs)
unfolding spent_outpoints spent_keys
spent_outpoints-spent_keys [] fits = refl
spent_outpoints-spent_keys (txin ∷ inputs) (l, small, fits) =
    elim (Bool-cases (is_generation txin)) [
      | inl coinbase ↦ rw coinbase (spent_outpoints-spent_keys inputs fits)
      | inr spends ↦
          rw (spends, packs 4 txin.prev_idx small, spent_outpoints-spent_keys inputs fits)
    ]

-- The inputs of a transaction whose outpoints have values give those values up.
pub spend_inputs-Holds :
    (env : Env) (inputs : List TxInput) (u : Utxos) (view : View)
    → IsUtxoDb env
    → InputsFit inputs
    → IsSized view
    → Live view (spent_keys inputs)
    → Holds env u view
    → (after : Utxos) × (spend_inputs env inputs u ≡ ok (given_up (spent_keys inputs) view, after))
      × Holds env after (erase_all (spent_keys inputs) view)
unfolding spend_inputs spent_keys given_up erase_all or_no_value
spend_inputs-Holds env [] u view db fits sized live holds = (u, refl, holds)
spend_inputs-Holds env (txin ∷ inputs) u view db (l, small, fits) sized live holds =
    elim (Bool-cases (is_generation txin)) [
      | inl coinbase ↦
          rw coinbase
            (spend_inputs-Holds env inputs u view db fits sized (rw coinbase at live) holds)
      | inr spends ↦
          let ((v, e), rest) = rw spends at live in
          let (one, ran, held) =
            spend_utxo-Holds env u view txin.prev_hash txin.prev_idx v db holds l small
              (omega (arith, sized _ v e)) e in
          let (all, ran', held') =
            spend_inputs-Holds env inputs one (erase (txin.prev_hash ++ to_le 4 txin.prev_idx) view)
              db fits (erase-IsSized _ view sized) rest held in
          rw spends (all, rw (ran, ran', e), held')
    ]

-- The part on references raises nothing that leaves it.
refs_value-cases :
    (normal singleton all : List Bytes)
    → ((value : Bytes) × (refs_value normal singleton all ≡ ok value))
      ⊎ (refs_value normal singleton all ≡ err assertion_error)
unfolding refs_value enc_ref_type
refs_value-cases normal singleton [] = inl ([], refl)
refs_value-cases normal singleton (ref ∷ all) = elim (Bool-cases (has ref normal)) [
  | inl a ↦ elim (refs_value-cases normal singleton all) [
    | inl (rest, e) ↦ inl (ref ++ (0 ∷ rest), rw (a, e))
    | inr e ↦ inr (rw (a, e))
  ]
  | inr a ↦ elim (Bool-cases (has ref singleton)) [
    | inr b ↦ inr (rw (a, b))
    | inl b ↦ elim (refs_value-cases normal singleton all) [
      | inl (rest, e) ↦ inl (ref ++ (1 ∷ rest), rw (a, b, e))
      | inr e ↦ inr (rw (a, b, e))
    ]
  ]
]

put_parsed_refs-cases :
    (env : Env) (h key : Bytes) (spent : List Bytes) (parsed : Refs) (r : RefState)
    → ((after : RefState) × (put_parsed_refs env h key spent parsed r ≡ ok after))
      ⊎ (put_parsed_refs env h key spent parsed r ≡ err assertion_error)
unfolding put_parsed_refs
put_parsed_refs-cases env h key spent parsed r =
    elim (refs_value-cases (distinct parsed.normal) (distinct parsed.singleton)
      (distinct parsed.all)) [ inl (value, v) ↦ inl (rw v (_, refl)) | inr v ↦ inr (rw v) ]

pub index_refs_total :
    (env : Env) (h key : Bytes) (spent : List Bytes) (s : Bytes) (r : RefState)
    → (after : RefState) × (index_refs env h key spent s r ≡ ok after)
unfolding index_refs except_parse is_parse_error
index_refs_total env h key spent s r = elim (get_push_input_refs_total s) [
  | inr (raised, _) ↦ (r, rw raised)
  | inl (its, _, _, e) ↦ elim (put_parsed_refs-cases env h key spent (refs_of its) r) [
    | inl (after, v) ↦ (after, rw (e, v) refl)
    | inr v ↦ (r, rw (e, v))
  ]
]
