-- ===== src/Predict/Index.antt =====
-- electrumx/server/predict_index.py: PredictionMarketIndex. `enabled` and the caches are its state;
-- `pruned_to` stands for `_last_undo_pruned + 1`. The undo caches are empty between flushes. None for
-- `spent_outpoints` is the empty set, which the code treats alike.
pub mod Reorg
pub mod Restored
pub mod Queries
pub mod Recorded
use rxin_dexer.Prelude.{
  ℕ, Bool, true, false, not, ◌&&◌, ◌||◌, Option, none, some, List, [], ◌∷◌, ◌++◌, ◌==◌,
  if◌then◌else◌, list_eq,
}
use rxin_dexer.Prelude.Result.{Result, ok, err, ◌>>=◌}
use rxin_dexer.Util.{Bytes}
use rxin_dexer.Tx.{Tx, TxOutput}
use rxin_dexer.Undo.{pack_be_uint}
use rxin_dexer.Store.{Db, Op, put, write}
use rxin_dexer.Store.Cache.{Cache, get, set}
use rxin_dexer.UndoLog.{Staged, flush_pruned, backup}
use rxin_dexer.Predict.{
  Beacon, SingletonState, parse_market_beacon, parse_singleton_state, is_part, is_anchor_for,
}
use rxin_dexer.Predict.Record.{MarketRecord, to_bytes, from_bytes}

-- The keys of PredictDBKeys: "PMm", "PMh" and "PMu".
abbrev pub market_prefix : Bytes
market_prefix = 80 ∷ 77 ∷ 109 ∷ []

abbrev pub by_height_prefix : Bytes
by_height_prefix = 80 ∷ 77 ∷ 104 ∷ []

abbrev pub undo_prefix : Bytes
undo_prefix = 80 ∷ 77 ∷ 117 ∷ []

pub record PredictIndex : Type 0 where
  pub enabled : Bool
  pub market_cache : Cache MarketRecord
  pub pruned_to : ℕ

-- The first output that has a beacon.
unfoldable pub first_beacon : (Bytes → Bool) → List TxOutput → Option Beacon
first_beacon is_utf8 [] = none
first_beacon is_utf8 (o ∷ outputs) = elim (parse_market_beacon is_utf8 o.pk_script) [
  | some b ↦ some b
  | none ↦ first_beacon is_utf8 outputs
]

-- `key in keys`
abbrev pub is_in : Bytes → List Bytes → Bool
is_in key [] = false
is_in key (k ∷ keys) = list_eq key k || is_in key keys

-- The code of output 0 is the singleton of the market, and names both shares.
unfoldable pub binds_refs : Beacon → Bytes → Bool
binds_refs b code =
    is_part (216 ∷ b.market_ref) code && (is_part b.yes_ref code && is_part b.no_ref code)

unfoldable pub params_match : Beacon → SingletonState → Bool
params_match b s = b.b_expiry == s.expiry && (b.b_grace == s.grace && list_eq b.b_oracle s.oracle)

abbrev pub make_record : Beacon → SingletonState → Bytes → ℕ → MarketRecord
make_record b s tx_hash height = record {
  market_ref = b.market_ref;
  yes_ref = b.yes_ref;
  no_ref = b.no_ref;
  expiry = s.expiry;
  grace = s.grace;
  oracle = s.oracle;
  status = s.status;
  optimistic = s.optimistic;
  question = some b.question;
  beacon_params_match = params_match b s;
  create_txid = tx_hash;
  create_height = height;
}

-- The tests from the singleton of output 0 on.
unfoldable pub market_record :
    Beacon → Option SingletonState → Bytes → Bytes → Bytes → ℕ → Option MarketRecord
market_record b none o1 o2 tx_hash height = none
market_record b (some s) o1 o2 tx_hash height =
    if not (binds_refs b s.code)
    then none
    else if not (is_anchor_for o1 b.yes_ref b.market_ref && is_anchor_for o2 b.no_ref b.market_ref)
    then none
    else some (make_record b s tx_hash height)

-- `len(tx.outputs) < 3`, and the three outputs.
unfoldable pub deployed : Beacon → List TxOutput → Bytes → ℕ → Option MarketRecord
deployed b (o0 ∷ o1 ∷ o2 ∷ more) tx_hash height =
    market_record b (parse_singleton_state o0.pk_script) o1.pk_script o2.pk_script tx_hash height
deployed b _ tx_hash height = none

-- The record that process_tx puts into the cache, if any.
unfoldable pub indexed : Option Beacon → Bytes → Tx → ℕ → List Bytes → Option MarketRecord
indexed none tx_hash tx height spent = none
indexed (some b) tx_hash tx height spent =
    if is_in b.market_ref spent then deployed b tx.outputs tx_hash height else none

abbrev pub add_record : Option MarketRecord → PredictIndex → PredictIndex
add_record none x = x
add_record (some r) x = record {
  enabled = x.enabled;
  market_cache = set r.market_ref r x.market_cache;
  pruned_to = x.pruned_to;
}

unfoldable pub process_tx :
    (Bytes → Bool) → Bytes → Tx → ℕ → List Bytes → PredictIndex → PredictIndex
process_tx is_utf8 tx_hash tx height spent x =
    if x.enabled
    then add_record (indexed (first_beacon is_utf8 tx.outputs) tx_hash tx height spent) x
    else x

-- The two writes of a record, with the bytes `b` of its height.
abbrev pub market_writes : Bytes → Bytes → ℕ → Bytes → List Staged
market_writes value market_ref h b =
    record { height = h; op = put (market_prefix ++ market_ref) value }
    ∷ record { height = h; op = put (by_height_prefix ++ (b ++ market_ref)) [] }
    ∷ []

-- A record that does not serialize is skipped; the others are written with their entry by height.
unfoldable pub stage_market : Result Bytes → Bytes → ℕ → Result (List Staged)
stage_market (err e) market_ref h = ok []
stage_market (ok value) market_ref h = do
  b ← pack_be_uint 4 h
  ok (market_writes value market_ref h b)

unfoldable pub staged_of : Cache MarketRecord → Result (List Staged)
staged_of [] = ok []
staged_of ((market_ref, r) ∷ cache) = do
  here ← stage_market (to_bytes r) market_ref r.create_height
  rest ← staged_of cache
  ok (here ++ rest)

-- `flush`: its batch, and the index after it. `blocks` is `db_height + 1`.
unfoldable pub flush : ℕ → ℕ → Db → PredictIndex → Result (List Op × PredictIndex)
flush reorg_limit blocks db x = if not x.enabled then ok ([], x) else (do
  staged ← staged_of x.market_cache
  flushed ← flush_pruned undo_prefix false reorg_limit blocks x.pruned_to db staged
  ok (flushed.0, record { enabled = x.enabled; market_cache = []; pruned_to = flushed.1 }))

unfoldable pub backup_index : Db → ℕ → PredictIndex → Result (List Op)
backup_index db height x = if not x.enabled then ok [] else backup undo_prefix db height

module _ (utf8_replace : Bytes → Bytes) where
  -- `if not data: return None`
  unfoldable pub stored_market : Option Bytes → Result (Option MarketRecord)
  stored_market none = ok none
  stored_market (some []) = ok none
  stored_market (some (b ∷ data_)) = do r ← from_bytes utf8_replace (b ∷ data_); ok (some r)

  unfoldable pub cached_or_stored :
      Option MarketRecord → Option Bytes → Result (Option MarketRecord)
  cached_or_stored (some r) stored = ok (some r)
  cached_or_stored none stored = stored_market stored

  -- `get_market`, before `to_dict` formats the record.
  unfoldable pub get_market : Db → PredictIndex → Bytes → Result (Option MarketRecord)
  get_market db x market_ref =
      cached_or_stored (get market_ref x.market_cache) (db (market_prefix ++ market_ref))
