-- ===== src/Predict/Index/Recorded.antt =====
-- process_tx of electrumx/server/predict_index.py: which markets get into the cache.
use rxin_dexer.Prelude.{
  ℕ, ◌≡◌, ◌≢◌, refl, ◌∙◌, sym, Bool, true, ◌&&◌, Option, none, some, List, [], ◌∷◌, ◌==◌,
  if◌then◌else◌, list_eq, list_eq→eq, Bool-cases, Option-cases, some_injective, passes, taken, inl,
  inr, arith,
}
use rxin_dexer.Util.{Bytes}
use rxin_dexer.Tx.{Tx, TxOutput}
use rxin_dexer.Store.Cache.{get, get-set, AreDistinct, set-AreDistinct}
use rxin_dexer.Predict.{Beacon, SingletonState, parse_singleton_state, is_part, is_anchor_for}
use rxin_dexer.Predict.Record.{MarketRecord}
use rxin_dexer.Predict.Index.{
  PredictIndex, params_match, first_beacon, is_in, binds_refs, make_record, market_record, deployed,
  indexed, process_tx,
}

-- What a record says of its market: the references and the question of the beacon, the terms of the
-- singleton's state, and where the market was created.
pub record IsRecordOf (b : Beacon) (state : SingletonState) (tx_hash : Bytes) (height : ℕ)
    (m : MarketRecord) : Type 0 where
  pub market_ref : m.market_ref ≡ b.market_ref
  pub yes_ref : m.yes_ref ≡ b.yes_ref
  pub no_ref : m.no_ref ≡ b.no_ref
  pub expiry : m.expiry ≡ state.expiry
  pub grace : m.grace ≡ state.grace
  pub oracle : m.oracle ≡ state.oracle
  pub status : m.status ≡ state.status
  pub optimistic : m.optimistic ≡ state.optimistic
  pub question : m.question ≡ some b.question
  pub checked : m.beacon_params_match ≡ (
      b.b_expiry == state.expiry && (b.b_grace == state.grace && list_eq b.b_oracle state.oracle))
  pub create_txid : m.create_txid ≡ tx_hash
  pub create_height : m.create_height ≡ height

make_record-IsRecordOf :
    (b : Beacon) (s : SingletonState) (tx_hash : Bytes) (height : ℕ) (m : MarketRecord)
    → make_record b s tx_hash height ≡ m
    → IsRecordOf b s tx_hash height m
unfolding params_match
make_record-IsRecordOf b s tx_hash height m same = rw (← same) (record {
  market_ref = refl;
  yes_ref = refl;
  no_ref = refl;
  expiry = refl;
  grace = refl;
  oracle = refl;
  status = refl;
  optimistic = refl;
  question = refl;
  checked = refl;
  create_txid = refl;
  create_height = refl;
})

-- A deployment of the market that the record describes, for a beacon of the transaction.
pub record IsDeployed (b : Beacon) (outputs : List TxOutput) (tx_hash : Bytes) (height : ℕ)
    (m : MarketRecord) : Type 0 where
  pub o0 : TxOutput
  pub o1 : TxOutput
  pub o2 : TxOutput
  pub more : List TxOutput
  pub state : SingletonState
  pub are_outputs : outputs ≡ o0 ∷ o1 ∷ o2 ∷ more
  pub is_state : parse_singleton_state o0.pk_script ≡ some state
  pub singleton : is_part (216 ∷ b.market_ref) state.code ≡ true
  pub names_yes : is_part b.yes_ref state.code ≡ true
  pub names_no : is_part b.no_ref state.code ≡ true
  pub yes_anchor : is_anchor_for o1.pk_script b.yes_ref b.market_ref ≡ true
  pub no_anchor : is_anchor_for o2.pk_script b.no_ref b.market_ref ≡ true
  pub is_record : IsRecordOf b state tx_hash height m

market_record-IsDeployed :
    (b : Beacon) (o0 o1 o2 : TxOutput) (more : List TxOutput) (found : Option SingletonState)
    (tx_hash : Bytes) (height : ℕ) (m : MarketRecord)
    → parse_singleton_state o0.pk_script ≡ found
    → market_record b found o1.pk_script o2.pk_script tx_hash height ≡ some m
    → IsDeployed b (o0 ∷ o1 ∷ o2 ∷ more) tx_hash height m
unfolding market_record binds_refs
market_record-IsDeployed b o0 o1 o2 more none tx_hash height m at e = cc e
market_record-IsDeployed b o0 o1 o2 more (some s) tx_hash height m at e =
    let (binds, e1) = passes (binds_refs b s.code) _ m e in
    let (anchors, e2) =
      passes
        (is_anchor_for o1.pk_script b.yes_ref b.market_ref
          && is_anchor_for o2.pk_script b.no_ref b.market_ref)
        (some (make_record b s tx_hash height)) m e1 in
    record {
      o0 = o0;
      o1 = o1;
      o2 = o2;
      more = more;
      state = s;
      are_outputs = refl;
      is_state = at;
      singleton = ground (arith, binds);
      names_yes = ground (arith, binds);
      names_no = ground (arith, binds);
      yes_anchor = ground (arith, anchors);
      no_anchor = ground (arith, anchors);
      is_record = make_record-IsRecordOf b s tx_hash height m (some_injective e2);
    }

deployed-IsDeployed :
    (b : Beacon) (outputs : List TxOutput) (tx_hash : Bytes) (height : ℕ) (m : MarketRecord)
    → deployed b outputs tx_hash height ≡ some m
    → IsDeployed b outputs tx_hash height m
unfolding deployed
deployed-IsDeployed b [] tx_hash height m e = cc e
deployed-IsDeployed b (o0 ∷ []) tx_hash height m e = cc e
deployed-IsDeployed b (o0 ∷ o1 ∷ []) tx_hash height m e = cc e
deployed-IsDeployed b (o0 ∷ o1 ∷ o2 ∷ more) tx_hash height m e =
    market_record-IsDeployed b o0 o1 o2 more (parse_singleton_state o0.pk_script) tx_hash height m
      refl e

indexed-IsDeployed :
    (found : Option Beacon) (tx_hash : Bytes) (tx : Tx) (height : ℕ) (spent : List Bytes)
    (m : MarketRecord)
    → indexed found tx_hash tx height spent ≡ some m
    → (b : Beacon) × (found ≡ some b)
      × (is_in b.market_ref spent ≡ true)
      × IsDeployed b tx.outputs tx_hash height m
unfolding indexed
indexed-IsDeployed none tx_hash tx height spent m e = cc e
indexed-IsDeployed (some b) tx_hash tx height spent m e =
    let (there, e1) = taken (is_in b.market_ref spent) (deployed b tx.outputs tx_hash height) m e in
    (b, refl, there, deployed-IsDeployed b tx.outputs tx_hash height m e1)

-- Which markets process_tx records. If it changes what the cache holds for a market reference, the
-- index is enabled, the transaction has a beacon (the first among its outputs) with this reference, the
-- transaction spends the outpoint with this reference, and the cache now holds the record of a
-- deployment: the first three outputs are the market's singleton, whose code pushes the reference as
-- a singleton and names both shares, and the two anchors. The record has the references and the
-- question of the beacon, the status, expiry, grace period, oracle and kind of the singleton's state,
-- whether the beacon's expiry, grace period and oracle are the same as the state's, the transaction's
-- hash and its height.
pub process_tx-IsDeployed :
    (is_utf8 : Bytes → Bool) (tx_hash : Bytes) (tx : Tx) (height : ℕ) (spent : List Bytes)
    (x : PredictIndex) (r : Bytes)
    → get r (process_tx is_utf8 tx_hash tx height spent x).market_cache ≢ get r x.market_cache
    → (b : Beacon) × (m : MarketRecord) × (x.enabled ≡ true)
      × (first_beacon is_utf8 tx.outputs ≡ some b)
      × (b.market_ref ≡ r)
      × (is_in r spent ≡ true)
      × (get r (process_tx is_utf8 tx_hash tx height spent x).market_cache ≡ some m)
      × IsDeployed b tx.outputs tx_hash height m
unfolding process_tx
process_tx-IsDeployed is_utf8 tx_hash tx height spent x r changed = elim (Bool-cases x.enabled) [
  | inr off ↦ absurd (changed (rw off refl))
  | inl on ↦
      elim (Option-cases (indexed (first_beacon is_utf8 tx.outputs) tx_hash tx height spent)) [
        | inr nothing ↦ absurd (changed (rw (on, nothing) refl))
        | inl (m, found) ↦
            let (b, at, there, deployment) =
              indexed-IsDeployed (first_beacon is_utf8 tx.outputs) tx_hash tx height spent m
                found in
            let own : b.market_ref ≡ m.market_ref = sym deployment.is_record.market_ref in
            let result : get r (process_tx is_utf8 tx_hash tx height spent x).market_cache
                ≡ (if list_eq r m.market_ref then some m else get r x.market_cache) =
              rw (on, found) (get-set m.market_ref r m x.market_cache) in
            elim (Bool-cases (list_eq r m.market_ref)) [
              | inr other ↦ absurd (changed (result ∙ rw other refl))
              | inl same ↦
                  let e : b.market_ref ≡ r = own ∙ sym (list_eq→eq r m.market_ref same) in
                  (b, m, on, at, e, (rw e at there), result ∙ rw same refl, deployment)
            ]
      ]
]

-- The cache stays a dict: process_tx repeats no key.
process_tx-AreDistinct :
    (is_utf8 : Bytes → Bool) (tx_hash : Bytes) (tx : Tx) (height : ℕ) (spent : List Bytes)
    (x : PredictIndex)
    → AreDistinct x.market_cache
    → AreDistinct (process_tx is_utf8 tx_hash tx height spent x).market_cache
unfolding process_tx
process_tx-AreDistinct is_utf8 tx_hash tx height spent x d = elim (Bool-cases x.enabled) [
  | inr off ↦ rw off d
  | inl on ↦
      elim (Option-cases (indexed (first_beacon is_utf8 tx.outputs) tx_hash tx height spent)) [
        | inr nothing ↦ rw (on, nothing) d
        | inl (m, found) ↦ rw (on, found) (set-AreDistinct m.market_ref m x.market_cache d)
      ]
]
