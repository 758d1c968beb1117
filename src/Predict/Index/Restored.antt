-- ===== src/Predict/Index/Restored.antt =====
-- What a reorganisation leaves of the markets of electrumx/server/predict_index.py, by their records.
use rxin_dexer.Prelude.{
  ℕ, ◌≡◌, refl, ◌∙◌, sym, ap, true, ◌⊎◌, inl, inr, ◌||◌, none, some, List, [], ◌∷◌, ◌++◌, list_eq,
  list_eq→eq, list_eq_refl, Bool-cases, some_injective, arith,
}
use rxin_dexer.Prelude.Result.{Result, ok, err, ◌>>=◌, >>=-eq-ok}
use rxin_dexer.Util.{Bytes}
use rxin_dexer.Undo.{pack_be_uint}
use rxin_dexer.Store.{Db, Op, write}
use rxin_dexer.Store.Cache.{Cache, get, AreDistinct, get-later}
use rxin_dexer.UndoLog.{Staged, undo_key}
use rxin_dexer.UndoLog.Recorded.{is_staged, is_staged-nil, is_staged-append}
use rxin_dexer.UndoLog.Backup.{AreShort}
use rxin_dexer.UndoLog.Restored.{Restored, is_staged-Restored}
use rxin_dexer.Predict.Record.{MarketRecord, to_bytes}
use rxin_dexer.Predict.Index.{
  market_prefix, by_height_prefix, undo_prefix, PredictIndex, market_writes, stage_market,
  staged_of, flush, backup_index,
}
use rxin_dexer.Predict.Index.Reorg.{backup_index-flush}

-- A key of a market that the cache has for a height: the market's own, or its entry by height. The
-- market's record serializes.
pub record IsMarketKey (cache : Cache MarketRecord) (h : ℕ) (k : Bytes) : Type 0 where
  pub market_ref : Bytes
  pub market : MarketRecord
  pub value : Bytes
  pub b : Bytes
  pub there : get market_ref cache ≡ some market
  pub created : market.create_height ≡ h
  pub serializes : to_bytes market ≡ ok value
  pub packs : pack_be_uint 4 h ≡ ok b
  pub key : (market_prefix ++ market_ref ≡ k) ⊎ (by_height_prefix ++ (b ++ market_ref) ≡ k)

IsMarketKey-later :
    (first : Bytes) (r : MarketRecord) (cache : Cache MarketRecord) (h : ℕ) (k : Bytes)
    → AreDistinct ((first, r) ∷ cache)
    → IsMarketKey cache h k
    → IsMarketKey ((first, r) ∷ cache) h k
IsMarketKey-later first r cache h k (fresh, d) e = record {
  market_ref = e.market_ref;
  market = e.market;
  value = e.value;
  b = e.b;
  there = get-later first r e.market_ref cache fresh e.there;
  created = e.created;
  serializes = e.serializes;
  packs = e.packs;
  key = e.key;
}

market_writes-key :
    (value market_ref : Bytes) (h' h : ℕ) (b k : Bytes)
    → is_staged h k (market_writes value market_ref h' b) ≡ true
    → (h' ≡ h) × ((market_prefix ++ market_ref ≡ k) ⊎ (by_height_prefix ++ (b ++ market_ref) ≡ k))
unfolding is_staged
market_writes-key value market_ref h' h b k e =
    elim (Bool-cases (list_eq (market_prefix ++ market_ref) k)) [
      | inl same ↦ (ground arith, inl (list_eq→eq (market_prefix ++ market_ref) k same))
      | inr differ ↦
          (ground arith, inr (list_eq→eq (by_height_prefix ++ (b ++ market_ref)) k (ground arith)))
    ]

stage_market-key :
    (first : Bytes) (r : MarketRecord) (cache : Cache MarketRecord) (h : ℕ) (k : Bytes)
    (packed : Result Bytes) (here : List Staged)
    → to_bytes r ≡ packed
    → stage_market packed first r.create_height ≡ ok here
    → is_staged h k here ≡ true
    → IsMarketKey ((first, r) ∷ cache) h k
unfolding stage_market get
stage_market-key first r cache h k (err e) here at run there =
    let none_there : [] ≡ here = cc run in
    let absent : is_staged h k [] ≡ true = rw none_there there in
    absurd (cc (absent, is_staged-nil h k))
stage_market-key first r cache h k (ok value) here at run there =
    let (b, p, made) =
      >>=-eq-ok (pack_be_uint 4 r.create_height)
        (λ c. ok (market_writes value first r.create_height c)) run in
    let same : market_writes value first r.create_height b ≡ here = cc made in
    let (height, key) = market_writes-key value first r.create_height h b k (rw same there) in
    record {
      market_ref = first;
      market = r;
      value = value;
      b = b;
      there = rw (list_eq_refl first) refl;
      created = height;
      serializes = at;
      packs = ap (pack_be_uint 4) (sym height) ∙ p;
      key = key;
    }

staged_of-IsMarketKey :
    (cache : Cache MarketRecord) (staged : List Staged) (h : ℕ) (k : Bytes)
    → AreDistinct cache
    → staged_of cache ≡ ok staged
    → is_staged h k staged ≡ true
    → IsMarketKey cache h k
unfolding staged_of
staged_of-IsMarketKey [] staged h k d run there =
    let none_there : [] ≡ staged = cc run in
    let absent : is_staged h k [] ≡ true = rw none_there there in
    absurd (cc (absent, is_staged-nil h k))
staged_of-IsMarketKey ((first, r) ∷ cache) staged h k d run there =
    let (here, p, run1) =
      >>=-eq-ok (stage_market (to_bytes r) first r.create_height)
        (λ here. staged_of cache >>= λ rest. ok (here ++ rest)) run in
    let (rest, q, run2) = >>=-eq-ok (staged_of cache) (λ rest. ok (here ++ rest)) run1 in
    let same : here ++ rest ≡ staged = cc run2 in
    let split : (is_staged h k here || is_staged h k rest) ≡ true =
      sym (is_staged-append h k here rest) ∙ rw same there in
    elim (Bool-cases (is_staged h k here)) [
      | inl now ↦ stage_market-key first r cache h k (to_bytes r) here refl p now
      | inr not_now ↦
          IsMarketKey-later first r cache h k d
            (staged_of-IsMarketKey cache rest h k d.1 q (ground arith))
    ]

market_writes-staged :
    (value market_ref : Bytes) (h : ℕ) (b k : Bytes)
    → (market_prefix ++ market_ref ≡ k) ⊎ (by_height_prefix ++ (b ++ market_ref) ≡ k)
    → is_staged h k (market_writes value market_ref h b) ≡ true
unfolding is_staged
market_writes-staged value market_ref h b k (inl e) =
    let one : list_eq (market_prefix ++ market_ref) k ≡ true =
      ap (list_eq (market_prefix ++ market_ref)) (sym e)
      ∙ list_eq_refl (market_prefix ++ market_ref) in
    ground arith
market_writes-staged value market_ref h b k (inr e) =
    let one : list_eq (by_height_prefix ++ (b ++ market_ref)) k ≡ true =
      ap (list_eq (by_height_prefix ++ (b ++ market_ref))) (sym e)
      ∙ list_eq_refl (by_height_prefix ++ (b ++ market_ref)) in
    ground arith

-- What a cached market stages has both of its keys.
stage_market-staged :
    (r : MarketRecord) (market_ref : Bytes) (h : ℕ) (k value b : Bytes) (here : List Staged)
    → r.create_height ≡ h
    → to_bytes r ≡ ok value
    → pack_be_uint 4 h ≡ ok b
    → (market_prefix ++ market_ref ≡ k) ⊎ (by_height_prefix ++ (b ++ market_ref) ≡ k)
    → stage_market (to_bytes r) market_ref r.create_height ≡ ok here
    → is_staged h k here ≡ true
unfolding stage_market
stage_market-staged r market_ref h k value b here created serializes packs key run =
    let made : ok (market_writes value market_ref h b) ≡ ok here =
      rw (serializes, created, packs) at run in
    let same : market_writes value market_ref h b ≡ here = cc made in
    ap (is_staged h k) (sym same) ∙ market_writes-staged value market_ref h b k key

IsMarketKey-staged :
    (cache : Cache MarketRecord) (staged : List Staged) (h : ℕ) (k : Bytes)
    → staged_of cache ≡ ok staged
    → IsMarketKey cache h k
    → is_staged h k staged ≡ true
unfolding staged_of get
IsMarketKey-staged [] staged h k run e = let there = e.there in cc there
IsMarketKey-staged ((first, r) ∷ cache) staged h k run e =
    let (here, p, run1) =
      >>=-eq-ok (stage_market (to_bytes r) first r.create_height)
        (λ here. staged_of cache >>= λ rest. ok (here ++ rest)) run in
    let (rest, q, run2) = >>=-eq-ok (staged_of cache) (λ rest. ok (here ++ rest)) run1 in
    let same : here ++ rest ≡ staged = cc run2 in
    let split : is_staged h k staged ≡ (is_staged h k here || is_staged h k rest) =
      ap (is_staged h k) (sym same) ∙ is_staged-append h k here rest in
    let found : get e.market_ref ((first, r) ∷ cache) ≡ some e.market = e.there in
    elim (Bool-cases (list_eq e.market_ref first)) [
      | inr differ ↦
          let later : is_staged h k rest ≡ true = IsMarketKey-staged cache rest h k q (record {
            market_ref = e.market_ref;
            market = e.market;
            value = e.value;
            b = e.b;
            there = rw differ at found;
            created = e.created;
            serializes = e.serializes;
            packs = e.packs;
            key = e.key;
          }) in
          ground (arith, split, later)
      | inl near ↦
          let own : r ≡ e.market = some_injective (rw near at found) in
          let ref : e.market_ref ≡ first = list_eq→eq e.market_ref first near in
          let now : is_staged h k here ≡ true =
            stage_market-staged e.market e.market_ref h k e.value e.b here e.created e.serializes
              e.packs e.key
              (ap (λ (m : MarketRecord). stage_market (to_bytes m) e.market_ref m.create_height)
                  (sym own)
                ∙ ap (λ (f : Bytes). stage_market (to_bytes r) f r.create_height) ref
                ∙ p) in
          ground (arith, split, now)
    ]

-- The reorganisation of the market index. When the flush of the enabled index succeeds, the cache being
-- a dict, and the database had no undo record of a height h below 2 ^ 32 and no value of 2 ^ 32 - 1
-- bytes, then `backup` at h on the flushed database succeeds. Every key of a market that the cache had
-- with the creation height h (the market's own key, and its entry by height) then has the value it had
-- before the flush, the undo record of h is gone, and every other key is as the flush left it.
pub backup_index-markets :
    (reorg_limit blocks : ℕ) (db : Db) (x : PredictIndex) (flushed : List Op × PredictIndex) (h : ℕ)
    (undo : Bytes)
    → x.enabled ≡ true
    → AreDistinct x.market_cache
    → undo_key undo_prefix h ≡ ok undo
    → db undo ≡ none
    → AreShort db
    → flush reorg_limit blocks db x ≡ ok flushed
    → (ops : List Op) × (backup_index (write flushed.0 db) h x ≡ ok ops)
      × Restored
          (IsMarketKey x.market_cache h)
          undo
          db
          (write flushed.0 db)
          (write ops (write flushed.0 db))
backup_index-markets reorg_limit blocks db x flushed h undo on d at fresh short run =
    let (staged, ops, p, run2, result) =
      backup_index-flush reorg_limit blocks db x flushed h undo on at fresh short run in
    (
      ops,
      run2,
      is_staged-Restored (IsMarketKey x.market_cache h) undo db (write flushed.0 db)
          (write ops (write flushed.0 db)) h staged
          (λ k there. staged_of-IsMarketKey x.market_cache staged h k d p there)
          (λ k key. IsMarketKey-staged x.market_cache staged h k p key) result,
    )
