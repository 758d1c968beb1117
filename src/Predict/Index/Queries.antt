-- ===== src/Predict/Index/Queries.antt =====
-- get_market of electrumx/server/predict_index.py: a flush does not change what it answers.
use rxin_dexer.Prelude.{
  ℕ, ◌≡◌, ◌≢◌, refl, ◌∙◌, sym, ap, true, false, ◌||◌, Option, none, some, List, [], ◌∷◌, ◌++◌,
  list_eq, list_eq→eq, list_eq_refl, list_eq_sym, Bool-cases, some_injective, some-ne-none, inl,
  inr, arith,
}
use rxin_dexer.Prelude.Result.{Result, ok, err, ◌>>=◌, >>=-eq-ok}
use rxin_dexer.Util.{Bytes}
use rxin_dexer.Undo.{pack_be_uint}
use rxin_dexer.Store.{Db, Op, write, has_key}
use rxin_dexer.Store.Writes.{write-append, write_other}
use rxin_dexer.Store.Cache.{Cache, get, AreDistinct}
use rxin_dexer.UndoLog.{Staged, ops_of}
use rxin_dexer.UndoLog.Pruned.{flush_pruned-other}
use rxin_dexer.Predict.Record.{
  MarketRecord, to_bytes, from_bytes, unpack_exact, HasSizes, IsQuestion, from_bytes-to_bytes,
}
use rxin_dexer.Predict.Index.{
  market_prefix, undo_prefix, PredictIndex, market_writes, stage_market, staged_of, flush,
  get_market, stored_market, cached_or_stored,
}
use rxin_dexer.Predict.Index.Reorg.{not_market, flush-parts}

ops_of-append : (a b : List Staged) → ops_of (a ++ b) ≡ ops_of a ++ ops_of b
ops_of-append [] b = refl
ops_of-append (s ∷ a) b = ap (λ (o : List Op). s.op ∷ o) (ops_of-append a b)

has_key-append : (k : Bytes) (a b : List Op) → has_key k (a ++ b) ≡ (has_key k a || has_key k b)
unfolding has_key
has_key-append k [] b = refl
has_key-append k (op ∷ a) b = ground (arith, has_key-append k a b)

-- The writes of one record leave the keys of other markets alone.
stage_market-other :
    (value : Result Bytes) (k r : Bytes) (h : ℕ) (staged : List Staged)
    → stage_market value k h ≡ ok staged
    → list_eq r k ≡ false
    → has_key (market_prefix ++ r) (ops_of staged) ≡ false
unfolding stage_market has_key list_eq
stage_market-other (err e) k r h staged run differ =
    let none_there : [] ≡ staged = cc run in rw (← none_there) refl
stage_market-other (ok value) k r h staged run differ =
    let (b, p, made) = >>=-eq-ok (pack_be_uint 4 h) (λ c. ok (market_writes value k h c)) run in
    let same : market_writes value k h b ≡ staged = cc made in
    rw (← same) (rw (list_eq_sym k r, differ) refl)

stage_market-own :
    (value : Bytes) (r : Bytes) (h : ℕ) (staged : List Staged) (db : Db)
    → stage_market (ok value) r h ≡ ok staged
    → write (ops_of staged) db (market_prefix ++ r) ≡ some value
unfolding stage_market write list_eq
stage_market-own value r h staged db run =
    let (b, p, made) = >>=-eq-ok (pack_be_uint 4 h) (λ c. ok (market_writes value r h c)) run in
    let same : market_writes value r h b ≡ staged = cc made in
    rw (← same) (rw (list_eq_refl r) refl)

staged_of-parts :
    (k : Bytes) (m : MarketRecord) (cache : Cache MarketRecord) (staged : List Staged)
    → staged_of ((k, m) ∷ cache) ≡ ok staged
    → (here rest : List Staged) × (stage_market (to_bytes m) k m.create_height ≡ ok here)
      × (staged_of cache ≡ ok rest)
      × (ops_of here ++ ops_of rest ≡ ops_of staged)
unfolding staged_of
staged_of-parts k m cache staged run =
    let (here, p, run1) =
      >>=-eq-ok (stage_market (to_bytes m) k m.create_height)
        (λ here. staged_of cache >>= λ rest. ok (here ++ rest)) run in
    let (rest, q, run2) = >>=-eq-ok (staged_of cache) (λ rest. ok (here ++ rest)) run1 in
    let same : here ++ rest ≡ staged = cc run2 in
    (here, rest, p, q, sym (ops_of-append here rest) ∙ ap ops_of same)

-- A market that is not in the cache is not written.
staged_of-absent :
    (cache : Cache MarketRecord) (staged : List Staged) (r : Bytes)
    → staged_of cache ≡ ok staged
    → get r cache ≡ none
    → has_key (market_prefix ++ r) (ops_of staged) ≡ false
unfolding get has_key staged_of
staged_of-absent [] staged r run absent =
    let none_there : [] ≡ staged = cc run in rw (← none_there) refl
staged_of-absent ((k, m) ∷ cache) staged r run absent =
    let (here, rest, p, q, joined) = staged_of-parts k m cache staged run in
    elim (Bool-cases (list_eq r k)) [
      | inl same ↦ absurd (some-ne-none m (rw same at absent))
      | inr differ ↦
          rw
            (
              ← joined,
              has_key-append (market_prefix ++ r) (ops_of here) (ops_of rest),
              stage_market-other (to_bytes m) k r m.create_height here p differ,
            )
            (staged_of-absent cache rest r q (rw differ at absent))
    ]

-- A market in the cache that serializes is written.
staged_of-present :
    (cache : Cache MarketRecord) (staged : List Staged) (r value : Bytes) (m : MarketRecord)
    (db : Db)
    → staged_of cache ≡ ok staged
    → AreDistinct cache
    → get r cache ≡ some m
    → to_bytes m ≡ ok value
    → write (ops_of staged) db (market_prefix ++ r) ≡ some value
unfolding get
staged_of-present [] staged r value m db run d there made = cc there
staged_of-present ((k, m') ∷ cache) staged r value m db run (fresh, d) there made =
    let (here, rest, p, q, joined) = staged_of-parts k m' cache staged run in
    let split : write (ops_of staged) db ≡ write (ops_of rest) (write (ops_of here) db) =
      ap (λ (o : List Op). write o db) (sym joined) ∙ write-append (ops_of here) (ops_of rest) db in
    rw split (elim (Bool-cases (list_eq r k)) [
      | inr differ ↦
          staged_of-present cache rest r value m (write (ops_of here) db) q d (rw differ at there)
            made
      | inl same ↦
          let this : k ≡ r = sym (list_eq→eq r k same) in
          let one : m' ≡ m = some_injective (rw same at there) in
          let own : stage_market (ok value) r m'.create_height ≡ ok here =
            rw (sym made, ← one, ← this) p in
          write_other (ops_of rest) (market_prefix ++ r) (write (ops_of here) db)
            (staged_of-absent cache rest r q (rw this at fresh))
          ∙ stage_market-own value r m'.create_height here db own
    ])

-- What the theorem asks of a cached record: that it serializes, and can be read back.
abbrev pub IsKept : (Bytes → Bytes) → Option MarketRecord → Type 0
IsKept utf8_replace none = Unit
IsKept utf8_replace (some m) =
    HasSizes m × IsQuestion utf8_replace m.question × ((value : Bytes) × (to_bytes m ≡ ok value))

empty_fails : (utf8_replace : Bytes → Bytes) (m : MarketRecord) → from_bytes utf8_replace [] ≢ ok m
unfolding from_bytes unpack_exact
empty_fails utf8_replace m e = cc e

stored-to_bytes :
    (utf8_replace : Bytes → Bytes) (m : MarketRecord) (value : Bytes)
    → HasSizes m
    → IsQuestion utf8_replace m.question
    → to_bytes m ≡ ok value
    → stored_market utf8_replace (some value) ≡ ok (some m)
unfolding stored_market
stored-to_bytes utf8_replace m [] h q e =
    let back = from_bytes-to_bytes utf8_replace m [] h q e in
    absurd (empty_fails utf8_replace m back)
stored-to_bytes utf8_replace m (b ∷ value) h q e =
    rw (from_bytes-to_bytes utf8_replace m (b ∷ value) h q e) refl

-- What the writes leave for a market, found in the cache or not.
answer_kept :
    (utf8_replace : Bytes → Bytes) (cache : Cache MarketRecord) (staged : List Staged) (db : Db)
    (r : Bytes) (found : Option MarketRecord)
    → staged_of cache ≡ ok staged
    → AreDistinct cache
    → get r cache ≡ found
    → IsKept utf8_replace found
    → stored_market utf8_replace (write (ops_of staged) db (market_prefix ++ r))
      ≡ cached_or_stored utf8_replace found (db (market_prefix ++ r))
unfolding cached_or_stored
answer_kept utf8_replace cache staged db r none p d absent kept =
    ap (stored_market utf8_replace) (
      write_other (ops_of staged) (market_prefix ++ r) db
        (staged_of-absent cache staged r p absent))
answer_kept utf8_replace cache staged db r (some m) p d there (h, question, (value, made)) =
    ap (stored_market utf8_replace) (staged_of-present cache staged r value m db p d there made)
    ∙ stored-to_bytes utf8_replace m value h question made

-- A flush of the enabled index does not change what get_market answers for a market: when the flush
-- succeeds, a market that was in the cache, with fields of their sizes and a question that is read
-- back as it is, is read from the database, and any other market is read as before.
pub get_market-flush :
    (utf8_replace : Bytes → Bytes) (reorg_limit blocks : ℕ) (db : Db) (x : PredictIndex)
    (flushed : List Op × PredictIndex) (market_ref : Bytes)
    → x.enabled ≡ true
    → AreDistinct x.market_cache
    → IsKept utf8_replace (get market_ref x.market_cache)
    → flush reorg_limit blocks db x ≡ ok flushed
    → get_market utf8_replace (write flushed.0 db) flushed.1 market_ref
      ≡ get_market utf8_replace db x market_ref
unfolding get_market cached_or_stored get
get_market-flush utf8_replace reorg_limit blocks db x flushed market_ref on d kept run =
    let (staged, out, p, q, all) = flush-parts reorg_limit blocks db x flushed on run in
    let at : write out.0 db (market_prefix ++ market_ref)
        ≡ write (ops_of staged) db (market_prefix ++ market_ref) =
      flush_pruned-other undo_prefix false reorg_limit blocks x.pruned_to db staged out
        (market_prefix ++ market_ref) q (λ b. not_market b market_ref) in
    rw (← all, at)
      (answer_kept utf8_replace x.market_cache staged db market_ref (get market_ref x.market_cache)
        p d refl kept)
