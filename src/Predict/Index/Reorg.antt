-- ===== src/Predict/Index/Reorg.antt =====
-- A reorganisation of electrumx/server/predict_index.py: what `backup` leaves after a flush.
use rxin_dexer.Prelude.{
  ℕ, ◌≡◌, ◌≢◌, ◌∙◌, ap, true, false, none, List, [], ◌∷◌, ◌++◌, if◌then◌else◌, list_eq,
  if_not_false, All, All-append, arith,
}
use rxin_dexer.Prelude.Result.{Result, ok, err, ◌>>=◌, >>=-eq-ok}
use rxin_dexer.Util.{Bytes}
use rxin_dexer.Undo.{pack_be_uint}
use rxin_dexer.Store.{Db, Op, write}
use rxin_dexer.Store.Cache.{Cache}
use rxin_dexer.UndoLog.{Staged, undo_key, flush_pruned}
use rxin_dexer.UndoLog.Recorded.{is_staged}
use rxin_dexer.UndoLog.Backup.{AreShort, IsApart}
use rxin_dexer.UndoLog.Pruned.{backup-flush_pruned}
use rxin_dexer.Predict.Record.{MarketRecord, to_bytes}
use rxin_dexer.Predict.Index.{
  market_prefix, by_height_prefix, undo_prefix, PredictIndex, market_writes, stage_market,
  staged_of, flush, backup_index,
}

abbrev third : Bytes → ℕ
third (x ∷ y ∷ z ∷ rest) = z
third _ = 0

pub not_market : (a b : Bytes) → undo_prefix ++ a ≢ market_prefix ++ b
not_market a b e = let same : 117 ≡ 109 = ap third e in absurd (omega (arith, same))

not_by_height : (a b : Bytes) → undo_prefix ++ a ≢ by_height_prefix ++ b
not_by_height a b e = let same : 117 ≡ 104 = ap third e in absurd (omega (arith, same))

stage_market-IsApart :
    (value : Result Bytes) (market_ref : Bytes) (h : ℕ) (staged : List Staged)
    → stage_market value market_ref h ≡ ok staged
    → All (IsApart undo_prefix) staged
unfolding stage_market
stage_market-IsApart (err e) market_ref h staged run =
    let none_there : [] ≡ staged = cc run in rw (← none_there) tt
stage_market-IsApart (ok value) market_ref h staged run =
    let (b, p, made) =
      >>=-eq-ok (pack_be_uint 4 h) (λ c. ok (market_writes value market_ref h c)) run in
    let same : market_writes value market_ref h b ≡ staged = cc made in
    rw (← same)
      ((λ rest. not_market rest market_ref), ((λ rest. not_by_height rest (b ++ market_ref)), tt))

staged_of-IsApart :
    (cache : Cache MarketRecord) (staged : List Staged)
    → staged_of cache ≡ ok staged
    → All (IsApart undo_prefix) staged
unfolding staged_of
staged_of-IsApart [] staged run = let none_there : [] ≡ staged = cc run in rw (← none_there) tt
staged_of-IsApart ((market_ref, r) ∷ cache) staged run =
    let (here, p, run1) =
      >>=-eq-ok (stage_market (to_bytes r) market_ref r.create_height)
        (λ here. staged_of cache >>= λ rest. ok (here ++ rest)) run in
    let (rest, q, run2) = >>=-eq-ok (staged_of cache) (λ rest. ok (here ++ rest)) run1 in
    let same : here ++ rest ≡ staged = cc run2 in
    rw (← same) (
      All-append (IsApart undo_prefix) here rest
        (stage_market-IsApart (to_bytes r) market_ref r.create_height here p)
        (staged_of-IsApart cache rest q))

-- What a successful flush of the enabled index has done.
pub flush-parts :
    (reorg_limit blocks : ℕ) (db : Db) (x : PredictIndex) (flushed : List Op × PredictIndex)
    → x.enabled ≡ true
    → flush reorg_limit blocks db x ≡ ok flushed
    → (staged : List Staged) × (out : List Op × ℕ) × (staged_of x.market_cache ≡ ok staged)
      × (flush_pruned undo_prefix false reorg_limit blocks x.pruned_to db staged ≡ ok out)
      × ((out.0, record { enabled = true; market_cache = []; pruned_to = out.1 }) ≡ flushed)
unfolding flush
flush-parts reorg_limit blocks db x flushed on run =
    let (staged, p, run1) =
      >>=-eq-ok (staged_of x.market_cache)
        (λ staged.
          flush_pruned undo_prefix false reorg_limit blocks x.pruned_to db staged >>= λ out.
          ok (out.0, record { enabled = true; market_cache = []; pruned_to = out.1 }))
        (rw on at run) in
    let (out, q, run2) =
      >>=-eq-ok (flush_pruned undo_prefix false reorg_limit blocks x.pruned_to db staged)
        (λ out. ok (out.0, record { enabled = true; market_cache = []; pruned_to = out.1 })) run1 in
    (staged, out, p, q, cc run2)

-- The reorganisation of the market index. When the flush of the enabled index succeeds, and the
-- database had no undo record of a height h below 2 ^ 32 and no value of 2 ^ 32 - 1 bytes,
-- then `backup` at h on the flushed database succeeds. Every key that the flush wrote for h then has
-- the value it had before the flush, the undo record of h is gone, and every other key is as the
-- flush left it.
pub backup_index-flush :
    (reorg_limit blocks : ℕ) (db : Db) (x : PredictIndex) (flushed : List Op × PredictIndex) (h : ℕ)
    (key : Bytes)
    → x.enabled ≡ true
    → undo_key undo_prefix h ≡ ok key
    → db key ≡ none
    → AreShort db
    → flush reorg_limit blocks db x ≡ ok flushed
    → (staged : List Staged) × (ops : List Op) × (staged_of x.market_cache ≡ ok staged)
      × (backup_index (write flushed.0 db) h x ≡ ok ops)
      × ((k : Bytes)
          → write ops (write flushed.0 db) k ≡ (
              if is_staged h k staged
              then db k
              else if list_eq key k
              then none
              else write flushed.0 db k))
unfolding backup_index
backup_index-flush reorg_limit blocks db x flushed h key on at fresh short run =
    let (staged, out, p, q, all) = flush-parts reorg_limit blocks db x flushed on run in
    let (ops, run2, result) =
      backup-flush_pruned undo_prefix false reorg_limit blocks x.pruned_to db staged h key out
        flushed.0 at fresh short (staged_of-IsApart x.market_cache staged p) q
        (ap (λ (f : List Op × PredictIndex). f.0) all) in
    (staged, ops, p, if_not_false x.enabled (ok []) _ on ∙ run2, result)
