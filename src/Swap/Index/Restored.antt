-- ===== src/Swap/Index/Restored.antt =====
-- What a reorganisation leaves of the orders of electrumx/server/swap_index.py and of their entries in
-- the books, by the caches.
use rxin_dexer.Prelude.{
  ℕ, ◌≡◌, refl, ◌∙◌, sym, ap, true, inl, inr, ◌||◌, Option, none, some, List, [], ◌∷◌, ◌++◌,
  list_eq, list_eq→eq, list_eq_refl, Bool-cases, some_injective, append-nil, arith,
}
use rxin_dexer.Prelude.Dict.{Dict}
use rxin_dexer.Prelude.Result.{Result, ok, err}
use rxin_dexer.Util.{Bytes}
use rxin_dexer.Store.{Db, Op, write}
use rxin_dexer.Store.Cache.{Cache, get, AreDistinct, get-later}
use rxin_dexer.UndoLog.{Staged, undo_key}
use rxin_dexer.UndoLog.Recorded.{is_staged, is_staged-nil, is_staged-append}
use rxin_dexer.UndoLog.Backup.{AreShort}
use rxin_dexer.UndoLog.Restored.{Restored, is_staged-Restored}
use rxin_dexer.Swap.{SwapOrderInfo}
use rxin_dexer.Swap.Stored.{Value, to_bytes}
use rxin_dexer.Swap.Index.{
  undo_prefix, SwapIndex, pair_key, history_writes, writes_at, staged_orders, staged_of, flush,
  backup_index,
}
use rxin_dexer.Swap.Index.OrderWrites.{IsKeyOf, order_writes-key, order_writes-staged}
use rxin_dexer.Swap.Index.Reorg.{backup_index-flush_orders}

-- A key of an order that the cache has, staged for a height. The order's key in the pair's book packs.
pub record IsOrderKey (heights : Cache ℕ) (cache : Cache SwapOrderInfo) (h : ℕ) (k : Bytes)
    : Type 0 where
  pub order_id : Bytes
  pub order : SwapOrderInfo
  pub pair : Option Bytes
  pub there : get order_id cache ≡ some order
  pub staged : get order_id heights ≡ some h
  pub packs : pair_key order ≡ ok pair
  pub key : IsKeyOf order_id order pair k

IsOrderKey-later :
    (heights : Cache ℕ) (first : Bytes) (o : SwapOrderInfo) (cache : Cache SwapOrderInfo) (h : ℕ)
    (k : Bytes)
    → get first cache ≡ none
    → IsOrderKey heights cache h k
    → IsOrderKey heights ((first, o) ∷ cache) h k
IsOrderKey-later heights first o cache h k fresh e = record {
  order_id = e.order_id;
  order = e.order;
  pair = e.pair;
  there = get-later first o e.order_id cache fresh e.there;
  staged = e.staged;
  packs = e.packs;
  key = e.key;
}

module _ (dumps : Dict Value → Bytes) (loads : Bytes → Result (Dict Value)) where
  writes_at-IsOrderKey :
      (heights : Cache ℕ) (cache : Cache SwapOrderInfo) (height : Option ℕ)
      (pair : Result (Option Bytes)) (order_id : Bytes) (o : SwapOrderInfo) (h : ℕ) (k : Bytes)
      → get order_id heights ≡ height
      → pair_key o ≡ pair
      → is_staged h k (writes_at dumps loads height pair order_id o) ≡ true
      → IsOrderKey heights ((order_id, o) ∷ cache) h k
  unfolding writes_at get
  writes_at-IsOrderKey heights cache none pair order_id o h k at p there =
      absurd (cc (there, is_staged-nil h k))
  writes_at-IsOrderKey heights cache (some h') (err e) order_id o h k at p there =
      absurd (cc (there, is_staged-nil h k))
  writes_at-IsOrderKey heights cache (some h') (ok pair) order_id o h k at p there =
      let (height, key) = order_writes-key order_id o (to_bytes dumps loads o) pair h' h k there in
      record {
        order_id = order_id;
        order = o;
        pair = pair;
        there = rw (list_eq_refl order_id) refl;
        staged = at ∙ ap some height;
        packs = p;
        key = key;
      }

  staged_orders-IsOrderKey :
      (heights : Cache ℕ) (cache : Cache SwapOrderInfo) (h : ℕ) (k : Bytes)
      → AreDistinct cache
      → is_staged h k (staged_orders dumps loads heights cache) ≡ true
      → IsOrderKey heights cache h k
  unfolding staged_orders
  staged_orders-IsOrderKey heights [] h k d there = absurd (cc (there, is_staged-nil h k))
  staged_orders-IsOrderKey heights ((first, o) ∷ cache) h k (fresh, d) there =
      let now = writes_at dumps loads (get first heights) (pair_key o) first o in
      let later = staged_orders dumps loads heights cache in
      let split : (is_staged h k now || is_staged h k later) ≡ true =
        sym (is_staged-append h k now later) ∙ there in
      elim (Bool-cases (is_staged h k now)) [
        | inl here ↦
            writes_at-IsOrderKey heights cache (get first heights) (pair_key o) first o h k refl
              refl here
        | inr not_here ↦
            IsOrderKey-later heights first o cache h k fresh
              (staged_orders-IsOrderKey heights cache h k d (ground arith))
      ]

  writes_at-staged :
      (heights : Cache ℕ) (order_id : Bytes) (o : SwapOrderInfo) (pair : Option Bytes) (h : ℕ)
      (k : Bytes)
      → get order_id heights ≡ some h
      → pair_key o ≡ ok pair
      → IsKeyOf order_id o pair k
      → is_staged h k (writes_at dumps loads (get order_id heights) (pair_key o) order_id o) ≡ true
  unfolding writes_at
  writes_at-staged heights order_id o pair h k at p key =
      rw (at, p) (order_writes-staged order_id o (to_bytes dumps loads o) pair h k key)

  pub IsOrderKey-staged :
      (heights : Cache ℕ) (cache : Cache SwapOrderInfo) (h : ℕ) (k : Bytes)
      → IsOrderKey heights cache h k
      → is_staged h k (staged_orders dumps loads heights cache) ≡ true
  unfolding staged_orders get
  IsOrderKey-staged heights [] h k e = let there = e.there in cc there
  IsOrderKey-staged heights ((first, o) ∷ cache) h k e =
      let now = writes_at dumps loads (get first heights) (pair_key o) first o in
      let later = staged_orders dumps loads heights cache in
      let split = is_staged-append h k now later in
      let found : get e.order_id ((first, o) ∷ cache) ≡ some e.order = e.there in
      elim (Bool-cases (list_eq e.order_id first)) [
        | inr differ ↦
            let behind : is_staged h k later ≡ true = IsOrderKey-staged heights cache h k (record {
              order_id = e.order_id;
              order = e.order;
              pair = e.pair;
              there = rw differ at found;
              staged = e.staged;
              packs = e.packs;
              key = e.key;
            }) in
            split ∙ ground (arith, behind)
        | inl near ↦
            let own : e.order ≡ o = sym (some_injective (rw near at found)) in
            let id : e.order_id ≡ first = list_eq→eq e.order_id first near in
            let here : is_staged h k now ≡ true =
              ap
                (λ (f : Bytes).
                  is_staged h k (writes_at dumps loads (get f heights) (pair_key o) f o))
                (sym id)
              ∙ ap
                  (λ (c : SwapOrderInfo).
                    is_staged h k
                      (writes_at dumps loads (get e.order_id heights) (pair_key c) e.order_id c))
                  (sym own)
              ∙ writes_at-staged heights e.order_id e.order e.pair h k e.staged e.packs e.key in
            split ∙ ground (arith, here)
      ]

  -- The reorganisation of the swap index. When the flush of the enabled index succeeds, the cache of
  -- orders being a dict, the history cache being empty, and the database had no undo record of a height
  -- h below 2 ^ 32 and no value of 2 ^ 32 - 1 bytes, then `backup` at h on the flushed database
  -- succeeds. Every key of an order that the caches had staged for h (under its id, in the book of its
  -- pair, and in that of its maker) then has the value it had before the flush, the undo record of h is
  -- gone, and every other key is as the flush left it.
  pub backup_index-orders :
      (reorg_limit blocks : ℕ) (db : Db) (x : SwapIndex) (flushed : List Op × SwapIndex) (h : ℕ)
      (undo : Bytes)
      → x.enabled ≡ true
      → AreDistinct x.order_cache
      → x.history_cache ≡ []
      → undo_key undo_prefix h ≡ ok undo
      → db undo ≡ none
      → AreShort db
      → flush dumps loads reorg_limit blocks db x ≡ ok flushed
      → (ops : List Op) × (backup_index (write flushed.0 db) h x ≡ ok ops)
        × Restored
            (IsOrderKey x.order_height x.order_cache h)
            undo
            db
            (write flushed.0 db)
            (write ops (write flushed.0 db))
  backup_index-orders reorg_limit blocks db x flushed h undo on d empty at fresh short run =
      let (ops, run2, result) =
        backup_index-flush_orders dumps loads reorg_limit blocks db x flushed h undo on empty at
          fresh short run in
      let orders : List Staged = staged_orders dumps loads x.order_height x.order_cache in
      let all : staged_of dumps loads x ≡ orders =
        ap (λ (t : List (ℕ × (Bytes × Bytes))). orders ++ history_writes t) empty
        ∙ append-nil orders in
      (
        ops,
        run2,
        is_staged-Restored (IsOrderKey x.order_height x.order_cache h) undo db (write flushed.0 db)
            (write ops (write flushed.0 db)) h (staged_of dumps loads x)
            (λ k there.
              staged_orders-IsOrderKey x.order_height x.order_cache h k d
                (ap (is_staged h k) (sym all) ∙ there))
            (λ k key.
              ap (is_staged h k) all ∙ IsOrderKey-staged x.order_height x.order_cache h k key)
            result,
      )
