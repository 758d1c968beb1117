-- ===== src/Swap/Index/Lost.antt =====
-- An order that electrumx/server/swap_index.py indexes and closes before one flush: the undo record of
-- the closing height holds no order to go back to.
use rxin_dexer.Prelude.{
  ℕ, ◌≡◌, refl, ◌∙◌, sym, ap, Bool, true, false, ◌||◌, Option, none, some, List, [], ◌∷◌, ◌++◌,
  ◌==◌, list_eq, list_eq→eq, list_eq_refl, Bool-cases, if_true, some_injective, inl, inr, arith,
}
use rxin_dexer.Prelude.Dict.{Dict}
use rxin_dexer.Prelude.Result.{Result, ok}
use rxin_dexer.Util.{Bytes}
use rxin_dexer.Store.{Db, Op, write}
use rxin_dexer.Store.Cache.{Cache, get}
use rxin_dexer.UndoLog.{undo_key}
use rxin_dexer.UndoLog.Recorded.{is_staged, is_staged-append}
use rxin_dexer.UndoLog.Backup.{AreShort}
use rxin_dexer.Swap.{SwapOrderInfo}
use rxin_dexer.Swap.Stored.{Value}
use rxin_dexer.Swap.Index.{
  order_prefix, undo_prefix, SwapIndex, pair_key, history_writes, writes_at, staged_orders,
  staged_of, flush, backup_index,
}
use rxin_dexer.Swap.Index.Reorg.{backup_index-flush_orders}

or_true : (b : Bool) → (b || true) ≡ true
or_true true = refl
or_true false = refl

module _ (dumps : Dict Value → Bytes) (loads : Bytes → Result (Dict Value)) where
  writes_at-order :
      (h : ℕ) (pair : Option Bytes) (order_id : Bytes) (o : SwapOrderInfo)
      → is_staged h (order_prefix ++ order_id) (writes_at dumps loads (some h) (ok pair) order_id o)
        ≡ true
  unfolding writes_at is_staged list_eq
  writes_at-order h pair order_id o =
      let same : list_eq order_id order_id ≡ true = list_eq_refl order_id in
      let here : (h == h) ≡ true = ground arith in rw (same, here) refl

  moved :
      (heights : Cache ℕ) (first order_id : Bytes) (o' o : SwapOrderInfo) (h : ℕ)
      (pair : Option Bytes)
      → first ≡ order_id
      → o' ≡ o
      → get order_id heights ≡ some h
      → pair_key o ≡ ok pair
      → writes_at dumps loads (get first heights) (pair_key o') first o'
        ≡ writes_at dumps loads (some h) (ok pair) order_id o
  moved heights first order_id o' o h pair f one at p =
      ap (λ (k : Bytes). writes_at dumps loads (get k heights) (pair_key o') k o') f
      ∙ ap
          (λ (c : SwapOrderInfo).
            writes_at dumps loads (get order_id heights) (pair_key c) order_id c)
          one
      ∙ ap (λ (r : Option ℕ). writes_at dumps loads r (pair_key o) order_id o) at
      ∙ ap (λ (r : Result (Option Bytes)). writes_at dumps loads (some h) r order_id o) p

  -- A cached order is written for the height at which it was staged.
  staged_orders-order :
      (heights : Cache ℕ) (cache : Cache SwapOrderInfo) (order_id : Bytes) (o : SwapOrderInfo)
      (h : ℕ) (pair : Option Bytes)
      → get order_id heights ≡ some h
      → get order_id cache ≡ some o
      → pair_key o ≡ ok pair
      → is_staged h (order_prefix ++ order_id) (staged_orders dumps loads heights cache) ≡ true
  unfolding get staged_orders
  staged_orders-order heights [] order_id o h pair at there p = cc there
  staged_orders-order heights ((first, o') ∷ cache) order_id o h pair at there p =
      let now = writes_at dumps loads (get first heights) (pair_key o') first o' in
      let split =
        is_staged-append h (order_prefix ++ order_id) now
          (staged_orders dumps loads heights cache) in
      split ∙ elim (Bool-cases (list_eq order_id first)) [
        | inr differ ↦
            let later =
              staged_orders-order heights cache order_id o h pair at (rw differ at there) p in
            rw later (or_true (is_staged h (order_prefix ++ order_id) now))
        | inl same ↦
            let f : order_id ≡ first = list_eq→eq order_id first same in
            let one : o' ≡ o = some_injective (rw same at there) in
            let made : now ≡ writes_at dumps loads (some h) (ok pair) order_id o =
              moved heights first order_id o' o h pair (sym f) one at p in
            let here : is_staged h (order_prefix ++ order_id) now ≡ true =
              ap (is_staged h (order_prefix ++ order_id)) made
              ∙ writes_at-order h pair order_id o in
            rw here refl
      ]

  -- An order that is new to the database and closed before its first flush does not come back. When the
  -- flush of the enabled index succeeds, the history cache being empty, where the cache holds the order
  -- with a key that packs and stages it for the height h, and where the database had no such order, no
  -- undo record of h, and no value of 2 ^ 32 - 1 bytes, then `backup` at h succeeds and
  -- leaves no order under its id. Closing an order stages it for the height of the closing, so this
  -- holds also for an order that was created at a lower height.
  pub backup_index-closed_order :
      (reorg_limit blocks : ℕ) (db : Db) (x : SwapIndex) (flushed : List Op × SwapIndex) (h : ℕ)
      (key order_id : Bytes) (o : SwapOrderInfo) (pair : Option Bytes)
      → x.enabled ≡ true
      → x.history_cache ≡ []
      → undo_key undo_prefix h ≡ ok key
      → db key ≡ none
      → AreShort db
      → get order_id x.order_cache ≡ some o
      → get order_id x.order_height ≡ some h
      → pair_key o ≡ ok pair
      → db (order_prefix ++ order_id) ≡ none
      → flush dumps loads reorg_limit blocks db x ≡ ok flushed
      → (ops : List Op) × (backup_index (write flushed.0 db) h x ≡ ok ops)
        × (write ops (write flushed.0 db) (order_prefix ++ order_id) ≡ none)
  backup_index-closed_order reorg_limit blocks db x flushed h key order_id o pair on empty at fresh
        short there staged p new run =
      let (ops, run2, result) =
        backup_index-flush_orders dumps loads reorg_limit blocks db x flushed h key on empty at
          fresh short run in
      let own = staged_orders-order x.order_height x.order_cache order_id o h pair staged there p in
      let all : is_staged h (order_prefix ++ order_id) (staged_of dumps loads x) ≡ true =
        is_staged-append h (order_prefix ++ order_id)
          (staged_orders dumps loads x.order_height x.order_cache) (history_writes x.history_cache)
        ∙ rw own refl in
      (ops, run2, result (order_prefix ++ order_id) ∙ if_true _ _ _ all ∙ new)
