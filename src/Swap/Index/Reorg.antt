-- ===== src/Swap/Index/Reorg.antt =====
-- A reorganisation of electrumx/server/swap_index.py: what `backup` leaves after a flush.
use rxin_dexer.Prelude.{
  ℕ, ◌≡◌, ◌≢◌, refl, ◌∙◌, sym, ap, Bool, true, false, ◌||◌, Bool-cases, if_not_false, inl, inr,
  Option, none, some, List, [], ◌∷◌, ◌++◌, if◌then◌else◌, list_eq, All, All-append, arith,
}
use rxin_dexer.Prelude.Dict.{Dict}
use rxin_dexer.Prelude.Result.{Result, ok, err, ◌>>=◌, >>=-eq-ok}
use rxin_dexer.Util.{Bytes}
use rxin_dexer.Undo.{pack_be_uint}
use rxin_dexer.Store.{Db, Op, write}
use rxin_dexer.Store.Cache.{Cache, get}
use rxin_dexer.UndoLog.{undo_key, flush_pruned}
use rxin_dexer.UndoLog.Recorded.{is_staged}
use rxin_dexer.UndoLog.Backup.{AreShort, IsApart}
use rxin_dexer.UndoLog.Pruned.{backup-flush_pruned}
use rxin_dexer.Swap.{SwapOrderInfo}
use rxin_dexer.Swap.Stored.{Value, to_bytes}
use rxin_dexer.Swap.Index.{
  order_prefix, pair_prefix, maker_prefix, undo_prefix, SwapIndex, is_terminal, is_falsy, pair_key,
  maker_key, price_key, index_entry, order_writes, history_writes, writes_at, staged_orders,
  staged_of, flushed_index, flush, backup_index,
}

abbrev second : Bytes → ℕ
second (x ∷ y ∷ rest) = y
second _ = 0

not_order : (a b : Bytes) → undo_prefix ++ a ≢ order_prefix ++ b
not_order a b e = let same : 87 ≡ 79 = ap second e in absurd (omega (arith, same))

not_pair : (a b : Bytes) → undo_prefix ++ a ≢ pair_prefix ++ b
not_pair a b e = let same : 87 ≡ 80 = ap second e in absurd (omega (arith, same))

not_maker : (a b : Bytes) → undo_prefix ++ a ≢ maker_prefix ++ b
not_maker a b e = let same : 87 ≡ 77 = ap second e in absurd (omega (arith, same))

-- A key of the books that is not an undo key.
abbrev IsBookKey : Option Bytes → Type 0
IsBookKey none = Unit
IsBookKey (some key) = (rest : Bytes) → undo_prefix ++ rest ≢ key

index_entry-IsApart :
    (terminal : Bool) (h : ℕ) (key : Option Bytes)
    → IsBookKey key
    → All (IsApart undo_prefix) (index_entry terminal h key)
index_entry-IsApart true h none p = tt
index_entry-IsApart false h none p = tt
index_entry-IsApart true h (some key) p = (p, tt)
index_entry-IsApart false h (some key) p = (p, tt)

maker_key-IsBookKey : (o : SwapOrderInfo) → IsBookKey (maker_key o)
unfolding maker_key
maker_key-IsBookKey o =
    elim o.maker_scripthash
      as (λ s. IsBookKey (if is_falsy s then none else some (maker_prefix ++ (s ++ o.order_id)))) [
        | [] ↦ tt
        | b ∷ s ↦ λ rest. not_maker rest (b ∷ (s ++ o.order_id))
      ]

pair_key-IsBookKey : (o : SwapOrderInfo) (key : Option Bytes) → pair_key o ≡ ok key → IsBookKey key
unfolding pair_key
pair_key-IsBookKey o key run = elim (Bool-cases (is_falsy o.base_ref || is_falsy o.quote_ref)) [
  | inl e ↦ let same : none ≡ key = cc (rw e at run) in rw (← same) tt
  | inr e ↦
      let (price, p, run1) =
        >>=-eq-ok (price_key o)
          (λ price. pack_be_uint 1 o.side >>= λ side. ok (
            some (pair_prefix ++ (o.base_ref ++ (o.quote_ref ++ (side ++ (price ++ o.order_id)))))))
          (rw e at run) in
      let (side, q, run2) =
        >>=-eq-ok (pack_be_uint 1 o.side)
          (λ side. ok (
            some (pair_prefix ++ (o.base_ref ++ (o.quote_ref ++ (side ++ (price ++ o.order_id)))))))
          run1 in
      let same : some
            (pair_prefix ++ (o.base_ref ++ (o.quote_ref ++ (side ++ (price ++ o.order_id)))))
          ≡ key =
        cc run2 in
      rw (← same)
        (λ rest. not_pair rest (o.base_ref ++ (o.quote_ref ++ (side ++ (price ++ o.order_id)))))
]

abbrev ops_or_nil : {A : Type 0} → Result (List Op × A) → List Op
ops_or_nil (ok out) = out.0
ops_or_nil (err e) = []

module _ (dumps : Dict Value → Bytes) (loads : Bytes → Result (Dict Value)) where
  order_writes-IsApart :
      (order_id : Bytes) (o : SwapOrderInfo) (value : Bytes) (pair : Option Bytes) (h : ℕ)
      → pair_key o ≡ ok pair
      → All (IsApart undo_prefix) (order_writes order_id o value pair h)
  order_writes-IsApart order_id o value pair h p = (
    (λ rest. not_order rest order_id),
    All-append (IsApart undo_prefix) (index_entry (is_terminal o) h pair)
        (index_entry (is_terminal o) h (maker_key o))
        (index_entry-IsApart (is_terminal o) h pair (pair_key-IsBookKey o pair p))
        (index_entry-IsApart (is_terminal o) h (maker_key o) (maker_key-IsBookKey o)),
  )

  writes_at-IsApart :
      (height : Option ℕ) (pair : Result (Option Bytes)) (order_id : Bytes) (o : SwapOrderInfo)
      → pair_key o ≡ pair
      → All (IsApart undo_prefix) (writes_at dumps loads height pair order_id o)
  unfolding writes_at
  writes_at-IsApart none pair order_id o p = tt
  writes_at-IsApart (some h) (err e) order_id o p = tt
  writes_at-IsApart (some h) (ok pair) order_id o p =
      order_writes-IsApart order_id o (to_bytes dumps loads o) pair h p

  staged_orders-IsApart :
      (heights : Cache ℕ) (cache : Cache SwapOrderInfo)
      → All (IsApart undo_prefix) (staged_orders dumps loads heights cache)
  unfolding staged_orders
  staged_orders-IsApart heights [] = tt
  staged_orders-IsApart heights ((order_id, o) ∷ cache) =
      All-append (IsApart undo_prefix)
        (writes_at dumps loads (get order_id heights) (pair_key o) order_id o)
        (staged_orders dumps loads heights cache)
        (writes_at-IsApart (get order_id heights) (pair_key o) order_id o refl)
        (staged_orders-IsApart heights cache)

  staged_of-IsApart :
      (x : SwapIndex) → x.history_cache ≡ [] → All (IsApart undo_prefix) (staged_of dumps loads x)
  staged_of-IsApart x h =
      All-append (IsApart undo_prefix) (staged_orders dumps loads x.order_height x.order_cache)
        (history_writes x.history_cache) (staged_orders-IsApart x.order_height x.order_cache)
        (rw h tt)

  pub flush-parts :
      (reorg_limit blocks : ℕ) (db : Db) (x : SwapIndex) (flushed : List Op × SwapIndex)
      → x.enabled ≡ true
      → flush dumps loads reorg_limit blocks db x ≡ ok flushed
      → (out : List Op × ℕ) × (flush_pruned undo_prefix true reorg_limit blocks x.pruned_to db
            (staged_of dumps loads x)
          ≡ ok out)
        × (out.0 ≡ flushed.0)
  unfolding flush
  flush-parts reorg_limit blocks db x flushed on run =
      let (out, p, made) =
        >>=-eq-ok
          (flush_pruned undo_prefix true reorg_limit blocks x.pruned_to db
            (staged_of dumps loads x))
          (λ out. ok (out.0, flushed_index dumps loads x out.1))
          (sym (if_not_false x.enabled (ok ([], x)) _ on) ∙ run) in
      (out, p, ap (λ (f : Result (List Op × SwapIndex)). ops_or_nil f) made)

  -- The reorganisation of the swap index. When the flush of the enabled index succeeds, the history
  -- cache being empty, and the database had no undo record of a height h below 2 ^ 32 and no value of
  -- 2 ^ 32 - 1 bytes, then `backup` at h on the flushed database succeeds. Every key that
  -- the flush wrote or deleted for h (orders and their entries in the books) then has the value it had
  -- before the flush, the undo record of h is gone, and every other key is as the flush left it.
  pub backup_index-flush_orders :
      (reorg_limit blocks : ℕ) (db : Db) (x : SwapIndex) (flushed : List Op × SwapIndex) (h : ℕ)
      (key : Bytes)
      → x.enabled ≡ true
      → x.history_cache ≡ []
      → undo_key undo_prefix h ≡ ok key
      → db key ≡ none
      → AreShort db
      → flush dumps loads reorg_limit blocks db x ≡ ok flushed
      → (ops : List Op) × (backup_index (write flushed.0 db) h x ≡ ok ops)
        × ((k : Bytes)
            → write ops (write flushed.0 db) k ≡ (
                if is_staged h k (staged_of dumps loads x)
                then db k
                else if list_eq key k
                then none
                else write flushed.0 db k))
  unfolding backup_index
  backup_index-flush_orders reorg_limit blocks db x flushed h key on empty at fresh short run =
      let (out, q, same) = flush-parts reorg_limit blocks db x flushed on run in
      let (ops, run2, result) =
        backup-flush_pruned undo_prefix true reorg_limit blocks x.pruned_to db
          (staged_of dumps loads x) h key out flushed.0 at fresh short (staged_of-IsApart x empty) q
          same in
      (ops, if_not_false x.enabled (ok []) _ on ∙ run2, result)
