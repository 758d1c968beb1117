-- ===== src/Swap/Index/Books.antt =====
-- The books of electrumx/server/swap_index.py after a flush: an order is in them while it is open.
use mathlib.Core.Path.{subst}
use rxin_dexer.Prelude.{
  ℕ, ◌≡◌, ◌≢◌, refl, ◌∙◌, sym, ap, Bool, true, false, inl, inr, Option, none, some, List, [], ◌∷◌,
  ◌++◌, if◌then◌else◌, list_eq, Bool-cases, length, append-nil, some_injective, All, All-append,
  arith,
}
use rxin_dexer.Prelude.Dict.{Dict}
use rxin_dexer.Prelude.Result.{Result, ok, err}
use rxin_dexer.Util.{Bytes}
use rxin_dexer.Store.{Db, Op, key_of, write, has_key}
use rxin_dexer.Store.Writes.{AgreesAt, write-AgreesAt}
use rxin_dexer.Store.Cache.{Cache, get, AreDistinct, All-get, get-All}
use rxin_dexer.UndoLog.{Staged, ops_of}
use rxin_dexer.UndoLog.Pruned.{flush_pruned-other}
use rxin_dexer.UndoLog.Recorded.{is_staged}
use rxin_dexer.Swap.{SwapOrderInfo}
use rxin_dexer.Swap.Stored.{Value, to_bytes}
use rxin_dexer.Swap.Index.{
  order_prefix, undo_prefix, SwapIndex, is_terminal, pair_key, maker_key, index_entry, order_writes,
  history_writes, writes_at, staged_orders, staged_of, flush,
}
use rxin_dexer.Swap.Index.BookKeys.{InBook, HasShape, InBook-HasShape, not_order, not_undo, same_id}
use rxin_dexer.Swap.Index.Reorg.{flush-parts}
use rxin_dexer.Swap.Index.Restored.{IsOrderKey-staged}

-- An order of the cache has its id as its key, an outpoint of 36 bytes.
abbrev pub HasOwnId : Bytes × SwapOrderInfo → Type 0
HasOwnId (order_id, o) = (o.order_id ≡ order_id) × (length order_id ≡ 36)

-- What the books hold of an order.
abbrev pub entry_value : Bool → Option Bytes
entry_value true = none
entry_value false = some []

index_entry-AgreesAt :
    (terminal open_or_not : Bool) (h : ℕ) (key : Option Bytes) (k : Bytes)
    → (key ≡ some k → terminal ≡ open_or_not)
    → All (AgreesAt k (entry_value open_or_not)) (ops_of (index_entry terminal h key))
index_entry-AgreesAt true t h none k same = tt
index_entry-AgreesAt false t h none k same = tt
index_entry-AgreesAt true t h (some key) k same = ((λ e. ap entry_value (same (ap some e))), tt)
index_entry-AgreesAt false t h (some key) k same = ((λ e. ap entry_value (same (ap some e))), tt)

ops_of-append : (a b : List Staged) → ops_of (a ++ b) ≡ ops_of a ++ ops_of b
ops_of-append [] b = refl
ops_of-append (s ∷ a) b = ap (λ (t : List Op). s.op ∷ t) (ops_of-append a b)

has_key-ops_of :
    (h : ℕ) (k : Bytes) (staged : List Staged)
    → is_staged h k staged ≡ true
    → has_key k (ops_of staged) ≡ true
unfolding is_staged has_key
has_key-ops_of h k [] e = e
has_key-ops_of h k (s ∷ staged) e = elim (Bool-cases (list_eq (key_of s.op) k)) [
  | inl here ↦ rw here refl
  | inr other ↦
      let later : is_staged h k staged ≡ true = ground arith in
      rw (other, has_key-ops_of h k staged later) refl
]

-- An entry of the cache that, where it writes the key, is closed or open as another order is.
abbrev Agrees : Bytes → Bool → Bytes × SwapOrderInfo → Type 0
Agrees k t (order_id, o) =
    (pair : Option Bytes) → pair_key o ≡ ok pair → InBook o pair k → is_terminal o ≡ t

order_writes-AgreesAt :
    (order_id : Bytes) (o : SwapOrderInfo) (value : Bytes) (pair : Option Bytes) (h : ℕ) (k : Bytes)
    (t : Bool)
    → ((b : Bytes) → order_prefix ++ b ≢ k)
    → (InBook o pair k → is_terminal o ≡ t)
    → All (AgreesAt k (entry_value t)) (ops_of (order_writes order_id o value pair h))
order_writes-AgreesAt order_id o value pair h k t apart same =
    let pairs : List Staged = index_entry (is_terminal o) h pair in
    let makers : List Staged = index_entry (is_terminal o) h (maker_key o) in
    (
      (λ e. absurd (apart order_id e)),
      subst (All (AgreesAt k (entry_value t))) (sym (ops_of-append pairs makers)) (
          All-append (AgreesAt k (entry_value t)) (ops_of pairs) (ops_of makers)
            (index_entry-AgreesAt (is_terminal o) t h pair k (λ e. same (inl e)))
            (index_entry-AgreesAt (is_terminal o) t h (maker_key o) k (λ e. same (inr e)))),
    )

-- Among orders under their own ids of one length, those that write the key of an order agree with it.
All-Agrees :
    (cache : Cache SwapOrderInfo) (order_id : Bytes) (o : SwapOrderInfo) (k : Bytes)
    → AreDistinct cache
    → All HasOwnId cache
    → get order_id cache ≡ some o
    → HasShape o k
    → All (Agrees k (is_terminal o)) cache
All-Agrees cache order_id o k d own there s =
    All-get (Agrees k (is_terminal o)) cache d (λ other o' found pair p in_book.
      let (id, n) = get-All HasOwnId cache order_id o own there in
      let (id', n') = get-All HasOwnId cache other o' own found in
      let l : length o.order_id ≡ length o'.order_id =
        omega (arith, ap (λ (b : Bytes). length b) id, n, ap (λ (b : Bytes). length b) id', n') in
      let same : order_id ≡ other =
        sym id ∙ same_id o o' k s (InBook-HasShape o' pair k p in_book) l ∙ id' in
      let one : some o ≡ some o' = sym there ∙ ap (λ (b : Bytes). get b cache) same ∙ found in
      ap (λ (c : SwapOrderInfo). is_terminal c) (sym (some_injective one)))

module _ (dumps : Dict Value → Bytes) (loads : Bytes → Result (Dict Value)) where
  writes_at-AgreesAt :
      (height : Option ℕ) (packed : Result (Option Bytes)) (order_id : Bytes) (o : SwapOrderInfo)
      (k : Bytes) (t : Bool)
      → pair_key o ≡ packed
      → ((b : Bytes) → order_prefix ++ b ≢ k)
      → Agrees k t (order_id, o)
      → All (AgreesAt k (entry_value t)) (ops_of (writes_at dumps loads height packed order_id o))
  unfolding writes_at
  writes_at-AgreesAt none packed order_id o k t p apart agrees = tt
  writes_at-AgreesAt (some h) (err e) order_id o k t p apart agrees = tt
  writes_at-AgreesAt (some h) (ok pair) order_id o k t p apart agrees =
      order_writes-AgreesAt order_id o (to_bytes dumps loads o) pair h k t apart (agrees pair p)

  staged_orders-AgreesAt :
      (heights : Cache ℕ) (cache : Cache SwapOrderInfo) (k : Bytes) (t : Bool)
      → ((b : Bytes) → order_prefix ++ b ≢ k)
      → All (Agrees k t) cache
      → All (AgreesAt k (entry_value t)) (ops_of (staged_orders dumps loads heights cache))
  unfolding staged_orders
  staged_orders-AgreesAt heights [] k t apart all = tt
  staged_orders-AgreesAt heights ((first, o) ∷ cache) k t apart (agrees, all) =
      let now : List Staged = writes_at dumps loads (get first heights) (pair_key o) first o in
      let later : List Staged = staged_orders dumps loads heights cache in
      subst (All (AgreesAt k (entry_value t))) (sym (ops_of-append now later)) (
        All-append (AgreesAt k (entry_value t)) (ops_of now) (ops_of later)
          (writes_at-AgreesAt (get first heights) (pair_key o) first o k t refl apart agrees)
          (staged_orders-AgreesAt heights cache k t apart all))

  -- The books after a flush. When the flush of the enabled index succeeds, the cache of orders being a
  -- dict of orders under their own ids of 36 bytes, and the history cache being empty, then for every
  -- order of the cache that is staged for some height and has a key in the pair's book that packs: at
  -- its keys in the books the database has the empty value when the order is open, and nothing when it
  -- is closed (filled, cancelled or expired).
  pub flush-InBook :
      (reorg_limit blocks : ℕ) (db : Db) (x : SwapIndex) (flushed : List Op × SwapIndex) (h : ℕ)
      (order_id : Bytes) (o : SwapOrderInfo) (pair : Option Bytes) (k : Bytes)
      → x.enabled ≡ true
      → AreDistinct x.order_cache
      → All HasOwnId x.order_cache
      → x.history_cache ≡ []
      → get order_id x.order_cache ≡ some o
      → get order_id x.order_height ≡ some h
      → pair_key o ≡ ok pair
      → InBook o pair k
      → flush dumps loads reorg_limit blocks db x ≡ ok flushed
      → write flushed.0 db k ≡ (if is_terminal o then none else some [])
  flush-InBook reorg_limit blocks db x flushed h order_id o pair k on d own empty there at p in_book
        run =
      let s : HasShape o k = InBook-HasShape o pair k p in_book in
      let (out, q, same) = flush-parts dumps loads reorg_limit blocks db x flushed on run in
      let orders : List Staged = staged_orders dumps loads x.order_height x.order_cache in
      let all : staged_of dumps loads x ≡ orders =
        ap (λ (t : List (ℕ × (Bytes × Bytes))). orders ++ history_writes t) empty
        ∙ append-nil orders in
      let staged : has_key k (ops_of orders) ≡ true = has_key-ops_of h k orders (
        IsOrderKey-staged dumps loads x.order_height x.order_cache h k (record {
          order_id = order_id;
          order = o;
          pair = pair;
          there = there;
          staged = at;
          packs = p;
          key = inr in_book;
        })) in
      let agree =
        staged_orders-AgreesAt x.order_height x.order_cache k (is_terminal o)
          (λ b. not_order o k b s) (All-Agrees x.order_cache order_id o k d own there s) in
      ap (λ (batch : List Op). write batch db k) (sym same)
      ∙ flush_pruned-other undo_prefix true reorg_limit blocks x.pruned_to db
          (staged_of dumps loads x) out k q (λ b. not_undo o k b s)
      ∙ ap (λ (t : List Staged). write (ops_of t) db k) all
      ∙ write-AgreesAt (ops_of orders) k (entry_value (is_terminal o)) db agree
      ∙ rw staged (entry_if (is_terminal o))
    where
      entry_if : (t : Bool) → entry_value t ≡ (if t then none else some [])
      entry_if true = refl
      entry_if false = refl
