-- ===== src/Swap/Index/OrderWrites.antt =====
-- What a cached order of electrumx/server/swap_index.py writes in a flush: its keys, and their height.
use rxin_dexer.Prelude.{
  ℕ, ◌≡◌, ◌∙◌, sym, ap, Bool, true, false, ◌⊎◌, inl, inr, ◌||◌, ◌&&◌, ◌==◌, Option, none, some,
  List, ◌++◌, list_eq, list_eq→eq, list_eq_refl, Bool-cases, some_injective, arith,
}
use rxin_dexer.Util.{Bytes}
use rxin_dexer.UndoLog.{Staged}
use rxin_dexer.UndoLog.Recorded.{is_staged, is_staged-append}
use rxin_dexer.Swap.{SwapOrderInfo}
use rxin_dexer.Swap.Index.{order_prefix, is_terminal, maker_key, index_entry, order_writes}

-- The keys of an order: its own under its id, and those of its entries in the two books.
abbrev pub IsKeyOf : Bytes → SwapOrderInfo → Option Bytes → Bytes → Type 0
IsKeyOf order_id o pair k =
    (order_prefix ++ order_id ≡ k) ⊎ ((pair ≡ some k) ⊎ (maker_key o ≡ some k))

index_entry-key :
    (terminal : Bool) (h' h : ℕ) (key : Option Bytes) (k : Bytes)
    → is_staged h k (index_entry terminal h' key) ≡ true
    → (h' ≡ h) × (key ≡ some k)
unfolding is_staged
index_entry-key true h' h none k e = cc e
index_entry-key false h' h none k e = cc e
index_entry-key true h' h (some key) k e = (ground arith, ap some (list_eq→eq key k (ground arith)))
index_entry-key false h' h (some key) k e =
    (ground arith, ap some (list_eq→eq key k (ground arith)))

index_entry-staged :
    (terminal : Bool) (h : ℕ) (key : Option Bytes) (k : Bytes)
    → key ≡ some k
    → is_staged h k (index_entry terminal h key) ≡ true
unfolding is_staged
index_entry-staged true h none k e = cc e
index_entry-staged false h none k e = cc e
index_entry-staged true h (some key) k e =
    let same : list_eq key k ≡ true =
      ap (list_eq key) (sym (some_injective e)) ∙ list_eq_refl key in
    ground arith
index_entry-staged false h (some key) k e =
    let same : list_eq key k ≡ true =
      ap (list_eq key) (sym (some_injective e)) ∙ list_eq_refl key in
    ground arith

pub order_writes-key :
    (order_id : Bytes) (o : SwapOrderInfo) (value : Bytes) (pair : Option Bytes) (h' h : ℕ)
    (k : Bytes)
    → is_staged h k (order_writes order_id o value pair h') ≡ true
    → (h' ≡ h) × IsKeyOf order_id o pair k
order_writes-key order_id o value pair h' h k e =
    let own : Bool = h' == h && list_eq (order_prefix ++ order_id) k in
    let pairs : List Staged = index_entry (is_terminal o) h' pair in
    let makers : List Staged = index_entry (is_terminal o) h' (maker_key o) in
    let books = is_staged-append h k pairs makers in
    let split : (own || is_staged h k (pairs ++ makers)) ≡ true = unfold is_staged in e in
    elim (Bool-cases own) [
      | inl here ↦ (ground arith, inl (list_eq→eq (order_prefix ++ order_id) k (ground arith)))
      | inr other ↦ elim (Bool-cases (is_staged h k pairs)) [
        | inl in_pair ↦
            let (height, key) = index_entry-key (is_terminal o) h' h pair k in_pair in
            (height, inr (inl key))
        | inr not_pair ↦
            let in_maker : is_staged h k makers ≡ true = ground arith in
            let (height, key) = index_entry-key (is_terminal o) h' h (maker_key o) k in_maker in
            (height, inr (inr key))
      ]
    ]

pub order_writes-staged :
    (order_id : Bytes) (o : SwapOrderInfo) (value : Bytes) (pair : Option Bytes) (h : ℕ) (k : Bytes)
    → IsKeyOf order_id o pair k
    → is_staged h k (order_writes order_id o value pair h) ≡ true
unfolding is_staged
order_writes-staged order_id o value pair h k (inl e) =
    let same : list_eq (order_prefix ++ order_id) k ≡ true =
      ap (list_eq (order_prefix ++ order_id)) (sym e) ∙ list_eq_refl (order_prefix ++ order_id) in
    ground arith
order_writes-staged order_id o value pair h k (inr (inl e)) =
    let books =
      is_staged-append h k (index_entry (is_terminal o) h pair)
        (index_entry (is_terminal o) h (maker_key o)) in
    let here = index_entry-staged (is_terminal o) h pair k e in ground (arith, books, here)
order_writes-staged order_id o value pair h k (inr (inr e)) =
    let books =
      is_staged-append h k (index_entry (is_terminal o) h pair)
        (index_entry (is_terminal o) h (maker_key o)) in
    let here = index_entry-staged (is_terminal o) h (maker_key o) k e in ground (arith, books, here)
