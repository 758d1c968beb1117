-- ===== src/Swap/Index/BookKeys.antt =====
-- The keys that an order has in the books of electrumx/server/swap_index.py: a prefix, and the order's
-- id at the end.
use rxin_dexer.Prelude.{
  ℕ, ◌≡◌, ◌≢◌, refl, ◌∙◌, sym, ap, ◌⊎◌, inl, inr, ◌||◌, Option, some, [], ◌∷◌, ◌++◌, Bool-cases,
  length, length-append, drop, append_assoc, some_injective, arith,
}
use rxin_dexer.Prelude.Result.{ok, ◌>>=◌, >>=-eq-ok}
use rxin_dexer.Util.{Bytes}
use rxin_dexer.Undo.{pack_be_uint}
use rxin_dexer.Swap.{SwapOrderInfo}
use rxin_dexer.Swap.Index.{
  order_prefix, pair_prefix, undo_prefix, is_falsy, pair_key, price_key, maker_key,
}

-- The key of an entry of an order in one of the books.
abbrev pub InBook : SwapOrderInfo → Option Bytes → Bytes → Type 0
InBook o pair k = (pair ≡ some k) ⊎ (maker_key o ≡ some k)

same_end : (a b s t : Bytes) → a ++ s ≡ b ++ t → length s ≡ length t → s ≡ t
same_end [] [] s t e l = e
same_end [] (y ∷ b) s t e l =
    let n : length s ≡ length (y ∷ b ++ t) = ap length e in
    absurd (omega (arith, n, l, length-append b t))
same_end (x ∷ a) [] s t e l =
    let n : length (x ∷ a ++ s) ≡ length t = ap length e in
    absurd (omega (arith, n, l, length-append a s))
same_end (x ∷ a) (y ∷ b) s t e l = same_end a b s t (ap (drop 1) e) l

-- A key of the books: the prefix of a book, and the order's id at its end.
pub record HasShape (o : SwapOrderInfo) (k : Bytes) : Type 0 where
  tag : ℕ
  front : Bytes
  is_key : 83 ∷ tag ∷ (front ++ o.order_id) ≡ k
  is_tag : (tag ≡ 80) ⊎ (tag ≡ 77)

pair_key-HasShape : (o : SwapOrderInfo) (k : Bytes) → pair_key o ≡ ok (some k) → HasShape o k
unfolding pair_key
pair_key-HasShape o k run = elim (Bool-cases (is_falsy o.base_ref || is_falsy o.quote_ref)) [
  | inl e ↦ cc (rw e at run)
  | inr e ↦
      let (price, p, run1) =
        >>=-eq-ok (price_key o)
          (λ price. pack_be_uint 1 o.side >>= λ side. ok (
            some (pair_prefix ++ (o.base_ref ++ (o.quote_ref ++ (side ++ (price ++ o.order_id)))))))
          (rw e at run) in
      let (side, q, run2) =
        >>=-eq-ok (pack_be_uint 1 o.side)
          (λ side. ok (
            some (pair_prefix ++ (o.base_ref ++ (o.quote_ref ++ (side ++ (price ++ o.order_id)))))))
          run1 in
      let same : some
            (pair_prefix ++ (o.base_ref ++ (o.quote_ref ++ (side ++ (price ++ o.order_id)))))
          ≡ some k =
        cc run2 in
      let whole : (o.base_ref ++ (o.quote_ref ++ (side ++ price))) ++ o.order_id
          ≡ o.base_ref ++ (o.quote_ref ++ (side ++ (price ++ o.order_id))) =
        append_assoc o.base_ref (o.quote_ref ++ (side ++ price)) o.order_id
        ∙ ap (λ (t : Bytes). o.base_ref ++ t)
            (append_assoc o.quote_ref (side ++ price) o.order_id
              ∙ ap (λ (t : Bytes). o.quote_ref ++ t) (append_assoc side price o.order_id)) in
      record {
        tag = 80;
        front = o.base_ref ++ (o.quote_ref ++ (side ++ price));
        is_key = ap (λ (t : Bytes). 83 ∷ 80 ∷ t) whole ∙ some_injective same;
        is_tag = inl refl;
      }
]

maker_key-HasShape : (o : SwapOrderInfo) (k : Bytes) → maker_key o ≡ some k → HasShape o k
unfolding maker_key
maker_key-HasShape o k run = elim (Bool-cases (is_falsy o.maker_scripthash)) [
  | inl e ↦ cc (rw e at run)
  | inr e ↦ record {
    tag = 77;
    front = o.maker_scripthash;
    is_key = some_injective (rw e at run);
    is_tag = inr refl;
  }
]

pub InBook-HasShape :
    (o : SwapOrderInfo) (pair : Option Bytes) (k : Bytes)
    → pair_key o ≡ ok pair
    → InBook o pair k
    → HasShape o k
InBook-HasShape o pair k p (inl e) = pair_key-HasShape o k (p ∙ ap ok e)
InBook-HasShape o pair k p (inr e) = maker_key-HasShape o k e

abbrev second : Bytes → ℕ
second (x ∷ y ∷ rest) = y
second _ = 0

book_tag : (o : SwapOrderInfo) (k : Bytes) → HasShape o k → (second k ≡ 80) ⊎ (second k ≡ 77)
book_tag o k s = elim s.is_tag [
  | inl e ↦ inl (ap second (sym s.is_key) ∙ e)
  | inr e ↦ inr (ap second (sym s.is_key) ∙ e)
]

pub not_order : (o : SwapOrderInfo) (k b : Bytes) → HasShape o k → order_prefix ++ b ≢ k
not_order o k b s e =
    let n : 79 ≡ second k = ap second e in
    elim (book_tag o k s) [
      | inl t ↦ absurd (omega (arith, n, t))
      | inr t ↦ absurd (omega (arith, n, t))
    ]

pub not_undo : (o : SwapOrderInfo) (k b : Bytes) → HasShape o k → undo_prefix ++ b ≢ k
not_undo o k b s e =
    let n : 87 ≡ second k = ap second e in
    elim (book_tag o k s) [
      | inl t ↦ absurd (omega (arith, n, t))
      | inr t ↦ absurd (omega (arith, n, t))
    ]

-- Orders whose ids have one length share no key of the books.
pub same_id :
    (o o' : SwapOrderInfo) (k : Bytes)
    → HasShape o k
    → HasShape o' k
    → length o.order_id ≡ length o'.order_id
    → o.order_id ≡ o'.order_id
same_id o o' k s s' l =
    same_end s.front s'.front o.order_id o'.order_id (ap (drop 2) (s.is_key ∙ sym s'.is_key)) l
