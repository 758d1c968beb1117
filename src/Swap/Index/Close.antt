-- ===== src/Swap/Index/Close.antt =====
-- Closing orders in electrumx/server/swap_index.py: what get_order answers after a transaction has
-- spent outpoints.
use rxin_dexer.Prelude.{
  ℕ, ◌≡◌, ◌≢◌, refl, ◌∙◌, sym, ap, Bool, true, false, ◌||◌, Option, none, some, List, [], ◌∷◌, ◌++◌,
  if◌then◌else◌, list_eq, list_eq→eq, Bool-cases, if_true, if_false, inl, inr,
}
use rxin_dexer.Prelude.Dict.{Dict}
use rxin_dexer.Prelude.Result.{Result, ok, err, Error, >>=-eq-ok, Result-cases}
use rxin_dexer.Util.{Bytes}
use rxin_dexer.Store.{Db}
use rxin_dexer.Store.Cache.{get-set}
use rxin_dexer.Predict.Index.{is_in}
use rxin_dexer.Swap.{SwapOrderInfo}
use rxin_dexer.Swap.Stored.{Value}
use rxin_dexer.Swap.Index.{
  order_prefix, SwapIndex, is_terminal, close_order, stage_order, cached_order, get_order,
  close_found, close_order_if_open, close_spent,
}

-- An order after its outpoint was spent: closed, unless it is already.
abbrev pub spent_order : ℕ → Bytes → SwapOrderInfo → SwapOrderInfo
spent_order height tx_hash o = if is_terminal o then o else close_order o height tx_hash

-- What get_order answers for it.
abbrev pub spent_answer : ℕ → Bytes → Result (Option SwapOrderInfo) → Result (Option SwapOrderInfo)
spent_answer height tx_hash (err e) = err e
spent_answer height tx_hash (ok none) = ok none
spent_answer height tx_hash (ok (some o)) = ok (some (spent_order height tx_hash o))

terminal_after :
    (o closed : SwapOrderInfo) (b : Bool)
    → is_terminal o ≡ b
    → is_terminal closed ≡ true
    → is_terminal (if b then o else closed) ≡ true
terminal_after o closed true e c = e
terminal_after o closed false e c = c

spent_order-twice :
    (height : ℕ) (tx_hash : Bytes) (o : SwapOrderInfo)
    → spent_order height tx_hash (spent_order height tx_hash o) ≡ spent_order height tx_hash o
spent_order-twice height tx_hash o =
    let once : SwapOrderInfo = spent_order height tx_hash o in
    if_true (is_terminal once) once (close_order once height tx_hash)
      (terminal_after o (close_order o height tx_hash) (is_terminal o) refl refl)

err-ne-ok : (e : Error) → ◌≢◌ {A = Result (Unit {0})} (err e) (ok tt)
err-ne-ok e h = cc h

spent_answer-twice :
    (height : ℕ) (tx_hash : Bytes) (answer : Result (Option SwapOrderInfo))
    → spent_answer height tx_hash (spent_answer height tx_hash answer)
      ≡ spent_answer height tx_hash answer
spent_answer-twice height tx_hash (err e) = refl
spent_answer-twice height tx_hash (ok none) = refl
spent_answer-twice height tx_hash (ok (some o)) =
    ap (λ (c : SwapOrderInfo). ok (some c)) (spent_order-twice height tx_hash o)

module _ (dumps : Dict Value → Bytes) (loads : Bytes → Result (Dict Value)) (db : Db)
    (tx_hash : Bytes) (height : ℕ) where
  abbrev answer : SwapIndex → Bytes → Result (Option SwapOrderInfo)
  answer = get_order dumps loads db

  -- An order that is closed already stays as it is.
  unchanged :
      (x : SwapIndex) (order_id k : Bytes) (found : Option SwapOrderInfo)
      → answer x order_id ≡ ok found
      → spent_answer height tx_hash (ok found) ≡ ok found
      → answer x k
        ≡ (if list_eq k order_id then spent_answer height tx_hash (answer x k) else answer x k)
  unchanged x order_id k found at stays = elim (Bool-cases (list_eq k order_id)) [
    | inr other ↦ sym (if_false (list_eq k order_id) _ _ other)
    | inl same ↦
        let here : answer x k ≡ ok found = ap (answer x) (list_eq→eq k order_id same) ∙ at in
        here
        ∙ sym
            (if_true (list_eq k order_id) _ _ same ∙ ap (spent_answer height tx_hash) here ∙ stays)
  ]

  -- The order at the spent outpoint, and any other one, once the order that was found is closed.
  close_found-at :
      (x : SwapIndex) (order_id k : Bytes) (found : Option SwapOrderInfo)
      → answer x order_id ≡ ok found
      → answer (close_found dumps loads found order_id tx_hash height x) k
        ≡ (if list_eq k order_id then spent_answer height tx_hash (answer x k) else answer x k)
  unfolding close_found get_order
  close_found-at x order_id k none at = unchanged x order_id k none at refl
  close_found-at x order_id k (some o) at =
      let closed : SwapOrderInfo = close_order o height tx_hash in
      let staged : SwapIndex = stage_order order_id closed height x in
      elim (Bool-cases (is_terminal o)) [
        | inl done ↦
            ap (λ (y : SwapIndex). answer y k) (if_true (is_terminal o) x staged done)
            ∙ unchanged x order_id k (some o) at
                (ap (λ (c : SwapOrderInfo). ok (some c)) (if_true (is_terminal o) o closed done))
        | inr live ↦
            ap (λ (y : SwapIndex). answer y k) (if_false (is_terminal o) x staged live)
            ∙ ap (λ (c : Option SwapOrderInfo). cached_order dumps loads c (db (order_prefix ++ k)))
                (get-set order_id k closed x.order_cache)
            ∙ elim (Bool-cases (list_eq k order_id)) [
              | inr other ↦ rw other refl
              | inl same ↦
                  let here : answer x k ≡ ok (some o) =
                    ap (answer x) (list_eq→eq k order_id same) ∙ at in
                  let after : spent_answer height tx_hash (answer x k) ≡ ok (some closed) =
                    ap (spent_answer height tx_hash) here
                    ∙ ap (λ (c : SwapOrderInfo). ok (some c))
                        (if_false (is_terminal o) o closed live) in
                  rw same (sym after)
            ]
      ]

  close_order_if_open-at :
      (x y : SwapIndex) (order_id k : Bytes)
      → close_order_if_open dumps loads db order_id tx_hash height x ≡ ok y
      → answer y k
        ≡ (if list_eq k order_id then spent_answer height tx_hash (answer x k) else answer x k)
  unfolding close_order_if_open
  close_order_if_open-at x y order_id k run =
      let (found, at, made) =
        >>=-eq-ok (answer x order_id)
          (λ found. ok (close_found dumps loads found order_id tx_hash height x)) run in
      let same : close_found dumps loads found order_id tx_hash height x ≡ y = cc made in
      ap (λ (z : SwapIndex). answer z k) (sym same) ∙ close_found-at x order_id k found at

  merged :
      (a b : Bool) (after before : Result (Option SwapOrderInfo))
      → after ≡ (if a then spent_answer height tx_hash before else before)
      → (if b then spent_answer height tx_hash after else after)
        ≡ (if a || b then spent_answer height tx_hash before else before)
  merged true true after before e =
      ap (spent_answer height tx_hash) e ∙ spent_answer-twice height tx_hash before
  merged true false after before e = e
  merged false true after before e = ap (spent_answer height tx_hash) e
  merged false false after before e = e

  -- Close-on-spend. When the loop over the spent outpoints of a transaction ends without an exception,
  -- get_order answers for an outpoint that was spent the order it had, closed by this transaction at
  -- its height unless it was closed before, and for any other outpoint what it answered before. So the
  -- order in which the outpoints come, and how often one comes, do not matter.
  pub close_spent-get_order :
      (spent : List Bytes) (x y : SwapIndex) (k : Bytes)
      → close_spent dumps loads db spent tx_hash height x ≡ (y, ok tt)
      → answer y k
        ≡ (if is_in k spent then spent_answer height tx_hash (answer x k) else answer x k)
  unfolding close_spent
  close_spent-get_order [] x y k run =
      let same : x ≡ y = ap (λ (r : SwapIndex × Result (Unit {0})). r.0) run in
      ap (λ (z : SwapIndex). answer z k) (sym same)
  close_spent-get_order (outpoint ∷ spent) x y k run =
      elim (Result-cases (close_order_if_open dumps loads db outpoint tx_hash height x)) [
        | inr (e, fails) ↦
            absurd (err-ne-ok e (ap (λ (r : SwapIndex × Result (Unit {0})). r.1) (rw fails at run)))
        | inl (closed, at) ↦
            close_spent-get_order spent closed y k (rw at at run)
            ∙ merged (list_eq k outpoint) (is_in k spent) (answer closed k) (answer x k)
                (close_order_if_open-at x closed outpoint k at)
      ]
