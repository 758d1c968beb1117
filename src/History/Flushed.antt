-- ===== src/History/Flushed.antt =====
-- `flush` and `get_txnums` of electrumx/server/history.py: what was unflushed is behind what was stored.
use mathlib.Core.Path.{subst}
use rxin_dexer.Prelude.{
  ℕ, ◌+◌, ◌^◌, ◌<◌, ◌≡◌, refl, sym, ap, ◌∙◌, false, Option, none, some, List, [], ◌∷◌, ◌++◌, arith,
  lt→ltb, le→ltb, list_eq, list_eq→eq, All, All-append, Bool-cases, inl, inr, append-nil, ◌==◌,
}
use rxin_dexer.Prelude.Result.{ok}
use rxin_dexer.Util.{Bytes, to_le}
use rxin_dexer.Store.Cache.{Cache, get, AreDistinct}
use rxin_dexer.History.{
  History, Rows, or_empty, put_row, put_at, put_rows, flush, up_to, get_txnums,
}
use rxin_dexer.History.Numbers.{
  Log, row_of, rows_of, nums_of, IsSmall, tx_nums_of_rows-rows_of, nums_of-append,
}

unfoldable put_if : ℕ → Option Bytes → Rows → Rows
put_if id none rows = rows
put_if id (some row) rows = put_row id row rows

-- The batch puts, at every hashX, the row that the cache has there.
put_rows-get :
    (id : ℕ) (hashX : Bytes) (unflushed : Cache Bytes) (rows : Bytes → Rows)
    → AreDistinct unflushed
    → put_rows id unflushed rows hashX ≡ put_if id (get hashX unflushed) (rows hashX)
unfolding put_rows put_at put_if get
put_rows-get id hashX [] rows d = refl
put_rows-get id hashX ((first, row) ∷ unflushed) rows (fresh, d) =
    put_rows-get id hashX unflushed (put_at first (put_row id row) rows) d
    ∙ elim (Bool-cases (list_eq hashX first)) [
      | inr apart ↦ rw apart refl
      | inl same ↦
          let gone : get hashX unflushed ≡ none =
            ap (λ (k : Bytes). get k unflushed) (list_eq→eq hashX first same) ∙ fresh in
          rw (same, gone) refl
    ]

-- Every row was flushed before the one with this number.
abbrev pub AreBefore : ℕ → Log → Type 0
AreBefore id log = All (λ (entry : ℕ × List ℕ). entry.0 < id) log

put_row-last :
    (id : ℕ) (ns : List ℕ) (log : Log)
    → AreBefore id log
    → put_row id (row_of ns) (rows_of log) ≡ rows_of (log ++ ((id, ns) ∷ []))
unfolding put_row rows_of
put_row-last id ns [] before = refl
put_row-last id ns ((first, old) ∷ log) (lt, before) =
    let differ : (id == first) ≡ false = ground arith in
    rw (differ, le→ltb id first (omega arith))
      (ap (λ (t : Rows). (first, row_of old) ∷ t) (put_row-last id ns log before))

row_of-empty : (ns : List ℕ) → [] ≡ row_of ns → ns ≡ []
unfolding row_of to_le
row_of-empty [] e = refl
row_of-empty (n ∷ ns) e = cc e

flushed_log :
    (id : ℕ) (ns : List ℕ) (log : Log) (found : Option Bytes)
    → AreBefore id log
    → or_empty found ≡ row_of ns
    → (after : Log) × (put_if id found (rows_of log) ≡ rows_of after)
      × (nums_of after ≡ nums_of log ++ ns)
unfolding put_if or_empty
flushed_log id ns log none before e =
    let empty : ns ≡ [] = row_of-empty ns e in
    (log, refl, sym (ap (λ (t : List ℕ). nums_of log ++ t) empty ∙ append-nil (nums_of log)))
flushed_log id ns log (some row) before e = (
  log ++ ((id, ns) ∷ []),
  ap (λ (r : Bytes). put_row id r (rows_of log)) e ∙ put_row-last id ns log before,
  nums_of-append log ((id, ns) ∷ [])
      ∙ unfold nums_of in ap (λ (t : List ℕ). nums_of log ++ t) (append-nil ns),
)

-- While flush numbers have 32 bits `flush` raises nothing and empties the cache; and for a hashX
-- whose stored rows, all of earlier flushes, hold a log and whose unflushed row holds some numbers,
-- `get_txnums` yields from then on the numbers of the log and behind them those, cut at the limit.
pub flush-get_txnums :
    (h : History) (hashX : Bytes) (log : Log) (ns : List ℕ) (limit : Option ℕ)
    → h.flush_count + 1 < 256 ^ 4
    → AreDistinct h.unflushed
    → h.rows hashX ≡ rows_of log
    → AreBefore (h.flush_count + 1) log
    → or_empty (get hashX h.unflushed) ≡ row_of ns
    → All IsSmall (nums_of log)
    → All IsSmall ns
    → (after : History) × (flush h ≡ ok after)
      × (after.unflushed ≡ [])
      × (get_txnums after hashX limit ≡ ok (up_to limit (nums_of log ++ ns)))
unfolding flush get_txnums
flush-get_txnums h hashX log ns limit small d stored before held old new =
    let id : ℕ = h.flush_count + 1 in
    let flushed : History = record {
      unflushed = [];
      flush_count = id;
      rows = put_rows id h.unflushed h.rows;
    } in
    let (after, rows, nums) = flushed_log id ns log (get hashX h.unflushed) before held in
    let there : put_rows id h.unflushed h.rows hashX ≡ rows_of after =
      put_rows-get id hashX h.unflushed h.rows d
      ∙ ap (put_if id (get hashX h.unflushed)) stored
      ∙ rows in
    let all : All IsSmall (nums_of after) =
      subst (All IsSmall) (sym nums) (All-append IsSmall (nums_of log) ns old new) in
    (
      flushed,
      rw (lt→ltb id (256 ^ 4) small) refl,
      refl,
      rw (there, tx_nums_of_rows-rows_of after all) (ap (λ (t : List ℕ). ok (up_to limit t)) nums),
    )
