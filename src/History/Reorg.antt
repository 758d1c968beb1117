-- ===== src/History/Reorg.antt =====
-- `backup` of electrumx/server/history.py removes the numbers from `tx_count` on, and no others.
use mathlib.Core.List.{reverse, reverse-cons, reverse-reverse}
use mathlib.Core.Path.{subst}
use rxin_dexer.Prelude.{
  ℕ, ◌+◌, ◌≡◌, refl, sym, ap, ◌∙◌, Bool, true, false, none, List, [], ◌∷◌, ◌++◌, ◌||◌, ltb,
  if◌then◌else◌, list_eq, list_eq→eq, take, All, Bool-cases, inl, inr, map, append-nil, ltb→lt,
}
use rxin_dexer.Prelude.Result.{Result, ok}
use rxin_dexer.Util.{Bytes}
use rxin_dexer.Store.Keys.{has}
use rxin_dexer.History.{
  History, Rows, up_to, get_txnums, bisect_left, backup_rows, as_array, frombytes, put_at,
  backup_all, backup,
}
use rxin_dexer.History.Numbers.{
  Log, row_of, rows_of, nums_of, IsSmall, tx_nums-row_of, tx_nums_of_rows-rows_of, nums_of-append,
  take-row_of, below, below-append, Sorted, All-below, below-Sorted, take-bisect_left, below_idem,
  Sorted-split, All-split, below_whole, below_empty,
}

pub map-append :
    {A : Type 0} {B : Type 0} (f : A → B) (xs ys : List A) → map f (xs ++ ys) ≡ map f xs ++ map f ys
map-append f [] ys = refl
map-append f (x ∷ xs) ys = ap (λ (t : List _). f x ∷ t) (map-append f xs ys)

reverse-rows_of : (log : Log) → reverse (rows_of log) ≡ rows_of (reverse log)
unfolding rows_of
reverse-rows_of [] = refl
reverse-rows_of ((id, ns) ∷ log) =
    reverse-cons (id, row_of ns) (rows_of log)
    ∙ ap (λ (t : Rows). t ++ ((id, row_of ns) ∷ [])) (reverse-rows_of log)
    ∙ sym (
        map-append (λ (entry : ℕ × List ℕ). (entry.0, row_of entry.1)) (reverse log)
          ((id, ns) ∷ []))
    ∙ ap (λ (t : Log). rows_of t) (sym (reverse-cons (id, ns) log))

-- The numbers of a log that is given latest first.
nums_back :
    (log : Log) (id : ℕ) (ns : List ℕ)
    → nums_of (reverse ((id, ns) ∷ log)) ≡ nums_of (reverse log) ++ ns
unfolding nums_of
nums_back log id ns =
    ap nums_of (reverse-cons (id, ns) log)
    ∙ nums_of-append (reverse log) ((id, ns) ∷ [])
    ∙ ap (λ (t : List ℕ). nums_of (reverse log) ++ t) (append-nil ns)

abbrev InOrder : Log → Type 0
InOrder log = Sorted (nums_of (reverse log)) × All IsSmall (nums_of (reverse log))

abbrev Trims : ℕ → Log → Result Rows → Type 0
Trims x log r =
    (kept : Log) × (r ≡ ok (rows_of kept))
    × (nums_of (reverse kept) ≡ below x (nums_of (reverse log)))

trim_here :
    (x id : ℕ) (ns : List ℕ) (log : Log)
    → InOrder ((id, ns) ∷ log)
    → ltb 0 (bisect_left ns x) ≡ true
    → nums_of (reverse ((id, take (bisect_left ns x) ns) ∷ log))
      ≡ below x (nums_of (reverse ((id, ns) ∷ log)))
trim_here x id ns log (s, small) some_below =
    let old : List ℕ = nums_of (reverse log) in
    let (sa, sb, cross) = Sorted-split old ns (subst Sorted (nums_back log id ns) s) in
    nums_back log id (take (bisect_left ns x) ns)
    ∙ ap (λ (t : List ℕ). old ++ t) (take-bisect_left x ns sb)
    ∙ ap (λ (t : List ℕ). t ++ below x ns)
        (sym (below_whole x old ns (ltb→lt 0 _ some_below) cross))
    ∙ sym (below-append x old ns)
    ∙ ap (below x) (sym (nums_back log id ns))

frombytes-row_of : (ns : List ℕ) → All IsSmall ns → frombytes (row_of ns) ≡ ok ns
unfolding frombytes
frombytes-row_of ns small = ap as_array (tx_nums-row_of ns small)

backup_rows-Trims : (x : ℕ) (log : Log) → InOrder log → Trims x log (backup_rows x (rows_of log))
unfolding backup_rows rows_of
backup_rows-Trims x [] order = ([], refl, unfold nums_of below in refl)
backup_rows-Trims x ((id, ns) ∷ log) (s, small) =
    let old : List ℕ = nums_of (reverse log) in
    let (sa, sb, _) = Sorted-split old ns (subst Sorted (nums_back log id ns) s) in
    let (ma, mb) = All-split IsSmall old ns (subst (All IsSmall) (nums_back log id ns) small) in
    elim (Bool-cases (ltb 0 (bisect_left ns x))) [
      | inl e ↦ (
        (id, take (bisect_left ns x) ns) ∷ log,
        rw (frombytes-row_of ns mb, e, take-row_of (bisect_left ns x) ns) refl,
        trim_here x id ns log (s, small) e,
      )
      | inr e ↦
          let (kept, ran, same) = backup_rows-Trims x log (sa, ma) in
          (
            kept,
            rw (frombytes-row_of ns mb, e) ran,
            same
                ∙ sym (append-nil (below x old))
                ∙ ap (λ (t : List ℕ). below x old ++ t) (sym (below_empty x ns sb e))
                ∙ sym (below-append x old ns)
                ∙ ap (below x) (sym (nums_back log id ns)),
          )
    ]

-- A log whose numbers are in order and have five bytes.
abbrev pub IsLog : Log → Type 0
IsLog log = Sorted (nums_of log) × All IsSmall (nums_of log)

-- The rows of every hashX hold its log.
abbrev pub Stores : (Bytes → Rows) → (Bytes → Log) → Type 0
Stores rows logs = (hashX : Bytes) → (rows hashX ≡ rows_of (logs hashX)) × IsLog (logs hashX)

trim_log :
    (x : ℕ) (log : Log)
    → IsLog log
    → (kept : Log) × (backup_rows x (reverse (rows_of log)) ≡ ok (rows_of kept))
      × (nums_of (reverse kept) ≡ below x (nums_of log))
      × IsLog (reverse kept)
trim_log x log (s, small) =
    let back : reverse (reverse log) ≡ log = reverse-reverse log in
    let order : InOrder (reverse log) = (
      subst (λ (t : Log). Sorted (nums_of t)) (sym back) s,
      subst (λ (t : Log). All IsSmall (nums_of t)) (sym back) small,
    ) in
    let (kept, ran, same) = backup_rows-Trims x (reverse log) order in
    let nums : nums_of (reverse kept) ≡ below x (nums_of log) =
      same ∙ ap (λ (t : Log). below x (nums_of t)) back in
    (
      kept,
      ap (backup_rows x) (reverse-rows_of log) ∙ ran,
      nums,
      (
        subst Sorted (sym nums) (below-Sorted x (nums_of log) s),
        subst (All IsSmall) (sym nums) (All-below IsSmall x (nums_of log) small),
      ),
    )

unfoldable trimmed : Bytes → Log → (Bytes → Log) → Bytes → Log
trimmed hashX kept logs other = if list_eq other hashX then kept else logs other

trimmed-Stores :
    (hashX : Bytes) (kept : Log) (rows : Bytes → Rows) (logs : Bytes → Log)
    → Stores rows logs
    → IsLog kept
    → Stores (put_at hashX (λ old. rows_of kept) rows) (trimmed hashX kept logs)
unfolding put_at trimmed
trimmed-Stores hashX kept rows logs stores ok_log other = elim (Bool-cases (list_eq other hashX)) [
  | inl same ↦ rw same (refl, ok_log)
  | inr apart ↦ rw apart (stores other)
]

of_one :
    (x : ℕ) (first hashX : Bytes) (later : Bool) (kept : Log) (logs : Bytes → Log)
    → nums_of (reverse kept) ≡ below x (nums_of (logs first))
    → (if later
        then below x (nums_of (trimmed first (reverse kept) logs hashX))
        else nums_of (trimmed first (reverse kept) logs hashX))
      ≡ (if list_eq hashX first || later
          then below x (nums_of (logs hashX))
          else nums_of (logs hashX))
unfolding trimmed
of_one x first hashX later kept logs nums = elim (Bool-cases (list_eq hashX first)) [
  | inr apart ↦ rw apart refl
  | inl same ↦
      let here : nums_of (reverse kept) ≡ below x (nums_of (logs hashX)) =
        nums ∙ ap (λ (k : Bytes). below x (nums_of (logs k))) (sym (list_eq→eq hashX first same)) in
      rw same (either later here)
]
  where
    either :
        (later : Bool)
        → nums_of (reverse kept) ≡ below x (nums_of (logs hashX))
        → (if later then below x (nums_of (reverse kept)) else nums_of (reverse kept))
          ≡ below x (nums_of (logs hashX))
    either true here = ap (below x) here ∙ below_idem x (nums_of (logs hashX))
    either false here = here

abbrev Backs : ℕ → List Bytes → (Bytes → Log) → Result (Bytes → Rows) → Type 0
Backs x hashXs logs r =
    (rows : Bytes → Rows) × (after : Bytes → Log) × (r ≡ ok rows)
    × Stores rows after
    × ((hashX : Bytes)
        → nums_of (after hashX)
          ≡ (if has hashX hashXs then below x (nums_of (logs hashX)) else nums_of (logs hashX)))

backup_all-Backs :
    (x : ℕ) (hashXs : List Bytes) (rows : Bytes → Rows) (logs : Bytes → Log)
    → Stores rows logs
    → Backs x hashXs logs (backup_all x hashXs rows)
unfolding backup_all has
backup_all-Backs x [] rows logs stores = (rows, logs, refl, stores, λ hashX. refl)
backup_all-Backs x (first ∷ hashXs) rows logs stores =
    let (there, order) = stores first in
    let (kept, ran, nums, ok_log) = trim_log x (logs first) order in
    let one = trimmed first (reverse kept) logs in
    let stores' : Stores (put_at first (λ old. reverse (rows_of kept)) rows) one =
      subst (λ (r : Rows). Stores (put_at first (λ old. r) rows) one) (sym (reverse-rows_of kept))
        (trimmed-Stores first (reverse kept) rows logs stores ok_log) in
    let (left, after, ran', held, same) =
      backup_all-Backs x hashXs (put_at first (λ old. reverse (rows_of kept)) rows) one stores' in
    (
      left,
      after,
      rw (there, ran) ran',
      held,
      λ hashX. same hashX ∙ of_one x first hashX (has hashX hashXs) kept logs nums,
    )

-- On a history whose rows hold, for every hashX, numbers in order, `backup` raises nothing: of the
-- hashXs that it is given it removes exactly the numbers from `tx_count` on, of all others none, and
-- what it leaves is such a history again.
pub backup-get_txnums :
    (h : History) (logs : Bytes → Log) (hashXs : List Bytes) (tx_count : ℕ)
    → Stores h.rows logs
    → (after : History) × (left : Bytes → Log) × (backup hashXs tx_count h ≡ ok after)
      × Stores after.rows left
      × ((hashX : Bytes)
          → get_txnums after hashX none
            ≡ ok (
                if has hashX hashXs
                then below tx_count (nums_of (logs hashX))
                else nums_of (logs hashX)))
unfolding backup get_txnums up_to
backup-get_txnums h logs hashXs tx_count stores =
    let (rows, left, ran, held, same) = backup_all-Backs tx_count hashXs h.rows logs stores in
    (
      record h { flush_count = h.flush_count + 1; rows = rows },
      left,
      rw ran refl,
      held,
      λ hashX.
          let (there, order) = held hashX in
          rw (there, tx_nums_of_rows-rows_of (left hashX) order.1) (ap ok (same hashX)),
    )
