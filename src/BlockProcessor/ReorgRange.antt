-- ===== src/BlockProcessor/ReorgRange.antt =====
-- `_calc_reorg_range` of electrumx/server/block_processor.py: which blocks a reorganisation replaces.
-- What `fs_block_hashes` and the daemon return for a height and a count are parameters; that the
-- code compares them as hex strings does not matter.
use rxin_dexer.Prelude.{
  ℕ, zero, suc, ◌+◌, ◌-◌, ◌*◌, ◌<◌, ◌≤◌, ◌≡◌, ap, ◌∙◌, true, false, ℤ, pos, negsuc, List, [], ◌∷◌,
  arith, ltb, lt→ltb, leb, if◌then◌else◌, list_eq, ltb→lt, ltb→le, list_eq_refl, length, min,
  Bool-cases, inl, inr,
}
use rxin_dexer.Prelude.Result.{Result, ok, err, out_of_fuel, ◌>>=◌}
use rxin_dexer.Util.{Bytes}

unfoldable pub diff_pos : List Bytes → List Bytes → ℕ
diff_pos [] hashes2 = 0
diff_pos (hash1 ∷ hashes1) [] = length (hash1 ∷ hashes1)
diff_pos (hash1 ∷ hashes1) (hash2 ∷ hashes2) =
    let same = diff_pos hashes1 hashes2 in if list_eq hash1 hash2 then suc same else 0

-- The hashes from a height on.
abbrev pub Hashes : Type 0
Hashes = ℕ → ℕ → List Bytes

module _ (fs_block_hashes block_hex_hashes : Hashes) where
  -- The `while start > 0` loop, and the start that it leaves.
  unfoldable pub range_loop : ℕ → ℕ → ℕ → Result ℕ
  range_loop zero start count = if ltb 0 start then err out_of_fuel else ok start
  range_loop (suc fuel) start count =
      let n = diff_pos (fs_block_hashes start count) (block_hex_hashes start count) in
      let doubled = min (count * 2) start in
      let further = range_loop fuel (start - doubled) doubled in
      if ltb 0 start then (if ltb 0 n then ok (start + n) else further) else ok start

  -- The start and the number of the blocks. A height of 0 gives the start -1.
  unfoldable pub calc_reorg_range : ℕ → ℤ → Result (ℤ × ℤ)
  calc_reorg_range zero (negsuc count) = ok (negsuc 0, pos 2)
  calc_reorg_range (suc below) (negsuc count) = do
    start ← range_loop below below 1
    ok (pos start, pos (suc below + 1 - start))
  calc_reorg_range height (pos count) =
      if leb count (height + 1)
      then ok (pos (height + 1 - count), pos count)
      else ok (negsuc (count - height - 2), pos count)

-- The hashes of a chain.
unfoldable pub hashes_from : (ℕ → Bytes) → Hashes
hashes_from chain start zero = []
hashes_from chain start (suc count) = chain start ∷ hashes_from chain (suc start) count

-- Two chains fork at a height: they have the same blocks below it and no same block from it on.
abbrev pub ForkAt : ℕ → (ℕ → Bytes) → (ℕ → Bytes) → Type 0
ForkAt fork ours theirs =
    ((height : ℕ) → height < fork → ours height ≡ theirs height)
    × ((height : ℕ) → fork ≤ height → list_eq (ours height) (theirs height) ≡ false)

diff_pos-ForkAt :
    (fork start count : ℕ) (ours theirs : ℕ → Bytes)
    → ForkAt fork ours theirs
    → fork ≤ start + count
    → diff_pos (hashes_from ours start count) (hashes_from theirs start count) ≡ fork - start
unfolding diff_pos hashes_from
diff_pos-ForkAt fork start zero ours theirs at fits = omega arith
diff_pos-ForkAt fork start (suc count) ours theirs (same, differ) fits =
    elim (Bool-cases (ltb start fork)) [
      | inl below ↦
          let lt : start < fork = ltb→lt start fork below in
          let equal : list_eq (ours start) (theirs start) ≡ true =
            ap (λ (h : Bytes). list_eq h (theirs start)) (same start lt)
            ∙ list_eq_refl (theirs start) in
          let rest =
            diff_pos-ForkAt fork (suc start) count ours theirs (same, differ) (omega arith) in
          rw (equal, rest) (omega arith)
      | inr above ↦
          let le : fork ≤ start = ltb→le start fork above in rw (differ start le) (omega arith)
    ]

module _ (ours theirs : ℕ → Bytes) (fork height : ℕ) (at : ForkAt fork ours theirs)
    (high : height + 1 < 2 * fork) where
  range_loop-ForkAt :
      (fuel start count : ℕ)
      → start ≤ fuel
      → 0 < start
      → 0 < count
      → start + 2 * count ≡ height + 1
      → fork ≤ start + count
      → range_loop (hashes_from ours) (hashes_from theirs) fuel start count ≡ ok fork
  unfolding range_loop
  range_loop-ForkAt zero start count enough more some_count width fits = absurd (omega arith)
  range_loop-ForkAt (suc fuel) start count enough more some_count width fits =
      let n = diff_pos-ForkAt fork start count ours theirs at fits in
      elim (Bool-cases (ltb start fork)) [
        | inl below ↦
            let lt : start < fork = ltb→lt start fork below in
            let there : start + (fork - start) ≡ fork = omega arith in
            rw (lt→ltb 0 start more, n, lt→ltb 0 (fork - start) (omega arith), there)
        | inr above ↦
            let le : fork ≤ start = ltb→le start fork above in
            let doubled : min (count * 2) start ≡ count * 2 = omega arith in
            let none_left : fork - start ≡ 0 = omega arith in
            rw (lt→ltb 0 start more, n, none_left, doubled)
              (range_loop-ForkAt fuel (start - count * 2) (count * 2) (omega arith) (omega arith)
                (omega arith) (omega arith) (omega arith))
      ]

-- When the daemon's chain forks from ours at a height above the middle of ours, the search ends, and
-- the range is exactly the blocks from the fork to the tip.
pub calc_reorg_range-ForkAt :
    (ours theirs : ℕ → Bytes) (fork height count : ℕ)
    → ForkAt fork ours theirs
    → fork ≤ height
    → height + 1 < 2 * fork
    → calc_reorg_range (hashes_from ours) (hashes_from theirs) height (negsuc count)
      ≡ ok (pos fork, pos (height + 1 - fork))
unfolding calc_reorg_range
calc_reorg_range-ForkAt ours theirs fork zero count at below high = absurd (omega arith)
calc_reorg_range-ForkAt ours theirs fork (suc height) count at below high =
    let found =
      range_loop-ForkAt ours theirs fork (suc height) at high height height 1 (omega arith)
        (omega arith) (omega arith) (omega arith) (omega arith) in
    rw found
