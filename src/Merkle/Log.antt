-- ===== src/Merkle/Log.antt =====
-- The length of a branch, `ceil_log`, is the least exponent of a power of two that holds the hashes.
use native.Mathlib.Nat.{pow-suc}
use rxin_dexer.Prelude.{
  ℕ, zero, suc, ◌+◌, ◌*◌, ◌/◌, ◌^◌, ◌≤◌, ◌<◌, ◌≡◌, arith, leb, Bool-cases, inl, inr, leb→le, leb→lt,
  le→leb,
}
use rxin_dexer.Merkle.{ceil_log_loop, ceil_log}

loop_bound : (fuel n : ℕ) → n ≤ fuel + 1 → n ≤ 2 ^ ceil_log_loop fuel n
unfolding ceil_log_loop
loop_bound zero n h = omega arith
loop_bound (suc fuel) n h = elim (Bool-cases (leb n 1)) [
  | inl e ↦ rw e (leb→le _ _ e)
  | inr e ↦
      let k : ℕ = ceil_log_loop fuel ((n + 1) / 2) in
      let p : 2 ^ suc k ≡ 2 ^ k * 2 = pow-suc 2 k in
      let a : k + 1 ≡ suc k = omega arith in
      let big : 1 < n = leb→lt _ _ e in
      rw (e, a) (omega (arith, p, loop_bound fuel ((n + 1) / 2) (omega arith)))
]

pub ceil_log-bound : (n : ℕ) → n ≤ 2 ^ ceil_log n
unfolding ceil_log
ceil_log-bound n = loop_bound n n (omega arith)

loop_least : (fuel n k : ℕ) → n ≤ 2 ^ k → ceil_log_loop fuel n ≤ k
unfolding ceil_log_loop
loop_least zero n k h = omega arith
loop_least (suc fuel) n zero h = rw (le→leb n 1 h) (omega arith)
loop_least (suc fuel) n (suc k) h = elim (Bool-cases (leb n 1)) [
  | inl e ↦ rw e (omega arith)
  | inr e ↦ rw e (omega (arith, loop_least fuel ((n + 1) / 2) k (omega (arith, pow-suc 2 k))))
]

pub ceil_log-least : (n k : ℕ) → n ≤ 2 ^ k → ceil_log n ≤ k
unfolding ceil_log
ceil_log-least n k h = loop_least n n k h
