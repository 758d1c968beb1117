-- ===== src/RateLimiter/Block.antt =====
-- A block of an address outlives every event until it ends, reconnections and evictions included.
use Prim.Native.String.{String}
use text.Mathlib.Text.{◌==◌ as str_eq}
use text.Mathlib.TextEquality.{eq_iff}
use rxin_dexer.Prelude.{
  ℕ, ◌+◌, ◌-◌, ◌≤◌, ◌<◌, ◌≡◌, refl, Bool, true, false, Option, none, some, List, [], ◌∷◌, arith,
  ltb, ◌==◌, not, ◌&&◌, ◌||◌, All, lt→ltb,
}
use rxin_dexer.Prelude.Dict
use rxin_dexer.Prelude.Dict.{lookup-insert, lookup-remove_if}
use rxin_dexer.RateLimiter.{
  IpState, Config, Limiter, Verdict, blocked, decay, check_can_register, check_cost,
  check_can_subscribe, cost_verdict, checked, cost_limit,
}
use rxin_dexer.RateLimiter.Event.{Event, time_of, happen, happen_all}
use rxin_dexer.RateLimiter.Kept.{Holds, IsBlocked, happen-IsBlocked}

-- The event comes in [start, t).
unfoldable pub Within : ℕ → ℕ → Event → Type 0
Within start t e = (start ≤ time_of e) × (time_of e < t)

-- A refusal that names the time left.
pub data IsRefused : Verdict → Type 0 where
  refused : (seconds : ℕ) → 0 < seconds → IsRefused (blocked seconds)

module _ (c : Config) (tr : String → Bool) (ip : String) where
  happen_all-IsBlocked :
      (start t : ℕ) (es : List Event) (l : Limiter)
      → t ≤ start + c.ip_state_ttl
      → All (Within start t) es
      → IsBlocked c t ip l
      → IsBlocked c t ip (happen_all c tr es l)
  unfolding happen_all Within
  happen_all-IsBlocked start t [] l k all b = b
  happen_all-IsBlocked start t (e ∷ es) l k (w, all) b =
      let k' : t ≤ time_of e + c.ip_state_ttl = omega arith in
      happen_all-IsBlocked start t es (happen c tr e l) k all
        (happen-IsBlocked c tr t (time_of e) w.1 k' ip e l refl b)

  -- The state that a tripped check leaves.
  tripped-Holds :
      (now : ℕ) (st : IpState)
      → c.block_duration ≤ c.ip_state_ttl
      → (cost_verdict c tr now st).1 ≡ cost_limit
      → Holds c (now + c.block_duration) (cost_verdict c tr now st).0
  unfolding decay
  tripped-Holds now st short q = ground arith

  tripped :
      (now : ℕ) (l : Limiter) (o : Option IpState)
      → c.block_duration ≤ c.ip_state_ttl
      → (checked c tr ip now l o).1 ≡ cost_limit
      → IsBlocked c (now + c.block_duration) ip (checked c tr ip now l o).0
  tripped now l none short q = cc q
  tripped now l (some st) short q =
      let same : str_eq ip ip ≡ true = (eq_iff ip ip).1 refl in
      record {
        entry = (cost_verdict c tr now st).0;
        found = rw (lookup-insert, same);
        holds = tripped-Holds now st short q;
      }

  check_cost-enabled :
      (now : ℕ) (l : Limiter)
      → (check_cost c tr (some ip) now l).1 ≡ cost_limit
      → (not c.enabled || c.ip_cost_hard_limit == 0) ≡ false
  unfolding check_cost
  check_cost-enabled now l q = ground arith

  check_cost-IsBlocked :
      (now : ℕ) (l : Limiter)
      → c.block_duration ≤ c.ip_state_ttl
      → (check_cost c tr (some ip) now l).1 ≡ cost_limit
      → IsBlocked c (now + c.block_duration) ip (check_cost c tr (some ip) now l).0
  unfolding check_cost
  check_cost-IsBlocked now l short q =
      let on = check_cost-enabled now l q in
      rw on (tripped now l (Dict.lookup ip l.states) short (rw on at q))

  module _ (t now : ℕ) (l : Limiter) (early : now < t) (b : IsBlocked c t ip l) where
    still : ltb now b.entry.blocked_until ≡ true
    still =
        let later = b.holds.until in
        let k : now < b.entry.blocked_until = omega arith in lt→ltb now b.entry.blocked_until k

    time_left : IsRefused (blocked (b.entry.blocked_until - now))
    time_left = let later = b.holds.until in refused (b.entry.blocked_until - now) (omega arith)

    check_cost-IsRefused :
        (not c.enabled || c.ip_cost_hard_limit == 0) ≡ false
        → IsRefused (check_cost c tr (some ip) now l).1
    unfolding check_cost
    check_cost-IsRefused on = rw (on, b.found, still) time_left

    check_can_register-IsRefused :
        (not c.enabled || (c.max_sessions_per_ip == 0 || tr ip)) ≡ false
        → IsRefused (check_can_register c tr (some ip) now l)
    unfolding check_can_register
    check_can_register-IsRefused on = rw (on, b.found, still) time_left

    check_can_subscribe-IsRefused :
        (count : ℕ) (current : Option ℕ)
        → (not c.enabled || c.max_subs_per_ip == 0) ≡ false
        → IsRefused (check_can_subscribe c tr (some ip) count now current l)
    unfolding check_can_subscribe
    check_can_subscribe-IsRefused count current on = rw (on, b.found, still) time_left

-- Let the limiter's cap on sessions and its cap on subscriptions be configured (not 0), the address be
-- not trusted, and a block last no longer than the time to live of an idle state. When a cost check of
-- the enabled limiter trips the limit, then after any events that come before the block ends, every further check of the cost, of
-- a new session and of new subscriptions of that address before the end is refused with the time
-- left: reconnections, releases, charges and evictions do not lift the block.
pub block_lasts :
    (c : Config) (in_trusted : String → Bool) (ip : String) (now time : ℕ) (l : Limiter)
    (es : List Event)
    → c.block_duration ≤ c.ip_state_ttl
    → (check_cost c in_trusted (some ip) now l).1 ≡ cost_limit
    → All (Within now (now + c.block_duration)) es
    → time < now + c.block_duration
    → (c.enabled && not (c.max_sessions_per_ip == 0)) && not (in_trusted ip) ≡ true
    → c.max_subs_per_ip == 0 ≡ false
    → let later = happen_all c in_trusted es (check_cost c in_trusted (some ip) now l).0 in
      IsRefused (check_cost c in_trusted (some ip) time later).1
      × IsRefused (check_can_register c in_trusted (some ip) time later)
      × ((count : ℕ) (current : Option ℕ)
          → IsRefused (check_can_subscribe c in_trusted (some ip) count time current later))
block_lasts c tr ip now time l es short q all early on subs =
    let t = now + c.block_duration in
    let later = happen_all c tr es (check_cost c tr (some ip) now l).0 in
    let k : t ≤ now + c.ip_state_ttl = omega arith in
    let b : IsBlocked c t ip later =
      happen_all-IsBlocked c tr ip now t es (check_cost c tr (some ip) now l).0 k all
        (check_cost-IsBlocked c tr ip now l short q) in
    (
      check_cost-IsRefused c tr ip t time later early b (check_cost-enabled c tr ip now l q),
      check_can_register-IsRefused c tr ip t time later early b (ground arith),
      λ count current.
          check_can_subscribe-IsRefused c tr ip t time later early b count current (ground arith),
    )
