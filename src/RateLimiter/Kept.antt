-- ===== src/RateLimiter/Kept.antt =====
-- Every call of IPRateLimiter keeps the block of an address while the block lasts.
use Prim.Native.String.{String}
use text.Mathlib.Text.{◌==◌ as str_eq}
use text.Mathlib.TextEquality.{eq_iff}
use rxin_dexer.Prelude.{
  ℕ, ◌+◌, ◌-◌, ◌≤◌, ◌<◌, ◌≡◌, refl, Bool, true, false, Option, none, some, ℤ, arith, if◌then◌else◌,
  Bool-cases, inl, inr, ltb, ◌==◌, not, ◌&&◌, ◌||◌,
}
use rxin_dexer.Prelude.Dict
use rxin_dexer.Prelude.Dict.{lookup-insert, lookup-remove_if}
use rxin_dexer.RateLimiter.{
  IpState, Config, Limiter, Verdict, decay, touch, state, put, is_stale, evict_stale, maybe_evict,
  register_session, release_session, add_cost, check_cost, note_subscribed, note_unsubscribed,
  registered, released, cost_verdict, update_found, update_entry, checked, add_delta, is_zero,
}
use rxin_dexer.RateLimiter.Event.{
  Event, register, release, charge, check, subscribed, unsubscribed, time_of, happen,
}

-- A state is blocked until `t` at least, and was seen late enough not to be evicted before `t`.
pub record Holds (c : Config) (t : ℕ) (st : IpState) : Type 0 where
  pub until : t ≤ st.blocked_until
  pub seen : t ≤ st.last_seen + c.ip_state_ttl

-- The address has a state that is blocked until `t`.
pub record IsBlocked (c : Config) (t : ℕ) (ip : String) (l : Limiter) : Type 0 where
  pub entry : IpState
  pub found : Dict.lookup ip l.states ≡ some entry
  pub holds : Holds c t entry

pub if-keeps :
    {A : Type 0} (P : A → Type 0) (test : Bool) (a b : A) → P a → P b → P (if test then a else b)
if-keeps P true a b x y = x
if-keeps P false a b x y = y

module _ (c : Config) (t : ℕ) where
  pub put-IsBlocked :
      (ip ip' : String) (st : IpState) (l : Limiter)
      → IsBlocked c t ip l
      → (ip' ≡ ip → Holds c t st)
      → IsBlocked c t ip (put ip' st l)
  put-IsBlocked ip ip' st l b h = elim (Bool-cases (str_eq ip' ip)) [
    | inl e ↦ record { entry = st; found = rw (lookup-insert, e); holds = h ((eq_iff ip' ip).0 e) }
    | inr e ↦ record { entry = b.entry; found = rw (lookup-insert, e) b.found; holds = b.holds }
  ]

  pub state-Holds :
      (ip ip' : String) (now : ℕ) (l : Limiter)
      → IsBlocked c t ip l
      → ip' ≡ ip
      → Holds c t (state ip' now l)
  unfolding state
  state-Holds ip ip' now l b e =
      let found : Dict.lookup ip' l.states ≡ some b.entry = rw e b.found in rw found b.holds

  -- Before the end of the block the state has not been idle for long enough.
  pub not_stale :
      (tr : String → Bool) (now : ℕ) (st : IpState)
      → Holds c t st
      → now < t
      → is_stale c tr now st ≡ false
  unfolding is_stale
  not_stale tr now st h early = ground arith

  -- What is found under the same address is the blocked entry.
  pub entry_same :
      (ip ip' : String) (st : IpState) (l : Limiter) (b : IsBlocked c t ip l)
      → Dict.lookup ip' l.states ≡ some st
      → ip' ≡ ip
      → st ≡ b.entry
  entry_same ip ip' st l b e q =
      let e' : Dict.lookup ip l.states ≡ some st = rw q at e in cc (e', b.found)

  pub maybe_evict-IsBlocked :
      (tr : String → Bool) (ip : String) (now : ℕ) (l : Limiter)
      → now < t
      → IsBlocked c t ip l
      → IsBlocked c t ip (maybe_evict c tr now l)
  unfolding maybe_evict evict_stale
  maybe_evict-IsBlocked tr ip now l early b = elim (Bool-cases (ltb (l.ops_since_evict + 1) 256)) [
    | inl e ↦ rw e (record { entry = b.entry; found = b.found; holds = b.holds })
    | inr e ↦ elim (Bool-cases (c.ip_state_ttl == 0)) [
      | inl z ↦ rw (e, z) (record { entry = b.entry; found = b.found; holds = b.holds })
      | inr z ↦
          let k : Holds c t b.entry = b.holds in
          let fresh : is_stale c tr now b.entry ≡ false = not_stale tr now b.entry k early in
          rw (e, z)
            (record {
              entry = b.entry;
              found = lookup-remove_if (is_stale c tr now) ip b.entry l.states b.found fresh;
              holds = b.holds;
            })
    ]
  ]

module _ (c : Config) (tr : String → Bool) (t now : ℕ) (h : now < t)
    (k : t ≤ now + c.ip_state_ttl) where
  registered-Holds :
      (session_id : ℕ) (st : IpState) → Holds c t st → Holds c t (registered c tr session_id now st)
  unfolding decay
  registered-Holds session_id st b = ground arith

  released-Holds :
      (session_id session_cost sub_count : ℕ) (st : IpState)
      → Holds c t st
      → Holds c t (released c tr session_id session_cost sub_count now st)
  unfolding decay
  released-Holds session_id session_cost sub_count st b = ground arith

  charged-Holds :
      (delta : ℤ) (st : IpState)
      → Holds c t st
      → Holds c t (
          touch now (record (decay now c.cost_decay_per_sec st) {
            cost = add_delta (decay now c.cost_decay_per_sec st).cost delta;
          }))
  unfolding decay
  charged-Holds delta st b = ground arith

  -- While blocked, the check of the cost leaves the state as it is.
  checked-Holds : (st : IpState) → Holds c t st → Holds c t (cost_verdict c tr now st).0
  checked-Holds st b = ground arith

  module _ (ip ip' : String) (l : Limiter) (b : IsBlocked c t ip l) where
    update-IsBlocked :
        (f : IpState → IpState)
        → ((st : IpState) → Holds c t st → Holds c t (f st))
        → IsBlocked c t ip (update_found ip' f l)
    update-IsBlocked f keep = go (Dict.lookup ip' l.states) refl
      where
        go :
            (o : Option IpState)
            → Dict.lookup ip' l.states ≡ o
            → IsBlocked c t ip (update_entry ip' f l o)
        go none e = b
        go (some st) e =
            put-IsBlocked c t ip ip' (f st) l b
              (λ q. keep st (rw (entry_same c t ip ip' st l b e q) b.holds))

    checked-IsBlocked : IsBlocked c t ip (checked c tr ip' now l (Dict.lookup ip' l.states)).0
    checked-IsBlocked = go (Dict.lookup ip' l.states) refl
      where
        go :
            (o : Option IpState)
            → Dict.lookup ip' l.states ≡ o
            → IsBlocked c t ip (checked c tr ip' now l o).0
        go none e = b
        go (some st) e =
            put-IsBlocked c t ip ip' (cost_verdict c tr now st).0 l b
              (λ q. checked-Holds st (rw (entry_same c t ip ip' st l b e q) b.holds))

    unsubscribed-IsBlocked :
        (count : ℕ)
        → IsBlocked c t ip
            (update_found ip' (λ st. record st { sub_count = st.sub_count - count }) l)
    unsubscribed-IsBlocked count =
        update-IsBlocked (λ st. record st { sub_count = st.sub_count - count })
          (λ st q. record { until = q.until; seen = q.seen })

    charge-IsBlocked : (delta : ℤ) → IsBlocked c t ip (add_cost c tr (some ip') delta now l)
    unfolding add_cost
    charge-IsBlocked delta =
        if-keeps (IsBlocked c t ip) (c.enabled && not (is_zero c tr delta)) _ _
          (put-IsBlocked c t ip ip' _ l b
            (λ q. charged-Holds delta (state ip' now l) (state-Holds c t ip ip' now l b q)))
          b

    subscribed-IsBlocked :
        (count : ℤ) → IsBlocked c t ip (note_subscribed c tr (some ip') count now l)
    unfolding note_subscribed
    subscribed-IsBlocked count =
        if-keeps (IsBlocked c t ip) (c.enabled && not (is_zero c tr count)) _ _
          (put-IsBlocked c t ip ip' _ l b
            (λ q. record { until = (state-Holds c t ip ip' now l b q).until; seen = k }))
          b

    register-IsBlocked :
        (session_id : Option ℕ)
        → IsBlocked c t ip (register_session c tr (some ip') session_id now l).0
    unfolding register_session
    register-IsBlocked none = b
    register-IsBlocked (some session_id) =
        if-keeps (λ (r : Limiter × ℕ). IsBlocked c t ip r.0) c.enabled _ _
          (maybe_evict-IsBlocked c t tr ip now _ h (
            put-IsBlocked c t ip ip' _ l b (λ q.
              registered-Holds session_id (state ip' now l) (state-Holds c t ip ip' now l b q))))
          b

  pub happen-IsBlocked :
      (ip : String) (e : Event) (l : Limiter)
      → time_of e ≡ now
      → IsBlocked c t ip l
      → IsBlocked c t ip (happen c tr e l)
  unfolding time_of happen register_session release_session add_cost check_cost note_subscribed
      note_unsubscribed
  happen-IsBlocked ip (register none session_id time) l q b = b
  happen-IsBlocked ip (register (some ip') session_id time) l q b =
      rw q (register-IsBlocked ip ip' l b session_id)
  happen-IsBlocked ip (release none session_id session_cost sub_count time) l q b = b
  happen-IsBlocked ip (release (some ip') session_id session_cost sub_count time) l q b = rw q (
      if-keeps (IsBlocked c t ip) c.enabled _ _
        (update-IsBlocked ip ip' l b (released c tr session_id session_cost sub_count now)
          (released-Holds session_id session_cost sub_count))
        b)
  happen-IsBlocked ip (charge none delta time) l q b = b
  happen-IsBlocked ip (charge (some ip') delta time) l q b =
      rw q (charge-IsBlocked ip ip' l b delta)
  happen-IsBlocked ip (check none time) l q b = b
  happen-IsBlocked ip (check (some ip') time) l q b = rw q (
      if-keeps (λ (r : Limiter × Verdict). IsBlocked c t ip r.0)
        (not c.enabled || c.ip_cost_hard_limit == 0) _ _ b (checked-IsBlocked ip ip' l b))
  happen-IsBlocked ip (subscribed none count time) l q b = b
  happen-IsBlocked ip (subscribed (some ip') count time) l q b =
      rw q (subscribed-IsBlocked ip ip' l b count)
  happen-IsBlocked ip (unsubscribed none count time) l q b = b
  happen-IsBlocked ip (unsubscribed (some ip') count time) l q b =
      if-keeps (IsBlocked c t ip) (c.enabled && not (count == 0)) _ _
        (unsubscribed-IsBlocked ip ip' l b count) b
