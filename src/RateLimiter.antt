-- ===== src/RateLimiter.antt =====
-- electrumx/server/rate_limiter.py: the per-IP state and the checks of IPRateLimiter. Times and
-- costs, which are floats in the source, are natural numbers: counts of one small unit. `now` is the
-- time that a call is given. `in_trusted` stands for `peer_in_networks` on the allowlist, which rests
-- on Python's parser of addresses. A limit that is 0 or less in the source is 0 here.
pub mod Event
pub mod Kept
pub mod Block
use Prim.Native.String.{String}
use rxin_dexer.Prelude.{
  ℕ, ◌+◌, ◌-◌, ◌*◌, Bool, true, false, not, ◌&&◌, ◌||◌, Option, none, some, List, [], ◌∷◌, ltb, leb,
  ◌==◌, if◌then◌else◌, length, min, ℤ, pos, negsuc,
}
use rxin_dexer.Prelude.Dict
use rxin_dexer.Prelude.Dict.{Dict}

pub record IpState : Type 0 where
  pub cost : ℕ
  pub violations : ℕ
  pub blocked_until : ℕ
  pub sessions : List ℕ
  pub sub_count : ℕ
  pub last_seen : ℕ
  pub cost_time : ℕ

abbrev pub new_state : ℕ → IpState
new_state now = record {
  cost = 0;
  violations = 0;
  blocked_until = 0;
  sessions = [];
  sub_count = 0;
  last_seen = now;
  cost_time = now;
}

pub record Config : Type 0 where
  pub enabled : Bool
  pub max_subs_per_ip : ℕ
  pub max_sessions_per_ip : ℕ
  pub ip_cost_hard_limit : ℕ
  pub block_duration : ℕ
  pub ip_state_ttl : ℕ
  pub cost_decay_per_sec : ℕ

pub record Limiter : Type 0 where
  pub states : Dict IpState
  pub ops_since_evict : ℕ

-- The answer of a check: allowed, or the reason why not.
pub data Verdict : Type 0 where
  allowed : Verdict
  blocked : ℕ → Verdict
  connection_limit cost_limit subscription_limit : Verdict

unfoldable pub decay : ℕ → ℕ → IpState → IpState
decay now rate st =
    if ltb st.cost_time now && ltb 0 rate
    then record st { cost = st.cost - (now - st.cost_time) * rate; cost_time = now }
    else record st { cost_time = now }

abbrev pub touch : ℕ → IpState → IpState
touch now st = record st { last_seen = now }

-- `max(0, n + delta)`
unfoldable pub add_delta : ℕ → ℤ → ℕ
add_delta n (pos d) = n + d
add_delta n (negsuc d) = n - (d + 1)

-- A set of session ids, as a list.
unfoldable pub contains : ℕ → List ℕ → Bool
contains x [] = false
contains x (y ∷ ys) = x == y || contains x ys

unfoldable pub add_session : ℕ → List ℕ → List ℕ
add_session x xs = if contains x xs then xs else x ∷ xs

unfoldable pub discard : ℕ → List ℕ → List ℕ
discard x [] = []
discard x (y ∷ ys) = let rest = discard x ys in if x == y then rest else y ∷ rest

abbrev pub is_empty : List ℕ → Bool
is_empty [] = true
is_empty (x ∷ xs) = false

abbrev pub state_or : ℕ → Option IpState → IpState
state_or now none = new_state now
state_or now (some st) = st

-- `self._state(ip, now)`: the state found, or a new one, which is then stored.
unfoldable pub state : String → ℕ → Limiter → IpState
state ip now l = state_or now (Dict.lookup ip l.states)

-- The mutation of the object that the dictionary holds.
abbrev pub put : String → IpState → Limiter → Limiter
put ip st l = record l { states = Dict.insert ip st l.states }

abbrev pub update_entry : String → (IpState → IpState) → Limiter → Option IpState → Limiter
update_entry ip f l none = l
update_entry ip f l (some st) = put ip (f st) l

-- `st = self._states.get(ip)`, and `return` where there is none.
abbrev pub update_found : String → (IpState → IpState) → Limiter → Limiter
update_found ip f l = update_entry ip f l (Dict.lookup ip l.states)

module _ (c : Config) (in_trusted : String → Bool) where
  -- No live session, and idle for longer than the time to live.
  unfoldable pub is_stale : ℕ → IpState → Bool
  is_stale now st = is_empty st.sessions && ltb c.ip_state_ttl (now - st.last_seen)

  unfoldable pub evict_stale : ℕ → Limiter → Limiter
  evict_stale now l =
      if c.ip_state_ttl == 0
      then l
      else record l { states = Dict.remove_if (is_stale now) l.states }

  unfoldable pub maybe_evict : ℕ → Limiter → Limiter
  maybe_evict now l =
      if ltb (l.ops_since_evict + 1) 256
      then record l { ops_since_evict = l.ops_since_evict + 1 }
      else evict_stale now (record l { ops_since_evict = 0 })

  -- The state that a new session leaves, and the cost that it starts with.
  abbrev pub registered : ℕ → ℕ → IpState → IpState
  registered session_id now st =
      let st' = decay now c.cost_decay_per_sec st in
      touch now (record st' { sessions = add_session session_id st'.sessions })

  unfoldable pub register_session : Option String → Option ℕ → ℕ → Limiter → Limiter × ℕ
  register_session none session_id now l = (l, 0)
  register_session (some ip) none now l = (l, 0)
  register_session (some ip) (some session_id) now l =
      if c.enabled
      then (let st = registered session_id now (state ip now l) in
          (maybe_evict now (put ip st l), st.cost))
      else (l, 0)

  -- What is left of a state when a session with its cost and subscriptions is gone.
  abbrev pub released : ℕ → ℕ → ℕ → ℕ → IpState → IpState
  released session_id session_cost sub_count now st =
      let st' =
        decay now c.cost_decay_per_sec (record st { sessions = discard session_id st.sessions }) in
      touch now (record st' {
        cost =
            if ltb 0 session_cost
            then (if ltb 0 c.ip_cost_hard_limit
                then min (st'.cost + session_cost) c.ip_cost_hard_limit
                else st'.cost + session_cost)
            else st'.cost;
        sub_count = st'.sub_count - sub_count;
      })

  unfoldable pub release_session : Option String → ℕ → ℕ → ℕ → ℕ → Limiter → Limiter
  release_session none session_id session_cost sub_count now l = l
  release_session (some ip) session_id session_cost sub_count now l =
      if c.enabled then update_found ip (released session_id session_cost sub_count now) l else l

  abbrev pub is_zero : ℤ → Bool
  is_zero (pos n) = n == 0
  is_zero (negsuc n) = false

  unfoldable pub add_cost : Option String → ℤ → ℕ → Limiter → Limiter
  add_cost none delta now l = l
  add_cost (some ip) delta now l =
      if c.enabled && not (is_zero delta)
      then (let st = decay now c.cost_decay_per_sec (state ip now l) in
          put ip (touch now (record st { cost = add_delta st.cost delta })) l)
      else l

  abbrev session_count : Option IpState → ℕ
  session_count none = 0
  session_count (some st) = length st.sessions

  unfoldable pub connection_count : Option String → Limiter → ℕ
  connection_count none l = 0
  connection_count (some ip) l = session_count (Dict.lookup ip l.states)

  abbrev register_verdict : ℕ → Option IpState → Verdict
  register_verdict now none = allowed
  register_verdict now (some st) =
      if ltb now st.blocked_until
      then blocked (st.blocked_until - now)
      else if leb c.max_sessions_per_ip (length st.sessions)
      then connection_limit
      else allowed

  unfoldable pub check_can_register : Option String → ℕ → Limiter → Verdict
  check_can_register none now l = allowed
  check_can_register (some ip) now l =
      if not c.enabled || (c.max_sessions_per_ip == 0 || in_trusted ip)
      then allowed
      else register_verdict now (Dict.lookup ip l.states)

  -- The check of one state: the verdict, and the state if the code writes to it.
  abbrev pub cost_verdict : ℕ → IpState → IpState × Verdict
  cost_verdict now st =
      if ltb now st.blocked_until
      then (st, blocked (st.blocked_until - now))
      else (let st' = decay now c.cost_decay_per_sec st in
          if leb c.ip_cost_hard_limit st'.cost
          then (
            touch now (record st' {
              violations = st'.violations + 1;
              blocked_until = now + c.block_duration;
              cost = 0;
            }),
            cost_limit,
          )
          else (st', allowed))

  abbrev pub checked : String → ℕ → Limiter → Option IpState → Limiter × Verdict
  checked ip now l none = (l, allowed)
  checked ip now l (some st) = (put ip (cost_verdict now st).0 l, (cost_verdict now st).1)

  unfoldable pub check_cost : Option String → ℕ → Limiter → Limiter × Verdict
  check_cost none now l = (l, allowed)
  check_cost (some ip) now l =
      if not c.enabled || c.ip_cost_hard_limit == 0
      then (l, allowed)
      else checked ip now l (Dict.lookup ip l.states)

  -- `current if current is not None else st.sub_count`
  abbrev base_count : Option ℕ → ℕ → ℕ
  base_count none count = count
  base_count (some current) count = current

  abbrev subscribe_verdict : ℕ → ℕ → Option ℕ → Option IpState → Verdict
  subscribe_verdict count now current none =
      if ltb c.max_subs_per_ip (base_count current 0 + count) then subscription_limit else allowed
  subscribe_verdict count now current (some st) =
      if ltb now st.blocked_until
      then blocked (st.blocked_until - now)
      else if ltb c.max_subs_per_ip (base_count current st.sub_count + count)
      then subscription_limit
      else allowed

  unfoldable pub check_can_subscribe : Option String → ℕ → ℕ → Option ℕ → Limiter → Verdict
  check_can_subscribe none count now current l = allowed
  check_can_subscribe (some ip) count now current l =
      if not c.enabled || c.max_subs_per_ip == 0
      then allowed
      else subscribe_verdict count now current (Dict.lookup ip l.states)

  unfoldable pub note_subscribed : Option String → ℤ → ℕ → Limiter → Limiter
  note_subscribed none count now l = l
  note_subscribed (some ip) count now l =
      if c.enabled && not (is_zero count)
      then (let st = state ip now l in
          put ip (touch now (record st { sub_count = add_delta st.sub_count count })) l)
      else l

  unfoldable pub note_unsubscribed : Option String → ℕ → Limiter → Limiter
  note_unsubscribed none count l = l
  note_unsubscribed (some ip) count l =
      if c.enabled && not (count == 0)
      then update_found ip (λ st. record st { sub_count = st.sub_count - count }) l
      else l
