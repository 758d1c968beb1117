-- ===== src/RateLimiter/Event.antt =====
-- The calls of IPRateLimiter that change it, as a type, and what a sequence of them does.
use Prim.Native.String.{String}
use rxin_dexer.Prelude.{ℕ, Bool, Option, List, [], ◌∷◌, ℤ}
use rxin_dexer.RateLimiter.{
  Config, Limiter, register_session, release_session, add_cost, check_cost, note_subscribed,
  note_unsubscribed,
}

-- What happens to a limiter: the calls that change it, each with the time that it is given.
pub data Event : Type 0 where
  register : Option String → Option ℕ → ℕ → Event
  release : Option String → ℕ → ℕ → ℕ → ℕ → Event
  charge : Option String → ℤ → ℕ → Event
  check : Option String → ℕ → Event
  subscribed : Option String → ℤ → ℕ → Event
  unsubscribed : Option String → ℕ → ℕ → Event

unfoldable pub time_of : Event → ℕ
time_of (register ip session_id now) = now
time_of (release ip session_id session_cost sub_count now) = now
time_of (charge ip delta now) = now
time_of (check ip now) = now
time_of (subscribed ip count now) = now
time_of (unsubscribed ip count now) = now

module _ (c : Config) (tr : String → Bool) where
  unfoldable pub happen : Event → Limiter → Limiter
  happen (register ip session_id now) l = (register_session c tr ip session_id now l).0
  happen (release ip session_id session_cost sub_count now) l =
      release_session c tr ip session_id session_cost sub_count now l
  happen (charge ip delta now) l = add_cost c tr ip delta now l
  happen (check ip now) l = (check_cost c tr ip now l).0
  happen (subscribed ip count now) l = note_subscribed c tr ip count now l
  happen (unsubscribed ip count now) l = note_unsubscribed c tr ip count l

  unfoldable pub happen_all : List Event → Limiter → Limiter
  happen_all [] l = l
  happen_all (e ∷ es) l = happen_all es (happen e l)
