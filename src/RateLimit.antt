-- ===== src/RateLimit.antt =====
-- app/core/rate_limit.py: a sliding window of admitted requests for each caller. The clock is a number
-- of nanoseconds that is passed in, where the code reads `monotonic()`. The code holds instants as floats:
-- `retry_after oldest window now` stands for max(1, math.ceil(oldest + window - now)) as the floats round
-- it, and the test whether an event has expired is taken to be exact.
pub mod Window
use telemetry_backend.Prelude.{
  ℕ, ◌+◌, ◌*◌, String, Bool, true, false, Option, none, some, List, [], ◌∷◌, ◌++◌, leb,
  if◌then◌else◌, length, string_eq,
}
use telemetry_backend.Prelude.Dict
use telemetry_backend.Prelude.Dict.{Dict}

pub record SlidingWindowRateLimiter : Type 0 where
  pub events : Dict String (List ℕ)

-- `check` returns, or raises `RateLimitExceeded(retry_after)`; with a limit of 0 and no event it
-- raises `IndexError`
pub data Outcome : Type 0 where
  admitted : Outcome
  limited : ℕ → Outcome
  index_error : Outcome

abbrev pub second : ℕ
second = 1_000_000_000

-- while events and events[0] <= now - window: events.popleft()
unfoldable pub popleft_expired : ℕ → ℕ → List ℕ → List ℕ
popleft_expired now window [] = []
popleft_expired now window (t ∷ ts) =
    let rest = popleft_expired now window ts in if leb (t + window) now then rest else t ∷ ts

-- self._events[key], which is a defaultdict(deque)
abbrev pub events_of : String → SlidingWindowRateLimiter → List ℕ
events_of key l = elim (Dict.get key l.events) [ none ↦ [] | some ts ↦ ts ]

module _ (retry_after : ℕ → ℕ → ℕ → ℕ) where
  -- the test of `check` on the events that are left
  unfoldable pub decide : ℕ → ℕ → ℕ → List ℕ → List ℕ × Outcome
  decide now limit window [] = if leb limit 0 then ([], index_error) else (now ∷ [], admitted)
  decide now limit window (t ∷ ts) =
      if leb limit (length (t ∷ ts))
      then (t ∷ ts, limited (retry_after t window now))
      else ((t ∷ ts) ++ now ∷ [], admitted)

  unfoldable pub check :
      ℕ → String → ℕ → ℕ → SlidingWindowRateLimiter → SlidingWindowRateLimiter × Outcome
  unfolding popleft_expired decide
  check now key limit window_seconds l =
      let window = window_seconds * second in
      let (ts, outcome) = decide now limit window (popleft_expired now window (events_of key l)) in
      (record { events = Dict.put key ts l.events }, outcome)

unfoldable pub clear : String → SlidingWindowRateLimiter → SlidingWindowRateLimiter
clear key l = record { events = Dict.remove key l.events }

abbrev pub reset : SlidingWindowRateLimiter
reset = record { events = [] }
