-- ===== src/Agent.antt =====
-- agent/telemetry_agent.py: `HostCollector.run` and `_flush`, and the sequence that `collect` draws. The
-- readings come from outside; what the server answers to each post is an argument. A delay is not
-- modelled, and a status that is not retried and no success raises (`raise_for_status`).
pub mod Delivery
pub mod Outage
use telemetry_backend.Prelude.{
  ℕ, zero, suc, ◌+◌, ◌/◌, Bool, true, false, not, ◌&&◌, Option, none, some, List, [], ◌∷◌, ◌++◌,
  nat_eq, ◌==◌, if◌then◌else◌, ltb, leb, length, max,
}

-- what a post ended with: a response with its status, or `httpx.HTTPError`
pub data Answer : Type 0 where
  status : ℕ → Answer
  transport_error : Answer

-- what `_flush` does: it returns the events that are left, or raises
pub data Flushed (A : Type 0) : Type 0 where
  left_over : List A → Flushed A
  rejected : Flushed A
  status_error : Flushed A

abbrev pub is_retried : ℕ → Bool
is_retried s = if s == 429 then true else leb 500 s && ltb s 600

-- `response.raise_for_status()` returns
abbrev pub is_success : ℕ → Bool
is_success s = leb 200 s && ltb s 300

abbrev pub max_attempts : ℕ
max_attempts = 5

module _ {A : Type 0} where
  -- the loop of `_flush`, with the attempts that are left, and the posts that were made
  unfoldable pub attempts : (ℕ → Answer) → ℕ → ℕ → List A → Flushed A × ℕ
  attempts answer zero attempt events = (left_over events, attempt)
  attempts answer (suc rest) attempt events =
      let again = attempts answer rest (attempt + 1) events in
      let posted = attempt + 1 in
      elim (answer attempt) [
        | transport_error ↦ if rest == 0 then (left_over events, posted) else again
        | status s ↦
            if s == 401
            then (rejected, posted)
            else if is_retried s
            then (if rest == 0 then (left_over events, posted) else again)
            else if is_success s
            then (left_over [], posted)
            else (status_error, posted)
      ]

  -- `_flush`
  unfoldable pub flush : (ℕ → Answer) → List A → Flushed A × ℕ
  unfolding attempts
  flush answer events = attempts answer max_attempts 0 events

-- The state of `run`: the buffer, the batches that a success answered, and whether an exception ended
-- the loop.
pub record Agent (A : Type 0) : Type 0 where
  pub batch_size : ℕ
  pub pending : List A
  pub delivered : List A
  pub stopped : Bool

abbrev pub create : {A : Type 0} → ℕ → Agent A
create batch_size = record {
  batch_size = batch_size;
  pending = [];
  delivered = [];
  stopped = false;
}

module _ {A : Type 0} where
  -- the assignment `pending = self._flush(…)`; an exception leaves the loop
  unfoldable pub settle : Flushed A → Agent A → Agent A
  settle (left_over []) a = record a { pending = []; delivered = a.delivered ++ a.pending }
  settle (left_over (e ∷ events)) a = record a { pending = e ∷ events }
  settle rejected a = record a { stopped = true }
  settle status_error a = record a { stopped = true }

  abbrev pub buffered : A → Agent A → Agent A
  buffered sample a = record a { pending = a.pending ++ sample ∷ [] }

  -- one pass of the loop: the sample that `collect` returned, and the answers to its posts
  unfoldable pub pass : A → (ℕ → Answer) → Agent A → Agent A
  unfolding settle
  pass sample answer a =
      if leb a.batch_size (length (buffered sample a).pending)
      then settle (flush answer (buffered sample a).pending).0 (buffered sample a)
      else buffered sample a

  -- the loop of `run`, until it is told to stop or an exception ends it
  unfoldable pub run : List (A × (ℕ → Answer)) → Agent A → Agent A
  unfolding pass
  run [] a = a
  run ((sample, answer) ∷ passes) a = run passes (if a.stopped then a else pass sample answer a)

-- `collect`: max(self._last_sequence + 1, time.time_ns() // 1_000_000)
abbrev pub next_sequence : ℕ → ℕ → ℕ
next_sequence last time_ns = max (last + 1) (time_ns / 1_000_000)
