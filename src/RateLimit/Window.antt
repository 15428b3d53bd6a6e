-- ===== src/RateLimit/Window.antt =====
-- The guarantee of the limiter over a history of requests and clearings.
use telemetry_backend.Prelude.{
  ℕ, ◌+◌, ◌*◌, ◌≤◌, ◌<◌, ◌≡◌, refl, String, Bool, true, false, List, [], ◌∷◌, ◌++◌, leb, ltb, ◌==◌,
  if◌then◌else◌, length, length-append, string_eq, count_if, All, arith, ap, ◌∙◌, sym, ◌⊎◌, inl,
  inr,
}
use mathlib.Core.List.{append_assoc}
use native.Mathlib.Nat.{le_trans}
use telemetry_backend.Prelude.Dict
use telemetry_backend.RateLimit.{
  SlidingWindowRateLimiter, Outcome, admitted, limited, index_error, second, popleft_expired,
  decide, events_of, check, clear,
}

-- An outcome adds the instant to those that were admitted.
abbrev pub note : ℕ → Outcome → List ℕ → List ℕ
note now admitted log = log ++ now ∷ []
note now (limited _) log = log
note now index_error log = log

-- What is done to the limiter: requests and clearings of the caller in question, at which the log of
-- what was admitted starts anew, and those of others, with limits of their own.
pub data Call : Type 0 where
  requested : ℕ → Call
  cleared : Call
  other_requested : ℕ → String → ℕ → ℕ → Call
  other_cleared : String → Call

-- the instants of the caller's requests do not go back, and the others have other keys
abbrev pub Later : String → ℕ → List Call → Type 0
Later key t [] = Unit {0}
Later key t (requested now ∷ cs) = (t ≤ now) × Later key now cs
Later key t (cleared ∷ cs) = Later key t cs
Later key t (other_requested _ k _ _ ∷ cs) = ((k == key) ≡ false) × Later key t cs
Later key t (other_cleared k ∷ cs) = ((k == key) ≡ false) × Later key t cs

-- the instant of the caller's last request
abbrev pub last_of : ℕ → List Call → ℕ
last_of t [] = t
last_of t (requested now ∷ cs) = last_of now cs
last_of t (cleared ∷ cs) = last_of t cs
last_of t (other_requested _ _ _ _ ∷ cs) = last_of t cs
last_of t (other_cleared _ ∷ cs) = last_of t cs

-- the admitted instants that are still in the window at `now`
abbrev pub recent : ℕ → ℕ → List ℕ → ℕ
recent now window = count_if (λ t. ltb now (t + window))

abbrev Expired : ℕ → ℕ → List ℕ → Type 0
Expired now window = All (λ t. t + window ≤ now)

Expired-later : (a b window : ℕ) (ts : List ℕ) → a ≤ b → Expired a window ts → Expired b window ts
Expired-later a b window [] h e = tt
Expired-later a b window (t ∷ ts) h e = (omega arith, Expired-later a b window ts h e.1)

Expired-append :
    (now window : ℕ) (xs ys : List ℕ)
    → Expired now window xs
    → Expired now window ys
    → Expired now window (xs ++ ys)
Expired-append now window [] ys hx hy = hy
Expired-append now window (x ∷ xs) ys hx hy = (hx.0, Expired-append now window xs ys hx.1 hy)

abbrev Split : ℕ → ℕ → List ℕ → List ℕ → Type 0
Split now window ts rest = (old : List ℕ) × Expired now window old × (ts ≡ old ++ rest)

Split-cons :
    (now window t : ℕ) (ts rest : List ℕ) (b : Bool)
    → leb (t + window) now ≡ b
    → Split now window ts rest
    → Split now window (t ∷ ts) (if b then rest else t ∷ ts)
Split-cons now window t ts rest true e (old, expired, split) =
    (t ∷ old, (ground arith, expired), ap (◌∷◌ t) split)
Split-cons now window t ts rest false e s = ([], tt, refl)

-- what `popleft` took away has expired
popleft-Split : (now window : ℕ) (ts : List ℕ) → Split now window ts (popleft_expired now window ts)
unfolding popleft_expired
popleft-Split now window [] = ([], tt, refl)
popleft-Split now window (t ∷ ts) =
    Split-cons now window t ts _ (leb (t + window) now) refl (popleft-Split now window ts)

popleft-length : (now window : ℕ) (ts : List ℕ) → length (popleft_expired now window ts) ≤ length ts
unfolding popleft_expired
popleft-length now window [] = omega arith
popleft-length now window (t ∷ ts) = ground (arith, popleft-length now window ts)

-- The log is what has expired, followed by the events that the limiter holds, at most `limit`.
record Tracked (now limit window : ℕ) (ts log : List ℕ) : Type 0 where
  old : List ℕ
  expired : Expired now window old
  split : log ≡ old ++ ts
  bounded : length ts ≤ limit

popleft-Tracked :
    (before now limit window : ℕ) (ts log : List ℕ)
    → before ≤ now
    → Tracked before limit window ts log
    → Tracked now limit window (popleft_expired now window ts) log
popleft-Tracked before now limit window ts log le t =
    let (gone, expired, split) = popleft-Split now window ts in
    record {
      old = t.old ++ gone;
      expired =
          Expired-append now window t.old gone (Expired-later before now window t.old le t.expired)
            expired;
      split = t.split ∙ ap (◌++◌ t.old) split ∙ sym (append_assoc t.old gone _);
      bounded = omega (arith, t.bounded, popleft-length now window ts);
    }

module _ (retry_after : ℕ → ℕ → ℕ → ℕ) where
  -- the events and the log after `decide`
  decided :
      (now limit window : ℕ) (ts log : List ℕ)
      → length ts ≤ limit
      → ((decide retry_after now limit window ts).0 ≡ ts)
          × (note now (decide retry_after now limit window ts).1 log ≡ log)
        ⊎ ((decide retry_after now limit window ts).0 ≡ ts ++ now ∷ [])
          × (note now (decide retry_after now limit window ts).1 log ≡ log ++ now ∷ [])
          × (length ts < limit)
  unfolding decide
  decided now limit window [] log le = ground arith
  decided now limit window (x ∷ ts) log le = ground arith

  decide-Tracked :
      (now limit window : ℕ) (ts log : List ℕ)
      → Tracked now limit window ts log
      → Tracked now limit window
          (decide retry_after now limit window ts).0
          (note now (decide retry_after now limit window ts).1 log)
  decide-Tracked now limit window ts log t = elim (decided now limit window ts log t.bounded) [
    | inl (kept, logged) ↦ rw (kept, logged) t
    | inr (kept, logged, room) ↦
        rw (kept, logged)
          (record {
            old = t.old;
            expired = t.expired;
            split = ap (λ l. l ++ now ∷ []) t.split ∙ append_assoc t.old ts (now ∷ []);
            bounded = omega (arith, length-append ts (now ∷ []));
          })
  ]

  module _ (key : String) (limit window_seconds : ℕ) where
    abbrev window : ℕ
    window = window_seconds * second

    events_of-check :
        (now : ℕ) (l : SlidingWindowRateLimiter)
        → events_of key (check retry_after now key limit window_seconds l).0
          ≡ (decide retry_after now limit window (popleft_expired now window (events_of key l))).0
    unfolding check
    events_of-check now l = ground (
      arith,
      Dict.get-put_self key
          (decide retry_after now limit window (popleft_expired now window (events_of key l))).0
          l.events,
    )

    check-Tracked :
        (before now : ℕ) (l : SlidingWindowRateLimiter) (log : List ℕ)
        → before ≤ now
        → Tracked before limit window (events_of key l) log
        → Tracked now limit window
            (events_of key (check retry_after now key limit window_seconds l).0)
            (note now (check retry_after now key limit window_seconds l).1 log)
    check-Tracked before now l log le t = rw (events_of-check now l) (
        unfold check in
        decide-Tracked now limit window _ log (popleft-Tracked before now limit window _ log le t))

    events_of-check_other :
        (now : ℕ) (k : String) (limit' window' : ℕ) (l : SlidingWindowRateLimiter)
        → (k == key) ≡ false
        → events_of key (check retry_after now k limit' window' l).0 ≡ events_of key l
    unfolding check
    events_of-check_other now k limit' window' l other = ground (
      arith,
      other,
      Dict.get-put k key
          (decide retry_after now limit' (window' * second)
            (popleft_expired now (window' * second) (events_of k l))).0
          l.events,
    )

    events_of-clear : (l : SlidingWindowRateLimiter) → events_of key (clear key l) ≡ []
    unfolding clear
    events_of-clear l = ground (arith, Dict.get-remove_self key l.events)

    events_of-clear_other :
        (k : String) (l : SlidingWindowRateLimiter)
        → (k == key) ≡ false
        → events_of key (clear k l) ≡ events_of key l
    unfolding clear
    events_of-clear_other k l other = ground (arith, other, Dict.get-remove k key l.events)

    -- the limiter after the calls, and the instants of the caller's requests that were admitted since
    -- the log started
    pub run : List Call → SlidingWindowRateLimiter × List ℕ → SlidingWindowRateLimiter × List ℕ
    run [] (l, log) = (l, log)
    run (requested now ∷ cs) (l, log) =
        let (l', outcome) = check retry_after now key limit window_seconds l in
        run cs (l', note now outcome log)
    run (cleared ∷ cs) (l, log) = run cs (clear key l, [])
    run (other_requested now k limit' window' ∷ cs) (l, log) =
        run cs ((check retry_after now k limit' window' l).0, log)
    run (other_cleared k ∷ cs) (l, log) = run cs (clear k l, log)

    run-Tracked :
        (before : ℕ) (cs : List Call) (l : SlidingWindowRateLimiter) (log : List ℕ)
        → Later key before cs
        → Tracked before limit window (events_of key l) log
        → Tracked
            (last_of before cs)
            limit
            window
            (events_of key (run cs (l, log)).0)
            (run cs (l, log)).1
    unfolding run
    run-Tracked before [] l log h t = t
    run-Tracked before (requested now ∷ cs) l log h t =
        run-Tracked now cs _ _ h.1 (check-Tracked before now l log h.0 t)
    run-Tracked before (cleared ∷ cs) l log h t = run-Tracked before cs (clear key l) [] h (record {
      old = [];
      expired = tt;
      split = sym (events_of-clear l);
      bounded = rw (events_of-clear l) (omega arith);
    })
    run-Tracked before (other_requested now k limit' window' ∷ cs) l log h t =
        run-Tracked before cs _ log h.1 (rw (events_of-check_other now k limit' window' l h.0) t)
    run-Tracked before (other_cleared k ∷ cs) l log h t =
        run-Tracked before cs _ log h.1 (rw (events_of-clear_other k l h.0) t)

recent-Expired :
    (now window : ℕ) (old ts : List ℕ)
    → Expired now window old
    → recent now window (old ++ ts) ≤ length ts
recent-Expired now window [] [] h = omega arith
recent-Expired now window [] (t ∷ ts) h = ground (arith, recent-Expired now window [] ts tt)
recent-Expired now window (x ∷ old) ts h = ground (arith, recent-Expired now window old ts h.1)

-- A caller whose window starts empty never gets more than `limit` requests admitted within one window
-- without being cleared in between: after any requests at instants that do not go back, clearings, and
-- requests and clearings of other callers, at the instant of the caller's last request at most `limit`
-- of those admitted since the last clearing are younger than the window. (Each prefix of the calls is
-- such a history, so this holds at every request.)
pub requests_within_limit :
    (retry_after : ℕ → ℕ → ℕ → ℕ) (key : String) (limit window_seconds first : ℕ) (cs : List Call)
    (l : SlidingWindowRateLimiter)
    → events_of key l ≡ []
    → Later key first cs
    → recent
        (last_of first cs)
        (window_seconds * second)
        (run retry_after key limit window_seconds cs (l, [])).1
      ≤ limit
requests_within_limit retry_after key limit window_seconds first cs l fresh later =
    let t =
      run-Tracked retry_after key limit window_seconds first cs l [] later
        (record { old = []; expired = tt; split = sym fresh; bounded = rw fresh (omega arith) }) in
    rw (t.split) (le_trans (recent-Expired _ _ t.old _ t.expired) t.bounded)
