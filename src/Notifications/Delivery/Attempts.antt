-- ===== src/Notifications/Delivery/Attempts.antt =====
-- How a delivery ends, against a specification that only looks at the answers.
use telemetry_backend.Prelude.{
  ℕ, zero, suc, ◌+◌, ◌≤◌, ◌≡◌, refl, String, Bool, true, false, not, ◌&&◌, ◌||◌, Option, none, some,
  [], string_eq, ◌==◌, nat_eq, if◌then◌else◌, leb, arith, Bool-cases, inl, inr,
}
use telemetry_backend.Prelude.Dict
use telemetry_backend.Metrics.{Metrics}
use telemetry_backend.Notifications.{NotificationJob, NotificationDelivery, Table}
use telemetry_backend.Notifications.Delivery.{
  Response, status, exception, should_retry, retryable_status, succeeded, last_after, Sent,
  attempts_from, set_delivery_state, deliver, error_text, retried,
}

-- an answer after which another attempt makes sense
abbrev pub transient : Response → Bool
transient (status s) = if retryable_status s then true else leb 500 s
transient (exception text) = true

-- The end of a delivery and the number of its posts: the first success, or the first answer that is
-- not transient, or the last attempt.
pub ending : (ℕ → Response) → ℕ → ℕ → String × ℕ
ending answer zero attempt = ("failed", 0)
ending answer (suc left) attempt = elim (succeeded (answer attempt)) [
  | true ↦ ("delivered", 1)
  | false ↦ elim (transient (answer attempt) && not (left == 0)) [
    | true ↦ let (end, posts) = ending answer left (attempt + 1) in (end, posts + 1)
    | false ↦ ("failed", 1)
  ]
]

-- the status that is carried from one attempt to the next is a transient one
abbrev Carried : Option ℕ → Type 0
Carried o = should_retry o ≡ true

-- an exception leaves a carried status, which is transient, so the test of the code agrees
should_retry-last_after :
    (r : Response) (o : Option ℕ) → Carried o → should_retry (last_after r o) ≡ transient r
should_retry-last_after (status s) o h = refl
should_retry-last_after (exception text) o h = h

module _ (http_error : ℕ → String) (answer : ℕ → Response) (now : ℕ → ℕ) (previous : ℕ) where
  record Ends (left attempt : ℕ) (s s' : Sent) : Type 0 where
    end : s'.row.status ≡ (ending answer (suc left) attempt).0
    posts : s'.posts ≡ s.posts + (ending answer (suc left) attempt).1
    attempts : s'.row.attempts + 1 ≡ previous + attempt + (ending answer (suc left) attempt).1

  module _ (left attempt : ℕ) (last_status : Option ℕ) (last_error : Option String) (s : Sent) where
    abbrev after : Sent
    after = attempts_from http_error answer now previous (suc left) attempt last_status last_error s

    abbrev delivering : NotificationDelivery
    delivering =
        set_delivery_state "delivering" (previous + attempt) last_status last_error none s.row

    -- the last attempt, or one that is not repeated
    last-Ends :
        Carried last_status
        → (succeeded (answer attempt) || (not (transient (answer attempt)) || (left == 0))) ≡ true
        → Ends left attempt s after
    unfolding attempts_from ending set_delivery_state
    last-Ends h stop = ground (arith, should_retry-last_after (answer attempt) last_status h)

    again :
        Carried last_status
        → (succeeded (answer attempt) || (not (transient (answer attempt)) || (left == 0))) ≡ false
        → after
          ≡ attempts_from http_error answer now previous left
              (attempt + 1)
              (last_after (answer attempt) last_status)
              (error_text http_error (answer attempt) last_error)
              (retried attempt delivering s)
    unfolding attempts_from
    again h stop = ground (arith, should_retry-last_after (answer attempt) last_status h)

  ending-again :
      (left attempt : ℕ)
      → (succeeded (answer attempt) || (not (transient (answer attempt)) || (left == 0))) ≡ false
      → (ending answer (suc left) attempt)
        ≡ ((ending answer left (attempt + 1)).0, (ending answer left (attempt + 1)).1 + 1)
  unfolding ending
  ending-again left attempt h = ground arith

  Carried-after :
      (r : Response) (o : Option ℕ) → Carried o → transient r ≡ true → Carried (last_after r o)
  Carried-after (status s) o h t = t
  Carried-after (exception text) o h t = h

  attempts_from-Ends :
      (left attempt : ℕ) (last_status : Option ℕ) (last_error : Option String) (s : Sent)
      → Carried last_status
      → Ends left attempt s
          (attempts_from http_error answer now previous (suc left) attempt last_status last_error s)
  attempts_from-Ends zero attempt last_status last_error s h =
      last-Ends zero attempt last_status last_error s h (ground arith)
  attempts_from-Ends (suc left) attempt last_status last_error s h =
      elim (Bool-cases
        (succeeded (answer attempt) || (not (transient (answer attempt)) || (suc left == 0)))) [
          | inl stop ↦ last-Ends (suc left) attempt last_status last_error s h stop
          | inr more ↦
              let code = last_after (answer attempt) last_status in
              let ih =
                attempts_from-Ends left (attempt + 1) code
                  (error_text http_error (answer attempt) last_error)
                  (retried attempt (delivering (suc left) attempt last_status last_error s) s)
                  (Carried-after (answer attempt) last_status h (ground arith)) in
              let e = ending-again (suc left) attempt more in
              rw (again (suc left) attempt last_status last_error s h more) (record {
                end = rw e ih.end;
                posts = rw e (omega (arith, ih.posts));
                attempts = rw e (omega (arith, ih.attempts));
              })
        ]

ending_bounds :
    (answer : ℕ → Response) (left attempt : ℕ)
    → (1 ≤ (ending answer (suc left) attempt).1) × ((ending answer (suc left) attempt).1 ≤ suc left)
unfolding ending
ending_bounds answer zero attempt = ground arith
ending_bounds answer (suc left) attempt =
    elim (Bool-cases
      (succeeded (answer attempt) || (not (transient (answer attempt)) || (suc left == 0)))) [
        | inl stop ↦ ground arith
        | inr more ↦
            let (low, high) = ending_bounds answer left (attempt + 1) in
            rw (ending-again (λ _. "") answer (λ n. n) 0 (suc left) attempt more)
              (omega (arith, low), omega (arith, high))
      ]

module _ {P : Type 0} (dumps : P → String) (sha256 : String → String)
    (http_error : ℕ → String) where
  deliver_stored :
      (answer : ℕ → Response) (now : ℕ → ℕ) (max_attempts : ℕ) (job : NotificationJob P)
      (db : Table) (m : Metrics) (stored : NotificationDelivery)
      → Dict.get job.delivery_id db ≡ some stored
      → stored.id ≡ job.delivery_id
      → (stored.status == "delivered") ≡ false
      → let s =
          attempts_from http_error answer now stored.attempts max_attempts 1 none none
            (record { row = stored; metrics = m; slept = []; posts = 0 }) in
        deliver dumps sha256 http_error answer now max_attempts job db m
        ≡ (Dict.put job.delivery_id s.row db, s.metrics, s.posts)
  unfolding deliver
  deliver_stored answer now max_attempts job db m stored found id open_ = ground arith

  -- A stored delivery that is not yet delivered ends, with at least one attempt allowed, exactly as
  -- the answers say: delivered by the first success, failed by the first answer that is not transient
  -- or by the last attempt; it is never left "delivering". Each post is counted in `attempts` on top
  -- of the earlier ones, and there is at least one and at most `max_attempts`.
  pub deliver-ending :
      (answer : ℕ → Response) (now : ℕ → ℕ) (left : ℕ) (job : NotificationJob P) (db : Table)
      (m : Metrics) (stored : NotificationDelivery)
      → Dict.get job.delivery_id db ≡ some stored
      → stored.id ≡ job.delivery_id
      → (stored.status == "delivered") ≡ false
      → (row : NotificationDelivery) × (Dict.get job.delivery_id
            (deliver dumps sha256 http_error answer now (suc left) job db m).0
          ≡ some row)
        × (row.status ≡ (ending answer (suc left) 1).0)
        × (row.attempts ≡ stored.attempts + (ending answer (suc left) 1).1)
        × ((deliver dumps sha256 http_error answer now (suc left) job db m).2
            ≡ (ending answer (suc left) 1).1)
        × (1 ≤ (ending answer (suc left) 1).1)
        × ((ending answer (suc left) 1).1 ≤ suc left)
  deliver-ending answer now left job db m stored found id open_ =
      let start : Sent = record { row = stored; metrics = m; slept = []; posts = 0 } in
      let e =
        attempts_from-Ends http_error answer now stored.attempts left 1 none none start refl in
      let (low, high) = ending_bounds answer left 1 in
      let s = attempts_from http_error answer now stored.attempts (suc left) 1 none none start in
      let whole = deliver_stored answer now (suc left) job db m stored found id open_ in
      (
        s.row,
        rw whole (Dict.get-put_self job.delivery_id s.row db),
        e.end,
        omega (arith, e.attempts),
        rw whole (omega (arith, e.posts)),
        low,
        high,
      )
