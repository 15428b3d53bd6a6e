-- ===== src/TelemetryApi/History.antt =====
-- Which events `get_telemetry_history` returns for a host.
use mathlib.Core.Path.{subst}
use telemetry_backend.Prelude.{
  ℕ, ap, ◌≤◌, ◌≡◌, refl, ◌∙◌, String, Bool, true, Option, none, some, List, [], ◌∷◌, string_eq,
  option_eq, ==_iff, arith, keep, length, All, ◌≢◌, ◌⊎◌, inl, inr, Bool-cases, leb, length-keep-le,
  count_if, sym,
}
use telemetry_backend.Model.{TelemetryEvent}
use telemetry_backend.Tables.{TelemetryRecord}
use telemetry_backend.Api.{replied, http_error}
use telemetry_backend.Runtime.{Runtime}
use telemetry_backend.Runtime.Queries.{get_history}
use telemetry_backend.Runtime.History.{get_history_of_host}
use telemetry_backend.TelemetryApi.{
  Range, in_range, apply_range, or_if_empty, stored_events, history_of_host, history_in_range,
  normalize_range, get_telemetry_history,
}
use telemetry_backend.TelemetryApi.Stored.{
  All-keep_both, stored_events-Asked, length-stored_events-le, count_all, stored_events-Returned,
  Asked, Returned,
}

-- the range is empty or reversed
abbrev pub Backwards : Option ℕ → Option ℕ → Type 0
Backwards (some start) (some end) = end ≤ start
Backwards (some start) none = ⊥
Backwards none end = ⊥

normalize_range-cases :
    (start end : Option ℕ)
    → ((normalize_range start end ≡ http_error 422 "start must be earlier than end")
        × Backwards start end)
      ⊎ (normalize_range start end ≡ replied (start, end)) × (¬ Backwards start end)
unfolding normalize_range
normalize_range-cases (some start) (some end) = elim (Bool-cases (leb end start)) [
  | inl back ↦ inl (rw back refl, ground (arith, back))
  | inr ok ↦ inr (rw ok refl, λ back. absurd (ground (arith, ok, back)))
]
normalize_range-cases (some start) none = inr (refl, λ back. back)
normalize_range-cases none end = inr (refl, λ back. back)

List-cases : {A : Type 0} (xs : List A) → (xs ≡ []) ⊎ (1 ≤ length xs)
List-cases [] = inl refl
List-cases (x ∷ xs) = inr (omega arith)

or_if_empty_stored :
    {F : Type 0} (xs ys : List (TelemetryEvent F)) → 1 ≤ length xs → or_if_empty xs ys ≡ xs
or_if_empty_stored [] ys h = absurd (omega arith)
or_if_empty_stored (x ∷ xs) ys h = refl

-- both sources have it
or_if_empty_both :
    {F : Type 0} (Q : List (TelemetryEvent F) → Type 0) (xs ys : List (TelemetryEvent F))
    → Q xs
    → Q ys
    → Q (or_if_empty xs ys)
or_if_empty_both Q [] ys p q = q
or_if_empty_both Q (x ∷ xs) ys p q = p

module _ {F P : Type 0} (latest_first : List (TelemetryRecord F) → List (TelemetryRecord F))
    (same : (Q : TelemetryRecord F → Type 0) (rows : List (TelemetryRecord F))
      → All Q rows
      → All Q (latest_first rows)) where
  memory-Asked :
      (limit : ℕ) (host_id : String) (r : Range) (s : Runtime F P)
      → All
          (Asked host_id r)
          (keep (λ e. in_range r e.timestamp) (get_history limit (some host_id) s))
  memory-Asked limit host_id r s =
      All-keep_both (λ e. e.host_id ≡ some host_id) (λ e. in_range r e.timestamp ≡ true)
        (λ e. in_range r e.timestamp) (get_history limit (some host_id) s) (λ e h. h)
        (get_history_of_host limit host_id s).0

  length-memory-le :
      (limit : ℕ) (host_id : String) (r : Range) (s : Runtime F P)
      → 1 ≤ limit
      → length (keep (λ e. in_range r e.timestamp) (get_history limit (some host_id) s)) ≤ limit
  length-memory-le limit host_id r s pos = omega (
    arith,
    length-keep-le (λ e. in_range r e.timestamp) (get_history limit (some host_id) s),
    (get_history_of_host limit host_id s).1,
    pos,
  )

  history_of_host-Asked :
      (limit : ℕ) (host_id : String) (r : Range) (table : List (TelemetryRecord F))
      (s : Runtime F P)
      → 1 ≤ limit
      → All (Asked host_id r) (history_of_host latest_first limit host_id r table s)
        × (length (history_of_host latest_first limit host_id r table s) ≤ limit)
  unfolding history_of_host
  history_of_host-Asked limit host_id r table s pos =
      or_if_empty_both (λ events. All (Asked host_id r) events × (length events ≤ limit))
        (stored_events latest_first limit host_id r table)
        (keep (λ e. in_range r e.timestamp) (get_history limit (some host_id) s))
        (
          stored_events-Asked latest_first same limit host_id r table,
          length-stored_events-le latest_first limit host_id r table,
        )
        (memory-Asked limit host_id r s, length-memory-le limit host_id r s pos)

  history_of_host-Returned :
      (permutes : (p : TelemetryRecord F → Bool) (rows : List (TelemetryRecord F))
        → count_if p (latest_first rows) ≡ count_if p rows)
      (limit : ℕ) (host_id : String) (r : Range) (table : List (TelemetryRecord F))
      (s : Runtime F P)
      → 1 ≤ limit
      → (apply_range host_id r table ≡ [])
        ⊎ Returned limit
            (apply_range host_id r table)
            (history_of_host latest_first limit host_id r table s)
  unfolding history_of_host
  history_of_host-Returned permutes limit host_id r table s pos =
      let rows = apply_range host_id r table in
      let events = stored_events latest_first limit host_id r table in
      let stored = stored_events-Returned latest_first permutes limit host_id r table in
      elim (List-cases rows) [
        | inl none_ ↦ inl none_
        | inr some_row ↦ inr (
            subst (Returned limit rows)
              (sym (
                or_if_empty_stored events
                  (keep (λ e. in_range r e.timestamp) (get_history limit (some host_id) s))
                  (elim stored [
                    | inl (_, counts) ↦ omega (
                      arith,
                      sym (count_all events) ∙ counts (λ _. true) ∙ count_all rows,
                      some_row,
                    )
                    | inr (_, many) ↦ omega (arith, many, pos)
                  ])))
              stored)
      ]

  history_in_range-named :
      (limit : ℕ) (host_id : String) (r : Range) (table : List (TelemetryRecord F))
      (s : Runtime F P)
      → host_id ≢ ""
      → history_in_range latest_first limit (some host_id) r table s
        ≡ history_of_host latest_first limit host_id r table s
  unfolding history_in_range
  history_in_range-named limit host_id r table s named = ground (arith, ==_iff host_id "", named)

  -- A query for a host with a limit of at least one is refused with 422 if its end is not after its
  -- start, and only then. Otherwise it returns no more events than the limit, each of that host, not
  -- before the start and before the end; and if the database has rows of that host and range, it
  -- returns their events, all of them if they are no more than the limit, and as many as the limit
  -- otherwise, where `latest_first` permutes the rows that it orders.
  pub get_telemetry_history_of_host :
      (permutes : (p : TelemetryRecord F → Bool) (rows : List (TelemetryRecord F))
        → count_if p (latest_first rows) ≡ count_if p rows)
      (limit : ℕ) (host_id : String) (start end : Option ℕ) (table : List (TelemetryRecord F))
      (s : Runtime F P)
      → 1 ≤ limit
      → host_id ≢ ""
      → ((get_telemetry_history latest_first limit (some host_id) start end table s
            ≡ http_error 422 "start must be earlier than end")
          × Backwards start end)
        ⊎ (events : List (TelemetryEvent F)) × (get_telemetry_history latest_first limit
              (some host_id)
              start
              end
              table
              s
            ≡ replied events)
          × (¬ Backwards start end)
          × All (Asked host_id (start, end)) events
          × (length events ≤ limit)
          × ((apply_range host_id (start, end) table ≡ [])
              ⊎ Returned limit (apply_range host_id (start, end) table) events)
  unfolding get_telemetry_history
  get_telemetry_history_of_host permutes limit host_id start end table s pos named =
      elim (normalize_range-cases start end) [
        | inl (refused, back) ↦ inl (ground (arith, refused), back)
        | inr (ok, forwards) ↦
            let (asked, fits) = history_of_host-Asked limit host_id (start, end) table s pos in
            inr (
              history_of_host latest_first limit host_id (start, end) table s,
              answered (history_in_range latest_first limit (some host_id) (start, end) table s)
                  (ground (arith, ok))
                  (history_in_range-named limit host_id (start, end) table s named),
              forwards,
              asked,
              fits,
              history_of_host-Returned permutes limit host_id (start, end) table s pos,
            )
      ]
    where
      answered :
          (events : List (TelemetryEvent F))
          → get_telemetry_history latest_first limit (some host_id) start end table s
            ≡ replied events
          → events ≡ history_of_host latest_first limit host_id (start, end) table s
          → get_telemetry_history latest_first limit (some host_id) start end table s
            ≡ replied (history_of_host latest_first limit host_id (start, end) table s)
      answered events e h = e ∙ ap replied h
