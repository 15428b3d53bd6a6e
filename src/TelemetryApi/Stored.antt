-- ===== src/TelemetryApi/Stored.antt =====
-- Which rows of the table the history of a host returns.
use mathlib.Core.List.{reverse, reverse_aux}
use telemetry_backend.Prelude.{
  ℕ, zero, suc, ap, ◌+◌, ◌≤◌, ◌<◌, ◌≡◌, refl, ◌∙◌, String, Bool, true, false, ◌&&◌, some, List, [],
  ◌∷◌, map, string_eq, option_eq, ◌==◌, ==_iff, arith, keep, take, length, length-take, All,
  if_both, ◌⊎◌, inl, inr, Bool-cases, leb, count_if, sym,
}
use telemetry_backend.Model.{TelemetryEvent}
use telemetry_backend.Tables.{TelemetryRecord}
use telemetry_backend.TelemetryApi.{Range, in_range, to_event, apply_range, stored_events}

module _ {A : Type 0} where
  All-reverse_aux :
      (Q : A → Type 0) (xs ys : List A) → All Q xs → All Q ys → All Q (reverse_aux xs ys)
  All-reverse_aux Q [] ys h k = k
  All-reverse_aux Q (x ∷ xs) ys (q, h) k = All-reverse_aux Q xs (x ∷ ys) h (q, k)

  length-reverse_aux : (xs ys : List A) → length (reverse_aux xs ys) ≡ length xs + length ys
  length-reverse_aux [] ys = omega arith
  length-reverse_aux (x ∷ xs) ys = omega (arith, length-reverse_aux xs (x ∷ ys))

  All-take : (Q : A → Type 0) (n : ℕ) (xs : List A) → All Q xs → All Q (take n xs)
  All-take Q zero xs h = tt
  All-take Q (suc n) [] h = tt
  All-take Q (suc n) (x ∷ xs) (q, h) = (q, All-take Q n xs h)

  -- what passes the test has what the test shows, and keeps what it had
  pub All-keep_both :
      (Q R : A → Type 0) (p : A → Bool) (xs : List A)
      → ((x : A) → p x ≡ true → R x)
      → All Q xs
      → All (λ x. Q x × R x) (keep p xs)
  All-keep_both Q R p [] f h = tt
  All-keep_both Q R p (x ∷ xs) f (q, h) =
      if_both (All (λ x. Q x × R x)) (p x) (x ∷ keep p xs) (keep p xs)
        (λ here. ((q, f x here), All-keep_both Q R p xs f h)) (λ _. All-keep_both Q R p xs f h)

  All-any : (xs : List A) → All (λ _. Unit {0}) xs
  All-any [] = tt
  All-any (x ∷ xs) = (tt, All-any xs)

All-map :
    {A B : Type 0} (Q : B → Type 0) (R : A → Type 0) (f : A → B) (xs : List A)
    → ((x : A) → R x → Q (f x))
    → All R xs
    → All Q (map f xs)
All-map Q R f [] g h = tt
All-map Q R f (x ∷ xs) g (r, h) = (g x r, All-map Q R f xs g h)

length-map : {A B : Type 0} (f : A → B) (xs : List A) → length (map f xs) ≡ length xs
length-map f [] = refl
length-map f (x ∷ xs) = omega (arith, length-map f xs)

-- what the query asks for
abbrev pub Asked : {F : Type 0} → String → Range → TelemetryEvent F → Type 0
Asked host_id r e = (e.host_id ≡ some host_id) × (in_range r e.timestamp ≡ true)

module _ {F : Type 0} where
  row_passes :
      (host_id : String) (r : Range) (row : TelemetryRecord F)
      → ((row.host_id == host_id) && in_range r row.timestamp) ≡ true
      → Asked host_id r (to_event row)
  unfolding to_event
  row_passes host_id r row h = (
    ap some (
        (==_iff row.host_id host_id).0
          (both-left (row.host_id == host_id) (in_range r row.timestamp) h)),
    both-right (row.host_id == host_id) (in_range r row.timestamp) h,
  )
    where
      both-left : (a b : Bool) → (a && b) ≡ true → a ≡ true
      both-left true b h = refl
      both-left false b h = h

      both-right : (a b : Bool) → (a && b) ≡ true → b ≡ true
      both-right true b h = h
      both-right false b h = absurd (ground arith)

  module _ (latest_first : List (TelemetryRecord F) → List (TelemetryRecord F))
      (same : (Q : TelemetryRecord F → Type 0) (rows : List (TelemetryRecord F))
        → All Q rows
        → All Q (latest_first rows)) where
    pub stored_events-Asked :
        (limit : ℕ) (host_id : String) (r : Range) (table : List (TelemetryRecord F))
        → All (Asked host_id r) (stored_events latest_first limit host_id r table)
    stored_events-Asked limit host_id r table =
        let Passed = λ (row : TelemetryRecord F). Unit {0} × Asked host_id r (to_event row) in
        let rows = apply_range host_id r table in
        All-map (Asked host_id r) Passed to_event (reverse (take limit (latest_first rows)))
          (λ row h. h.1)
          (All-reverse_aux Passed (take limit (latest_first rows)) []
            (All-take Passed limit (latest_first rows) (
              same Passed rows (
                All-keep_both (λ _. Unit {0}) (λ row. Asked host_id r (to_event row)) _ table
                  (row_passes host_id r) (All-any table))))
            tt)

pub length-stored_events-le :
    {F : Type 0} (latest_first : List (TelemetryRecord F) → List (TelemetryRecord F)) (limit : ℕ)
    (host_id : String) (r : Range) (table : List (TelemetryRecord F))
    → length (stored_events latest_first limit host_id r table) ≤ limit
length-stored_events-le latest_first limit host_id r table =
    let rows = take limit (latest_first (apply_range host_id r table)) in
    omega (
      arith,
      length-map to_event (reverse rows),
      length-reverse_aux rows [],
      length-take limit (latest_first (apply_range host_id r table)),
    )

module _ {A : Type 0} where
  count_if-reverse_aux :
      (p : A → Bool) (xs ys : List A)
      → count_if p (reverse_aux xs ys) ≡ count_if p xs + count_if p ys
  count_if-reverse_aux p [] ys = omega arith
  count_if-reverse_aux p (x ∷ xs) ys = ground (arith, count_if-reverse_aux p xs (x ∷ ys))

  count_if-reverse : (p : A → Bool) (xs : List A) → count_if p (reverse xs) ≡ count_if p xs
  count_if-reverse p xs = omega (arith, count_if-reverse_aux p xs [])

  take_all : (n : ℕ) (xs : List A) → length xs ≤ n → take n xs ≡ xs
  take_all zero [] h = refl
  take_all zero (x ∷ xs) h = absurd (omega arith)
  take_all (suc n) [] h = refl
  take_all (suc n) (x ∷ xs) h = ap (◌∷◌ x) (take_all n xs (omega arith))

  pub count_all : (xs : List A) → count_if (λ _. true) xs ≡ length xs
  count_all [] = refl
  count_all (x ∷ xs) = ground (arith, count_all xs)

count_if-map :
    {A B : Type 0} (p : B → Bool) (f : A → B) (xs : List A)
    → count_if p (map f xs) ≡ count_if (λ x. p (f x)) xs
count_if-map p f [] = refl
count_if-map p f (x ∷ xs) = ground (arith, count_if-map p f xs)

-- What is stored is returned: all of the rows asked for, each as often as it stands in the table, if they
-- are no more than the limit, and as many as the limit otherwise.
abbrev pub Returned : {F : Type 0} → ℕ → List (TelemetryRecord F) → List (TelemetryEvent F) → Type 0
Returned {F = F} limit rows events =
    ((length rows ≤ limit)
      × ((p : TelemetryEvent F → Bool)
          → count_if p events ≡ count_if (λ row. p (to_event row)) rows))
    ⊎ ((limit < length rows) × (length events ≡ limit))

pub stored_events-Returned :
    {F : Type 0} (latest_first : List (TelemetryRecord F) → List (TelemetryRecord F))
    (permutes : (p : TelemetryRecord F → Bool) (rows : List (TelemetryRecord F))
      → count_if p (latest_first rows) ≡ count_if p rows)
    (limit : ℕ) (host_id : String) (r : Range) (table : List (TelemetryRecord F))
    → Returned limit
        (apply_range host_id r table)
        (stored_events latest_first limit host_id r table)
stored_events-Returned latest_first permutes limit host_id r table =
    let rows = apply_range host_id r table in
    let found = take limit (latest_first rows) in
    let same_length : length (latest_first rows) ≡ length rows =
      sym (count_all (latest_first rows)) ∙ permutes (λ _. true) rows ∙ count_all rows in
    elim (Bool-cases (leb (length rows) limit)) [
      | inl fits ↦
          let le : length rows ≤ limit = ground (arith, fits) in
          inl (
            le,
            λ p.
                count_if-map p to_event (reverse found)
                ∙ count_if-reverse (λ row. p (to_event row)) found
                ∙ ap (count_if (λ row. p (to_event row)))
                    (take_all limit (latest_first rows) (omega (arith, same_length, le)))
                ∙ permutes (λ row. p (to_event row)) rows,
          )
      | inr more ↦
          let lt : limit < length rows = ground (arith, more) in
          inr (
            lt,
            omega (
              arith,
              lt,
              length-map to_event (reverse found),
              length-reverse_aux found [],
              length-take limit (latest_first rows),
              same_length,
            ),
          )
    ]
