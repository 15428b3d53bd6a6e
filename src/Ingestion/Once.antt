-- ===== src/Ingestion/Once.antt =====
-- The sequences of a batch, each at most once.
use telemetry_backend.Prelude.{
  ℕ, ◌≡◌, ◌∙◌, refl, Bool, true, false, List, [], ◌∷◌, ◌++◌, map, nat_eq, ◌==◌, ==_iff,
  if◌then◌else◌, keep, arith, if_both,
}
use telemetry_backend.Ingestion.{IngestTelemetryEvent, any_sequence, by_sequence}

module _ {A : Type 0} (f : A → ℕ) where
  abbrev has : ℕ → List A → Bool
  has n [] = false
  has n (x ∷ xs) = if f x == n then true else has n xs

  -- no two elements have the same number
  abbrev pub Once : List A → Type 0
  Once [] = Unit {0}
  Once (x ∷ xs) = (has (f x) xs ≡ false) × Once xs

  has-keep : (p : A → Bool) (n : ℕ) (xs : List A) → has n xs ≡ false → has n (keep p xs) ≡ false
  has-keep p n [] h = refl
  has-keep p n (x ∷ xs) h = ground (arith, has-keep p n xs)

  pub Once-keep : (p : A → Bool) (xs : List A) → Once xs → Once (keep p xs)
  Once-keep p [] h = tt
  Once-keep p (x ∷ xs) h =
      if_both Once (p x) (x ∷ keep p xs) (keep p xs)
        (λ _. (has-keep p (f x) xs h.0, Once-keep p xs h.1)) (λ _. Once-keep p xs h.1)

  has-append :
      (n : ℕ) (xs : List A) (x : A) → has n (xs ++ x ∷ []) ≡ (if has n xs then true else f x == n)
  has-append n [] x = ground arith
  has-append n (y ∷ xs) x = ground (arith, has-append n xs x)

  Once-append : (xs : List A) (x : A) → has (f x) xs ≡ false → Once xs → Once (xs ++ x ∷ [])
  Once-append [] x h o = (refl, tt)
  Once-append (y ∷ xs) x h o = (
    ground (arith, has-append (f y) xs x, o.0, ==_iff (f x) (f y), ==_iff (f y) (f x)),
    Once-append xs x (ground arith) o.1,
  )

module _ {A B : Type 0} (f : A → ℕ) (g : B → ℕ) (h : A → B) (same : (x : A) → g (h x) ≡ f x) where
  has-map : (n : ℕ) (xs : List A) → has g n (map h xs) ≡ has f n xs
  has-map n [] = refl
  has-map n (x ∷ xs) = rw (same x, has-map n xs) refl

  pub Once-map : (xs : List A) → Once f xs → Once g (map h xs)
  Once-map [] o = tt
  Once-map (x ∷ xs) o = (rw (same x) (has-map (f x) xs ∙ o.0), Once-map xs o.1)

module _ {F : Type 0} where
  abbrev pub sequence_of : IngestTelemetryEvent F → ℕ
  sequence_of i = i.sequence

  has-any_sequence :
      (n : ℕ) (items : List (IngestTelemetryEvent F))
      → has sequence_of n items ≡ any_sequence n items
  has-any_sequence n [] = refl
  has-any_sequence n (i ∷ items) = ground (arith, has-any_sequence n items)

  -- `setdefault` keeps one event of each sequence
  pub by_sequence-Once :
      (acc items : List (IngestTelemetryEvent F))
      → Once sequence_of acc
      → Once sequence_of (by_sequence acc items)
  unfolding by_sequence
  by_sequence-Once acc [] o = o
  by_sequence-Once acc (i ∷ items) o =
      if_both (λ a. Once sequence_of (by_sequence a items)) (any_sequence i.sequence acc) acc
        (acc ++ i ∷ []) (λ _. by_sequence-Once acc items o)
        (λ new.
          by_sequence-Once (acc ++ i ∷ []) items
            (Once-append sequence_of acc i (has-any_sequence i.sequence acc ∙ new) o))
