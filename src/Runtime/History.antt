-- ===== src/Runtime/History.antt =====
-- What `get_history` returns.
use telemetry_backend.Prelude.{
  All-drop, ℕ, ◌-◌, ◌≤◌, ◌≡◌, String, Bool, true, some, List, [], ◌∷◌, arith, string_eq, option_eq,
  ◌==◌, ==_iff, length, length-drop, take_last, keep, All, min, max, if_both,
}
use telemetry_backend.Runtime.{Runtime}
use telemetry_backend.Runtime.Queries.{get_history}

module _ {A : Type 0} (Q : A → Type 0) where
  All-keep_passed : (p : A → Bool) (xs : List A) → ((x : A) → p x ≡ true → Q x) → All Q (keep p xs)
  All-keep_passed p [] h = tt
  All-keep_passed p (x ∷ xs) h =
      if_both (All Q) (p x) (x ∷ keep p xs) (keep p xs) (λ here. (h x here, All-keep_passed p xs h))
        (λ _. All-keep_passed p xs h)

length-take_last : {A : Type 0} (n : ℕ) (xs : List A) → length (take_last n xs) ≤ n
length-take_last n xs = omega (arith, length-drop (length xs - n) xs)

module _ {F P : Type 0} where
  -- A query for one host returns events of that host only, and no more than the limit, where a limit
  -- of 0 counts as 1 and a limit above the size of the history as that size.
  pub get_history_of_host :
      (limit : ℕ) (host_id : String) (s : Runtime F P)
      → All (λ e. e.host_id ≡ some host_id) (get_history limit (some host_id) s)
        × (length (get_history limit (some host_id) s) ≤ max 1 (min limit s.max_history_size))
  unfolding get_history
  get_history_of_host limit host_id s = (
    All-drop (λ e. e.host_id ≡ some host_id) _ _
        (All-keep_passed (λ e. e.host_id ≡ some host_id) (λ e. e.host_id == some host_id) s.history
          (λ e h. (==_iff e.host_id (some host_id)).0 h)),
    length-take_last (max 1 (min limit s.max_history_size)) _,
  )
