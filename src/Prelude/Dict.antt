-- ===== src/Prelude/Dict.antt =====
-- Python's `dict`: entries in the order of insertion, at most one for each key.
use Prim.Native.Nat.{◌+◌, ◌≤◌}
use mathlib.Core.Path.{◌≡◌, refl, sym, subst, subst₂}
use mathlib.Core.Bool.{Bool, true}
use mathlib.Core.Option.{Option, none, some}
use mathlib.Core.List.{List, [], ◌∷◌, map}
use native.Mathlib.Omega.{arith}
use mathlib.Core.Logic.{inl, inr}
use telemetry_backend.Prelude.Tests.{if◌then◌else◌, Eq, ◌==◌, if_both, if-some}
use telemetry_backend.Prelude.Lists.{length, All, keep, find}

abbrev pub Dict {ℓ} : Type ℓ → Type ℓ → Type ℓ
Dict K V = List (K × V)

-- d.values()
abbrev pub values {ℓ} : {K V : Type ℓ} → Dict K V → List V
values = map (λ e. e.1)

-- d.keys()
abbrev pub keys {ℓ} : {K V : Type ℓ} → Dict K V → List K
keys = map (λ e. e.0)

-- {k: v for k, v in d.items() if p(k)}
unfoldable pub keep_keys {ℓ} : {K V : Type ℓ} → (K → Bool) → Dict K V → Dict K V
keep_keys p [] = []
keep_keys p ((k, v) ∷ d) = let rest = keep_keys p d in if p k then (k, v) ∷ rest else rest

module _ {ℓ} {K V : Type ℓ} ⦃e : Eq K⦄ where
  -- d.get(k)
  unfoldable pub get : K → Dict K V → Option V
  get k [] = none
  get k ((j, v) ∷ d) = let rest = get k d in if j == k then some v else rest

  -- d[k] = v: an old key keeps its place, a new one goes last
  unfoldable pub put : K → V → Dict K V → Dict K V
  put k v [] = (k, v) ∷ []
  put k v ((j, w) ∷ d) = let rest = put k v d in if j == k then (j, v) ∷ d else (j, w) ∷ rest

  -- d.pop(k, None)
  unfoldable pub remove : K → Dict K V → Dict K V
  remove k [] = []
  remove k ((j, w) ∷ d) = let rest = remove k d in if j == k then rest else (j, w) ∷ rest

  pub get-put :
      (k j : K) (v : V) (d : Dict K V) → get j (put k v d) ≡ (if k == j then some v else get j d)
  unfolding get put
  get-put k j v [] = refl
  get-put k j v ((i, w) ∷ d) =
      ground (arith, e.same_iff k j, e.same_iff i k, e.same_iff i j, get-put k j v d)

  pub get-remove :
      (k j : K) (d : Dict K V) → get j (remove k d) ≡ (if k == j then none else get j d)
  unfolding get remove
  get-remove k j [] = ground arith
  get-remove k j ((i, w) ∷ d) =
      ground (arith, e.same_iff k j, e.same_iff i k, e.same_iff i j, get-remove k j d)

  pub get-put_self : (k : K) (v : V) (d : Dict K V) → get k (put k v d) ≡ some v
  get-put_self k v d = ground (arith, get-put k k v d, e.same_iff k k)

  pub get-remove_self : (k : K) (d : Dict K V) → get k (remove k d) ≡ none
  get-remove_self k d = ground (arith, get-remove k k d, e.same_iff k k)

  pub length-put-le : (k : K) (v : V) (d : Dict K V) → length (put k v d) ≤ length d + 1
  unfolding put
  length-put-le k v [] = omega arith
  length-put-le k v ((j, w) ∷ d) = ground (arith, length-put-le k v d)

-- A property of every entry.
abbrev pub Each {ℓ κ} : {K V : Type ℓ} → (K → V → Type κ) → Dict K V → Type κ
Each P = All (λ entry. P entry.0 entry.1)

module _ {ℓ κ} {K V : Type ℓ} ⦃e : Eq K⦄ (P : K → V → Type κ) where
  pub Each-put : (k : K) (v : V) (d : Dict K V) → Each P d → P k v → Each P (put k v d)
  unfolding put
  Each-put k v [] h p = (p, tt)
  Each-put k v ((j, w) ∷ d) h p =
      if_both (Each P) (j == k) ((j, v) ∷ d) ((j, w) ∷ put k v d)
        (λ here. (subst (λ x. P x v) (sym ((e.same_iff j k).0 here)) p, h.1))
        (λ _. (h.0, Each-put k v d h.1 p))

  pub Each-get : (k : K) (d : Dict K V) (v : V) → Each P d → get k d ≡ some v → P k v
  unfolding get
  Each-get k [] v h found = absurd (ground arith)
  Each-get k ((j, w) ∷ d) v h found = elim (if-some (j == k) w (get k d) v found) [
    | inl (here, same) ↦ subst₂ P ((e.same_iff j k).0 here) same h.0
    | inr (_, later) ↦ Each-get k d v h.1 later
  ]

  pub Each-remove : (k : K) (d : Dict K V) → Each P d → Each P (remove k d)
  unfolding remove
  Each-remove k [] h = tt
  Each-remove k ((j, w) ∷ d) h =
      if_both (Each P) (j == k) (remove k d) ((j, w) ∷ remove k d) (λ _. Each-remove k d h.1)
        (λ _. (h.0, Each-remove k d h.1))

  pub Each-keep : (p : K × V → Bool) (d : Dict K V) → Each P d → Each P (keep p d)
  Each-keep p [] h = tt
  Each-keep p (entry ∷ d) h =
      if_both (Each P) (p entry) (entry ∷ keep p d) (keep p d) (λ _. (h.0, Each-keep p d h.1))
        (λ _. Each-keep p d h.1)

  -- a value that a loop over `values()` finds comes with a key
  pub Each-find :
      (p : V → Bool) (d : Dict K V) (v : V)
      → Each P d
      → find p (values d) ≡ some v
      → (k : K) × P k v × (p v ≡ true)
  Each-find p [] v h found = absurd (ground arith)
  Each-find p ((j, w) ∷ d) v h found = elim (if-some (p w) w (find p (values d)) v found) [
    | inl (here, same) ↦ (j, subst (P j) same h.0, subst (λ x. p x ≡ true) same here)
    | inr (_, later) ↦ Each-find p d v h.1 later
  ]

  -- the property may be weakened
  pub Each-map {μ} :
      (Q : K → V → Type μ) (d : Dict K V) → ((k : K) (v : V) → P k v → Q k v) → Each P d → Each Q d
  Each-map Q [] f h = tt
  Each-map Q ((j, w) ∷ d) f h = (f j w h.0, Each-map Q d f h.1)

module _ {ℓ} {K V : Type ℓ} ⦃e : Eq K⦄ where
  -- no key stands twice
  abbrev pub Distinct : Dict K V → Type ℓ
  Distinct [] = Unit {ℓ}
  Distinct ((k, v) ∷ d) = (get k d ≡ none) × Distinct d

  pub Distinct-put : (k : K) (v : V) (d : Dict K V) → Distinct d → Distinct (put k v d)
  unfolding put get
  Distinct-put k v [] h = (refl, tt)
  Distinct-put k v ((j, w) ∷ d) h =
      if_both Distinct (j == k) ((j, v) ∷ d) ((j, w) ∷ put k v d) (λ _. h)
        (λ other.
          (ground (arith, get-put k j v d, e.same_iff j k, e.same_iff k j), Distinct-put k v d h.1))

  -- a filter leaves what it keeps readable, and adds nothing
  pub get-keep :
      (p : K × V → Bool) (k : K) (v : V) (d : Dict K V)
      → Distinct d
      → get k (keep p d) ≡ some v
      → get k d ≡ some v
  unfolding get
  get-keep p k v [] u h = h
  get-keep p k v ((j, w) ∷ d) u h = ground (arith, get-keep p k v d u.1, e.same_iff j k)

  get-keep-none :
      (p : K × V → Bool) (k : K) (d : Dict K V) → get k d ≡ none → get k (keep p d) ≡ none
  unfolding get
  get-keep-none p k [] h = refl
  get-keep-none p k ((j, w) ∷ d) h = ground (arith, get-keep-none p k d)

  pub Distinct-keep : (p : K × V → Bool) (d : Dict K V) → Distinct d → Distinct (keep p d)
  Distinct-keep p [] h = tt
  Distinct-keep p ((j, w) ∷ d) h =
      if_both Distinct (p (j, w)) ((j, w) ∷ keep p d) (keep p d)
        (λ _. (get-keep-none p j d h.0, Distinct-keep p d h.1)) (λ _. Distinct-keep p d h.1)

  -- a value that a loop over `values()` finds can be read under its key
  pub get-find :
      (p : V → Bool) (d : Dict K V) (v : V)
      → Distinct d
      → find p (values d) ≡ some v
      → (k : K) × (get k d ≡ some v) × (p v ≡ true)
  unfolding get
  get-find p [] v u h = absurd (ground arith)
  get-find p ((j, w) ∷ d) v u h = elim (if-some (p w) w (find p (values d)) v h) [
    | inl (here, same) ↦ (j, ground (arith, e.same_iff j j), subst (λ x. p x ≡ true) same here)
    | inr (_, later) ↦
        let (k, found, passed) = get-find p d v u.1 later in
        (k, ground (arith, e.same_iff j k), passed)
  ]

pub ruleset dict_laws = (get-put, get-remove)
