-- ===== src/Prelude/Sets.antt =====
-- Python's set of texts, as a list without repetitions in the order of insertion.
use mathlib.Core.Path.{◌≡◌, refl, ◌∙◌}
use mathlib.Core.Bool.{Bool, true, false, not}
use mathlib.Core.List.{List, [], ◌∷◌, ◌++◌}
use Prim.Native.String.{String}
use native.Mathlib.Omega.{arith}
use telemetry_backend.Prelude.Tests.{if◌then◌else◌, ◌==◌, ==_iff, ==_refl, string_eq}
use telemetry_backend.Prelude.Lists.{elem, keep}

-- s.add(a)
abbrev pub add : String → List String → List String
add a s = if elem a s then s else s ++ a ∷ []

-- s.discard(a)
abbrev pub discard : String → List String → List String
discard a s = keep (λ b. not (a == b)) s

abbrev pub is_empty_set : List String → Bool
is_empty_set [] = true
is_empty_set (a ∷ s) = false

pub elem-add :
    (a b : String) (s : List String) → elem a (add b s) ≡ (if a == b then true else elem a s)
elem-add a b s = go (elem b s) refl
  where
    last : (s : List String) → elem a (s ++ b ∷ []) ≡ (if a == b then true else elem a s)
    last [] = refl
    last (c ∷ s) = ground (arith, last s)

    same : a ≡ b → elem b s ≡ true → elem a s ≡ true
    same e h = rw e h

    go :
        (known : Bool)
        → elem b s ≡ known
        → elem a (if known then s else s ++ b ∷ []) ≡ (if a == b then true else elem a s)
    go true h = ground (arith, ==_iff a b, same)
    go false h = last s

pub elem-discard : (a b : String) (s : List String) → elem a (discard b s) ≡ true → elem a s ≡ true
elem-discard a b [] h = h
elem-discard a b (c ∷ s) h = ground (arith, elem-discard a b s)

pub elem-add_self : (a : String) (s : List String) → elem a (add a s) ≡ true
elem-add_self a [] = ground (arith, ==_refl a)
elem-add_self a (b ∷ s) = elem-add a a (b ∷ s) ∙ ground (arith, ==_refl a)
