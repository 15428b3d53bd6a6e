-- ===== src/Topology/Search.antt =====
-- The search ends, and finds a cycle exactly if there is one.
use telemetry_backend.Prelude.{
  ℕ, zero, suc, ◌+◌, ◌≤◌, ◌<◌, ◌≡◌, ◌≢◌, refl, sym, ◌∙◌, String, Bool, true, false, List, [], ◌∷◌,
  string_eq, ◌==◌, ==_iff, ==_refl, if◌then◌else◌, elem, arith, length, Bool-cases, inl, inr, ◌⊎◌,
}
use mathlib.Core.Path.{subst}
use telemetry_backend.Prelude.Dict
use telemetry_backend.Prelude.Dict.{Dict}
use telemetry_backend.Topology.{
  ServiceDependency, targets, link, adjacency_of, extend, Verdict, cycle, no_cycle, out_of_fuel,
  search, enough, would_create_cycle,
}
use telemetry_backend.Topology.Graph.{has_edge, Leads, here, step, targets-link, elem-targets_fresh}

length-extend : (xs stack : List String) → length (extend xs stack) ≡ length xs + length stack
length-extend [] stack = omega arith
length-extend (x ∷ xs) stack = omega (arith, length-extend xs (x ∷ stack))

elem-extend :
    (a : String) (xs stack : List String)
    → elem a (extend xs stack) ≡ (if elem a xs then true else elem a stack)
elem-extend a [] stack = refl
elem-extend a (x ∷ xs) stack = ground (arith, elem-extend a xs (x ∷ stack))

-- the targets that are still to be pushed
unexplored : List String → Dict String (List String) → ℕ
unexplored visited [] = 0
unexplored visited ((k, ts) ∷ d) = (if elem k visited then 0 else length ts) + unexplored visited d

unexplored-cons :
    (u : String) (visited : List String) (d : Dict String (List String))
    → elem u visited ≡ false
    → length (targets u d) + unexplored (u ∷ visited) d ≤ unexplored visited d
unfolding Dict.get unexplored
unexplored-cons u visited [] h = omega arith
unexplored-cons u visited ((k, ts) ∷ d) h =
    ground (arith, unexplored-cons u visited d h, unexplored-le u visited d, ==_iff k u)
  where
    unexplored-le :
        (u : String) (visited : List String) (d : Dict String (List String))
        → unexplored (u ∷ visited) d ≤ unexplored visited d
    unexplored-le u visited [] = omega arith
    unexplored-le u visited ((k, ts) ∷ d) = ground (arith, unexplored-le u visited d)

-- With fuel for the stack and for what is unexplored, the search ends.
search_ends :
    (adjacency : Dict String (List String)) (source : String) (fuel : ℕ)
    (stack visited : List String)
    → length stack + unexplored visited adjacency < fuel
    → search adjacency source fuel stack visited ≢ out_of_fuel
unfolding search
search_ends adjacency source zero stack visited h = absurd (omega arith)
search_ends adjacency source (suc fuel) [] visited h = ground arith
search_ends adjacency source (suc fuel) (u ∷ stack) visited h = elim (Bool-cases (elem u visited)) [
  | inl known ↦
      let ih = search_ends adjacency source fuel stack visited (omega arith) in ground arith
  | inr fresh ↦
      let ih =
        search_ends adjacency source fuel (extend (targets u adjacency) stack) (u ∷ visited) (
          omega (
            arith,
            unexplored-cons u visited adjacency fresh,
            length-extend (targets u adjacency) stack,
          )) in
      ground arith
]

unexplored-enough :
    (visited : List String) (d : Dict String (List String)) → unexplored visited d + 2 ≤ enough d
unfolding unexplored
unexplored-enough visited [] = omega arith
unexplored-enough visited ((k, ts) ∷ d) = ground (arith, unexplored-enough visited d)

-- is it on the stack or already visited?
abbrev inside : String → List String → List String → Bool
inside a stack visited = if elem a visited then true else elem a stack

module _ (rows : List ServiceDependency) (adjacency : Dict String (List String))
    (rel : (u v : String) → elem v (targets u adjacency) ≡ has_edge rows u v)
    (source target : String) where
  -- everything on the stack can be reached
  Reached : List String → Type 0
  Reached stack = (a : String) → elem a stack ≡ true → Leads rows target a

  Reached-extend :
      (u : String) (stack : List String)
      → Leads rows target u
      → Reached stack
      → Reached (extend (targets u adjacency) stack)
  unfolding Reached
  Reached-extend u stack p h a m = elim (Bool-cases (elem a (targets u adjacency))) [
    | inl edge ↦ step p (sym (rel u a) ∙ edge)
    | inr other ↦ h a (ground (arith, elem-extend a (targets u adjacency) stack))
  ]

  search-cycle :
      (fuel : ℕ) (stack visited : List String)
      → Reached stack
      → search adjacency source fuel stack visited ≡ cycle
      → Leads rows target source
  unfolding search Reached
  search-cycle zero stack visited h e = absurd (ground arith)
  search-cycle (suc fuel) [] visited h e = absurd (ground arith)
  search-cycle (suc fuel) (u ∷ stack) visited h e = elim (Bool-cases (u == source)) [
    | inl found ↦
        subst (λ x. Leads rows target x) ((==_iff u source).0 found)
          (h u (ground (arith, ==_refl u)))
    | inr other ↦ elim (Bool-cases (elem u visited)) [
      | inl known ↦ search-cycle fuel stack visited (λ a m. h a (ground arith)) (ground arith)
      | inr fresh ↦
          search-cycle fuel (extend (targets u adjacency) stack) (u ∷ visited)
            (Reached-extend u stack (h u (ground (arith, ==_refl u))) (λ a m. h a (ground arith)))
            (ground arith)
    ]
  ]

  -- every edge from a visited service leads to one that is visited or on the stack
  Closed : List String → List String → Type 0
  Closed stack visited =
      (u v : String)
      → elem u visited ≡ true
      → has_edge rows u v ≡ true
      → inside v stack visited ≡ true

  search-no_cycle :
      (fuel : ℕ) (stack visited : List String)
      → elem source visited ≡ false
      → Closed stack visited
      → search adjacency source fuel stack visited ≡ no_cycle
      → (final : List String) × (elem source final ≡ false)
        × Closed [] final
        × ((a : String) → inside a stack visited ≡ true → elem a final ≡ true)
  unfolding search Closed
  search-no_cycle zero stack visited out h e = absurd (ground arith)
  search-no_cycle (suc fuel) [] visited out h e = (visited, out, h, λ a m. ground arith)
  search-no_cycle (suc fuel) (u ∷ stack) visited out h e = elim (Bool-cases (u == source)) [
    | inl found ↦ absurd (ground arith)
    | inr other ↦ elim (Bool-cases (elem u visited)) [
      | inl known ↦
          let (final, a, b, c) =
            search-no_cycle fuel stack visited out
              (λ x y m edge. ground (arith, h x y m edge, ==_iff y u)) (ground arith) in
          (final, a, b, λ x m. c x (ground (arith, ==_iff x u)))
      | inr fresh ↦
          let (final, a, b, c) =
            search-no_cycle fuel (extend (targets u adjacency) stack) (u ∷ visited)
              (ground (arith, ==_iff source u, ==_iff u source))
              (λ x y m edge. ground (
                arith,
                h x y,
                edge,
                m,
                ==_iff x u,
                ==_iff y u,
                ==_iff u y,
                elem-extend y (targets u adjacency) stack,
                rel u y,
              ))
              (ground arith) in
          (
            final,
            a,
            b,
            λ x m. c x (ground (arith, elem-extend x (targets u adjacency) stack, ==_iff x u)),
          )
    ]
  ]

  reached_within :
      (final : List String)
      → Closed [] final
      → elem target final ≡ true
      → (v : String) → Leads rows target v
      → elem v final ≡ true
  unfolding Closed
  reached_within final h m v here = m
  reached_within final h m w (step {v} p edge) =
      ground (arith, h v w (reached_within final h m v p) edge)

  -- where the fuel is enough, one of the two verdicts is given, and it is the right one
  search-decides :
      (fuel : ℕ)
      → 1 + unexplored [] adjacency < fuel
      → ((search adjacency source fuel (target ∷ []) [] ≡ cycle) × Leads rows target source)
        ⊎ ((search adjacency source fuel (target ∷ []) [] ≡ no_cycle) × ¬ Leads rows target source)
  unfolding Reached Closed
  search-decides fuel h = go (search adjacency source fuel (target ∷ []) []) refl
    where
      go :
          (v : Verdict)
          → search adjacency source fuel (target ∷ []) [] ≡ v
          → ((search adjacency source fuel (target ∷ []) [] ≡ cycle) × Leads rows target source)
            ⊎ ((search adjacency source fuel (target ∷ []) [] ≡ no_cycle)
                × ¬ Leads rows target source)
      go cycle e = inl (
        e,
        search-cycle fuel (target ∷ []) []
            (λ a m. subst (λ x. Leads rows target x) (start a m) here) e,
      )
        where
          start : (a : String) → elem a (target ∷ []) ≡ true → target ≡ a
          start a m = ground (arith, ==_iff a target)
      go no_cycle e =
          let (final, out, closed, kept) =
            search-no_cycle fuel (target ∷ []) [] refl (λ u v m edge. absurd (ground arith)) e in
          inr (
            e,
            λ p. cc (
              out,
              reached_within final closed (kept target (ground (arith, ==_refl target))) source p,
            ),
          )
      go out_of_fuel e = absurd (search_ends adjacency source fuel (target ∷ []) [] (omega arith) e)

-- The search never runs out of its fuel: it says that the new row would make a cycle exactly if, with that
-- row among the others, the dependencies lead from its target back to its source.
pub would_create_cycle-decides :
    (source target : String) (rows : List ServiceDependency) (new : ServiceDependency)
    → new.source_service_id ≡ source
    → new.target_service_id ≡ target
    → ((would_create_cycle source target rows ≡ cycle) × Leads (new ∷ rows) target source)
      ⊎ ((would_create_cycle source target rows ≡ no_cycle) × ¬ Leads (new ∷ rows) target source)
unfolding would_create_cycle
would_create_cycle-decides source target rows new from to =
    let adjacency = link source target (adjacency_of rows []) in
    search-decides (new ∷ rows) adjacency (λ u v. rel u v) source target (enough adjacency)
      (omega (arith, unexplored-enough [] adjacency))
  where
    rel :
        (u v : String)
        → elem v (targets u (link source target (adjacency_of rows []))) ≡ has_edge (new ∷ rows) u v
    rel u v =
        targets-link source target u v (adjacency_of rows [])
        ∙ ground (arith, elem-targets_fresh rows u v, from, to)
