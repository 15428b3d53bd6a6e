-- ===== src/Websockets/Broadcast.antt =====
-- Which clients are left while broadcasts and other tasks interleave.
use telemetry_backend.Prelude.{
  ℕ, ◌≡◌, ap, ◌∙◌, Bool, true, false, not, ◌&&◌, ◌||◌, List, [], ◌∷◌, ◌++◌, nat_eq, ◌==◌, ==_iff,
  elem, keep, arith, All, ◌↔◌,
}
use telemetry_backend.Websockets.{
  WebSocketManager, register, unregister, snapshot, failed, discard_all, finish_broadcast,
  disconnect_all,
}

-- A step of a task. `copied` starts a broadcast, `finished` ends the oldest that was started.
pub data Step : Type 0 where
  registered unregistered : ℕ → Step
  copied : Step
  finished : (ℕ → Bool) → Step
  disconnected : Step

-- the manager with the copies of the broadcasts that are under way
pub record Server : Type 0 where
  pub manager : WebSocketManager
  pub copies : List (List ℕ)

unfoldable pub finish_oldest : (ℕ → Bool) → List (List ℕ) → WebSocketManager → Server
finish_oldest sends [] w = record { manager = w; copies = [] }
finish_oldest sends (c ∷ cs) w = record { manager = finish_broadcast sends c w; copies = cs }

unfoldable pub step : Step → Server → Server
unfolding finish_oldest
step (registered c) s = record s { manager = register c s.manager }
step (unregistered c) s = record s { manager = unregister c s.manager }
step copied s = record s { copies = s.copies ++ snapshot s.manager ∷ [] }
step (finished sends) s = finish_oldest sends s.copies s.manager
step disconnected s = record s { manager = disconnect_all s.manager }

unfoldable pub run : List Step → Server → Server
unfolding step
run [] s = s
run (x ∷ steps) s = run steps (step x s)

elem-append_one : (c d : ℕ) (cs : List ℕ) → elem c (cs ++ d ∷ []) ≡ (elem c cs || (c == d))
elem-append_one c d [] = ground arith
elem-append_one c d (e ∷ cs) = ground (arith, elem-append_one c d cs)

elem-keep : (c : ℕ) (p : ℕ → Bool) (cs : List ℕ) → elem c (keep p cs) ≡ (elem c cs && p c)
elem-keep c p [] = ground arith
elem-keep c p (d ∷ cs) = ground (arith, elem-keep c p cs, ==_iff c d, keeps)
  where
    keeps : c ≡ d → p c ≡ p d
    keeps e = ap p e

elem-register :
    (c d : ℕ) (w : WebSocketManager)
    → elem c (register d w).clients ≡ (elem c w.clients || (c == d))
unfolding register
elem-register c d w = ground (arith, elem-append_one c d w.clients, ==_iff c d, same)
  where
    same : c ≡ d → elem c w.clients ≡ elem d w.clients
    same e = ap (λ x. elem x w.clients) e

elem-unregister :
    (c d : ℕ) (w : WebSocketManager)
    → elem c (unregister d w).clients ≡ (elem c w.clients && not (c == d))
unfolding unregister
elem-unregister c d w = elem-keep c (λ x. not (x == d)) w.clients

elem-discard_all :
    (c : ℕ) (cs : List ℕ) (w : WebSocketManager)
    → elem c (discard_all cs w).clients ≡ (elem c w.clients && not (elem c cs))
unfolding discard_all
elem-discard_all c [] w = ground arith
elem-discard_all c (d ∷ cs) w =
    elem-discard_all c cs (unregister d w) ∙ ground (arith, elem-unregister c d w)

elem-finish_broadcast :
    (c : ℕ) (sends : ℕ → Bool) (copy : List ℕ) (w : WebSocketManager)
    → elem c (finish_broadcast sends copy w).clients
      ≡ (elem c w.clients && not (elem c copy && not (sends c)))
unfolding finish_broadcast
elem-finish_broadcast c sends copy w =
    elem-discard_all c (failed sends copy) w ∙ ground (arith, elem-keep c (λ d. not (sends d)) copy)

-- the step neither ends the connection of the client nor sends to it in vain
abbrev pub Spares : ℕ → Step → Type 0
Spares c (registered d) = Unit {0}
Spares c (unregistered d) = (c == d) ≡ false
Spares c copied = Unit {0}
Spares c (finished sends) = sends c ≡ true
Spares c disconnected = false ≡ true

step-elem :
    (c : ℕ) (x : Step) (s : Server)
    → Spares c x
    → elem c s.manager.clients ≡ true
    → elem c (step x s).manager.clients ≡ true
unfolding step finish_oldest
step-elem c (registered d) s ok h = ground (arith, elem-register c d s.manager, h)
step-elem c (unregistered d) s ok h = ground (arith, elem-unregister c d s.manager, h, ok)
step-elem c copied s ok h = h
step-elem c (finished sends) s ok h = oldest s.copies
  where
    oldest :
        (copies : List (List ℕ))
        → elem c (finish_oldest sends copies s.manager).manager.clients ≡ true
    oldest [] = h
    oldest (copy ∷ copies) = ground (arith, elem-finish_broadcast c sends copy s.manager, h, ok)
step-elem c disconnected s ok h = absurd (ground arith)

-- However broadcasts, connections and disconnections of other clients interleave, a client stays
-- connected as long as it is not unregistered, no `disconnect_all` happens, and each message
-- that is sent to it arrives: the failure of another client never removes it.
pub run-stays :
    (c : ℕ) (steps : List Step) (s : Server)
    → All (Spares c) steps
    → elem c s.manager.clients ≡ true
    → elem c (run steps s).manager.clients ≡ true
unfolding run
run-stays c [] s ok h = h
run-stays c (x ∷ steps) s (ok, oks) h = run-stays c steps (step x s) oks (step-elem c x s ok h)

-- A broadcast that ends removes exactly the clients of its copy to which it could not send: whoever
-- is connected then and was not connected when it began stays, whatever would have happened to a message.
pub finish_broadcast-removes :
    (c : ℕ) (sends : ℕ → Bool) (copy : List ℕ) (w : WebSocketManager)
    → elem c w.clients ≡ true
    → (elem c (finish_broadcast sends copy w).clients ≡ false)
      ↔ ((elem c copy ≡ true) × (sends c ≡ false))
finish_broadcast-removes c sends copy w h = (
  λ e. (
    ground (arith, elem-finish_broadcast c sends copy w, h, e),
    ground (arith, elem-finish_broadcast c sends copy w, h, e),
  ),
  λ (both : (elem c copy ≡ true) × (sends c ≡ false)).
      ground (arith, elem-finish_broadcast c sends copy w, h, both.0, both.1),
)
