-- ===== src/Runtime/Ensures.antt =====
-- Reasoning about actions: what holds of the state after an action and of the value it returns. `E`
-- is what is known when it raises: `Unit` says nothing, `⊥` says that it does not raise.
use telemetry_backend.Notifications.{Result, ok, raised}
use telemetry_backend.Runtime.Exec.{Exec, ◌>>=◌, resume}

abbrev pub Returns : {A : Type 0} → Type 0 → (A → Type 0) → Result A → Type 0
Returns E R (ok a) = R a
Returns E R (raised e) = E

abbrev pub Post : {S A : Type 0} → Type 0 → (S → Type 0) → (A → Type 0) → Result A × S → Type 0
Post E Q R (r, s) = Q s × Returns E R r

module _ {S V W : Type 0} (E : Type 0) (Q : S → Type 0) (R : V → Type 0) (R' : W → Type 0) where
  resume-Post :
      (rest : V → Exec S W) (r : Result V) (s : S)
      → Post E Q R (r, s)
      → ((v : V) (s' : S) → Q s' → R v → Post E Q R' (rest v s'))
      → Post E Q R' (resume rest (r, s))
  resume-Post rest (ok v) s h after = after v s h.0 h.1
  resume-Post rest (raised e) s h after = h

  -- a sequence ensures what its second action ensures after what the first one ensures
  pub bind-Post :
      (action : Exec S V) (rest : V → Exec S W) (s : S)
      → Post E Q R (action s)
      → ((v : V) (s' : S) → Q s' → R v → Post E Q R' (rest v s'))
      → Post E Q R' ((action >>= rest) s)
  bind-Post action rest s h after = resume-Post rest (action s).0 (action s).1 h after
