-- ===== src/Runtime/Exec.antt =====
-- Actions on a state that may raise.
use telemetry_backend.Notifications.{Result, ok, raised}

abbrev pub Exec : Type 0 → Type 0 → Type 0
Exec S A = S → Result A × S

module _ {S V W : Type 0} where
  -- what follows an action: nothing, if it raised
  abbrev pub resume : (V → Exec S W) → Result V × S → Result W × S
  resume rest (ok v, s) = rest v s
  resume rest (raised error, s) = (raised error, s)

  infixl 10 ◌>>=◌ ◌>>◌
  abbrev pub ◌>>=◌ : Exec S V → (V → Exec S W) → Exec S W
  ◌>>=◌ action rest before = resume rest (action before)

  abbrev pub ◌>>◌ : Exec S V → Exec S W → Exec S W
  action >> other = action >>= λ _. other

module _ {S : Type 0} where
  abbrev pub pure : {V : Type 0} → V → Exec S V
  pure v before = (ok v, before)

  -- a change that does not raise
  abbrev pub modify : (S → S) → Exec S (Unit {0})
  modify f s = (ok tt, f s)
