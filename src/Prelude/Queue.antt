-- ===== src/Prelude/Queue.antt =====
-- `asyncio.Queue` and `queue.Queue` without waiting: `put_nowait`, `get_nowait`, `qsize`.
use Prim.Native.Nat.{ℕ, ◌≤◌}
use mathlib.Core.Path.{◌≡◌}
use mathlib.Core.Logic.{◌⊎◌}
use mathlib.Core.Bool.{Bool, true, false, ◌&&◌}
use mathlib.Core.Option.{Option, none, some}
use mathlib.Core.List.{List, [], ◌∷◌, ◌++◌}
use telemetry_backend.Prelude.Tests.{if◌then◌else◌, ltb, leb}
use telemetry_backend.Prelude.Lists.{length}

pub record Queue {ℓ} (A : Type ℓ) : Type ℓ where
  pub maxsize : ℕ
  pub items : List A

module _ {ℓ} {A : Type ℓ} where
  abbrev pub qsize : Queue A → ℕ
  qsize q = length q.items

  -- `maxsize <= 0` means that the queue is not bounded
  abbrev pub full : Queue A → Bool
  full q = ltb 0 q.maxsize && leb q.maxsize (length q.items)

  abbrev pub is_empty : Queue A → Bool
  is_empty q = elim q.items [ [] ↦ true | _ ∷ _ ↦ false ]

  -- `none` stands for `QueueFull`
  unfoldable pub put_nowait : A → Queue A → Option (Queue A)
  put_nowait x q = if full q then none else some (record q { items = q.items ++ x ∷ [] })

  -- `none` stands for `QueueEmpty`
  unfoldable pub get_nowait : Queue A → Option (A × Queue A)
  get_nowait q = elim q.items [ [] ↦ none | x ∷ xs ↦ some (x, record q { items = xs }) ]

  -- a queue with a bound never holds more than it
  abbrev pub Fits : Queue A → Type 0
  Fits q = (q.maxsize ≡ 0) ⊎ (length q.items ≤ q.maxsize)
