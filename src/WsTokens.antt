-- ===== src/WsTokens.antt =====
-- app/core/ws_tokens.py: single-use handoff tokens. The clock is a number of microseconds that is
-- passed in where the code reads `time()`; `consume` reads it twice.
pub mod History
use telemetry_backend.Prelude.{
  ℕ, String, Bool, true, false, none, some, [], ◌∷◌, leb, if◌then◌else◌, string_eq,
}
use telemetry_backend.Prelude.Dict
use telemetry_backend.Prelude.Dict.{Dict}

pub record WebSocketTokenRegistry : Type 0 where
  pub ttl_seconds : ℕ
  pub issued : Dict String ℕ

-- `_prune_locked`: the entries that have expired are popped
unfoldable pub prune : ℕ → Dict String ℕ → Dict String ℕ
prune now [] = []
prune now ((jti, expires_at) ∷ d) =
    let rest = prune now d in if leb expires_at now then rest else (jti, expires_at) ∷ rest

unfoldable pub register : ℕ → String → ℕ → WebSocketTokenRegistry → WebSocketTokenRegistry
register now jti expires_at r = record r { issued = Dict.put jti expires_at (prune now r.issued) }

unfoldable pub consume : ℕ → ℕ → String → WebSocketTokenRegistry → WebSocketTokenRegistry × Bool
consume now later jti r =
    let rest = Dict.remove jti r.issued in
    elim (Dict.get jti r.issued) [
      | none ↦ (record r { issued = prune later rest }, false)
      | some expires_at ↦
          if leb expires_at now
          then (record r { issued = prune later rest }, false)
          else (record r { issued = rest }, true)
    ]
