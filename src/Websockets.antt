-- ===== src/Websockets.antt =====
-- app/services/websocket_manager.py: WebSocketManager. A client is a number, the set of clients a list
-- without repetitions. A broadcast is two steps, the copy of the set and what follows `gather`, since
-- other tasks run while the messages are sent; `sends` says for which clients `send_text` succeeds.
-- What `close` does in `disconnect_all` is ignored, as the code ignores it.
pub mod Broadcast
use telemetry_backend.Prelude.{
  ℕ, Bool, true, false, not, ◌&&◌, List, [], ◌∷◌, ◌++◌, nat_eq, ◌==◌, if◌then◌else◌, elem, keep,
  length,
}
use telemetry_backend.Metrics.{Metrics, increment}

pub record WebSocketManager : Type 0 where
  pub clients : List ℕ
  pub metrics : Metrics

unfoldable pub register : ℕ → WebSocketManager → WebSocketManager
register websocket w = record w {
  clients = if elem websocket w.clients then w.clients else w.clients ++ websocket ∷ [];
  metrics = increment "websocket_connections_total" 1 w.metrics;
}

unfoldable pub unregister : ℕ → WebSocketManager → WebSocketManager
unregister websocket w = record w { clients = keep (λ c. not (c == websocket)) w.clients }

-- list(self._clients), or nothing to send to
abbrev pub snapshot : WebSocketManager → List ℕ
snapshot w = w.clients

-- the clients of the copy whose `send_text` raised
abbrev pub failed : (ℕ → Bool) → List ℕ → List ℕ
failed sends clients = keep (λ c. not (sends c)) clients

unfoldable pub discard_all : List ℕ → WebSocketManager → WebSocketManager
unfolding unregister
discard_all [] w = w
discard_all (c ∷ cs) w = discard_all cs (unregister c w)

-- the second half of `broadcast`, after the copy was made
unfoldable pub finish_broadcast : (ℕ → Bool) → List ℕ → WebSocketManager → WebSocketManager
unfolding discard_all
finish_broadcast sends copied w = discard_all (failed sends copied) w

unfoldable pub disconnect_all : WebSocketManager → WebSocketManager
disconnect_all w = record w { clients = [] }

abbrev pub client_count : WebSocketManager → ℕ
client_count w = length w.clients
