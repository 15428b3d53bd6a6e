-- ===== src/EventBus/Delivery.antt =====
-- What a published message becomes: an envelope in the queue, and what a bus does with that envelope.
use telemetry_backend.Prelude.{string_eq, nat_eq}
