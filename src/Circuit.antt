-- ===== src/Circuit.antt =====
-- The two circuit breakers: of the delivery queue (internal/activitypub/delivery_queue.go), keyed
-- by peer domain, and of the upstream fetcher (internal/upstream/circuit.go), keyed by registry.
pub mod Delivery
pub mod Upstream
pub mod Opening
pub mod Counting
