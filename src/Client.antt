-- ===== src/Client.antt =====
-- internal/client: what guards the calls of the model endpoints.
pub mod Breaker
