-- ===== src/Pipeline.antt =====
-- Limits and the circuit breaker around the request pipeline.
pub mod Windows
pub mod Circuit
