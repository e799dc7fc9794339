-- ===== src/State.antt =====
-- state.py: the record kept for each identity, and the bounded table that holds those records.
pub mod IpState
pub mod Table
