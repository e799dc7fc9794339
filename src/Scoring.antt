-- ===== src/Scoring.antt =====
-- scoring.py: signal orders, risk scores and bans.
pub mod Signals
pub mod Decay
pub mod Ban
pub mod Risk
