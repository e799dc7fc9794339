-- ===== src/Challenge.antt =====
-- challenge/: the proof-of-work challenge.
pub mod Decimal
pub mod Pow
