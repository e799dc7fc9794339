-- ===== src/RateLimit.antt =====
-- rate_limit.py: the token buckets of a socket address and of an identity, and the background
-- prune.
pub mod Bucket
pub mod SocketIp
pub mod Identity
pub mod Prune
