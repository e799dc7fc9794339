-- ===== src/Endpoint.antt =====
-- integrations/endpoint_policy.py: the policies and limits of single endpoints.
pub mod Policy
pub mod Buckets
pub mod Rules
