-- ===== src/Detection.antt =====
-- Detectors that keep state.
pub mod HoneyCred
pub mod Travel
pub mod Graphql
pub mod Cookies
pub mod Content
pub mod Sliding
pub mod Heuristic
pub mod Inject
pub mod Maze
pub mod Referer
