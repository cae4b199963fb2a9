-- ===== src/Design.antt =====
-- backend/src/app/services: the experiments of a user, their results, and the links that share them.
pub mod Experiments
pub mod Shares
mod Tests
