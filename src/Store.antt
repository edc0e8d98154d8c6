-- ===== src/Store.antt =====
-- The shared memory of include/poste.h under all that users and operators do to it at once.
pub mod Defs
pub mod Kept
pub mod Together
mod Tests
