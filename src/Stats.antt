-- ===== src/Stats.antt =====
-- include/poste.h, the statistics in shared memory, and every update of them in src/operatore.c,
-- src/utente.c and src/direttore.c.
pub mod Defs
pub mod Updates
pub mod Summary
pub mod Totals
pub mod Refines
mod Tests
