-- ===== src/Stations.antt =====
-- include/poste.h, the worker seats in shared memory, and what src/operatore.c, src/utente.c and
-- src/direttore.c do with them.
pub mod Defs
pub mod Search
pub mod NewDay
pub mod Operators
pub mod Sharing
pub mod Users
pub mod Below
mod Tests
