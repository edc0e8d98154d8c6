-- ===== src/Operatore.antt =====
-- src/operatore.c: an operator's day, from the search for a seat to its release.
pub mod Service
pub mod Shift
pub mod Deeds
pub mod OnSeat
pub mod Search
pub mod Balance
pub mod Each
pub mod Life
mod Tests
