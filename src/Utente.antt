-- ===== src/Utente.antt =====
-- src/utente.c: what a user decides before a day at the post office, and the day itself.
pub mod Choices
pub mod Services
pub mod Visit
pub mod Accounts
pub mod Calls
pub mod Day
pub mod Each
pub mod Told
pub mod Life
mod Tests
