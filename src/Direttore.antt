-- ===== src/Direttore.antt =====
-- src/direttore.c: the director's clock, the new days, the users added at run time, and the end.
pub mod Defs
pub mod Children
pub mod Clock
pub mod Report
pub mod Ending
pub mod StatsFile
pub mod Duration
pub mod Start
pub mod Segments
pub mod Format
pub mod Table
pub mod Csv
pub mod Rows
pub mod Cells
pub mod Written
pub mod Screen
pub mod Shown
pub mod Entries
pub mod OnScreen
mod Tests
mod FileTests
