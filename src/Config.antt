-- ===== src/Config.antt =====
-- include/config.h and src/systems/config.c: the settings, and the reader of a configuration file.
pub mod Defs
pub mod Scan
pub mod Numbers
pub mod Load
pub mod Valid
pub mod Entry
pub mod Settings
pub mod Effect
pub mod RoundTrip
pub mod Decimal
pub mod LongLine
pub mod Lines
mod Tests
