-- ===== src/Data.antt =====
-- data/: detectors for single inputs, a module for each.
pub mod CsvInjection
pub mod MailHeader
pub mod PrototypePollution
pub mod Deserialization
pub mod Languages
pub mod JwtAttack
pub mod Header
pub mod Grading
mod Tests
