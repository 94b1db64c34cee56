-- ===== src/FileChecks.antt =====
-- file/: detectors for single inputs, a module for each.
pub mod PathTraversal
pub mod Upload
pub mod DataLeak
pub mod Extension
pub mod Grading
