-- ===== src/Injection.antt =====
-- injection/: detectors for single inputs, a module for each.
pub mod Xss
pub mod Sql
pub mod Command
pub mod Nosql
pub mod Ldap
pub mod Xpath
pub mod Jndi
pub mod Ssi
pub mod Graphql
pub mod Ssti
pub mod Grading
