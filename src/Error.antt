-- ===== src/Error.antt =====
-- src/errors.rs
pub mod Info
pub mod PgWire
pub mod Classes
pub mod Text
pub mod Boundary
pub mod RoundTrip
pub mod Hierarchy
pub mod Raise
pub mod Repr
