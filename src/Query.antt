-- ===== src/Query.antt =====
-- src/query.rs: results on their way from a Python handler to the wire.
pub mod Field
pub mod Row
pub mod Response
pub mod Repr
