-- ===== src/Scram.antt =====
-- src/scram_verifier.rs
pub mod Split
pub mod Decimal
pub mod Crypto
pub mod Verifier
pub mod ClientFirst
pub mod Negotiate
pub mod Certificate
pub mod Utf8
pub mod Exchange
