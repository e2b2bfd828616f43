-- ===== src/Startup.antt =====
-- The startup of a connection: `PyStartupHandler` of src/server.rs and `ScramVerifierStartupHandler`
-- of src/scram_verifier.rs.
pub mod Connection
pub mod Scram
