-- ===== src/Tests.antt =====
-- The theorems at concrete inputs: a small instance of what surrounds the program, and a run of each
-- part on it.
mod Crypto
mod Scram
mod Store
mod Extended
mod Startup
mod Server
mod Shutdown
mod Query
mod Repr
