-- ===== src/Extended.antt =====
-- src/extended.rs
pub mod EmptyQuery
pub mod State
pub mod Action
pub mod Close
pub mod Bind
pub mod Handlers
pub mod Invariant
pub mod Requests
pub mod Spec
pub mod Refinement
pub mod Session
pub mod Conversation
pub mod Frame
pub mod Cleanup
