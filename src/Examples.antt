-- ===== src/Examples.antt =====
-- Concrete runs of the service, on which the theorems are applied.
pub mod Setup
pub mod Service
pub mod Operations
pub mod Errors
pub mod Sharing
pub mod Transcript
pub mod Process
pub mod Replies
pub mod Answers
pub mod Obeyed
