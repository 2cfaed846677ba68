-- ===== src/Untrusted.antt =====
-- client/untrusted and server/untrusted: the processes around the enclaves.
pub mod User
pub mod Sockets
pub mod Delivery
pub mod Node
pub mod Stuck
pub mod Launch
pub mod Tokens
pub mod Server
pub mod Registration
pub mod Errors
pub mod Explained
