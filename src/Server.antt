-- ===== src/Server.antt =====
-- The chat server, server/src and server/include: one module for each part.
pub mod Types
pub mod Io
pub mod Words
pub mod Protocol
pub mod State
pub mod Queue
pub mod Users
pub mod Delivery
pub mod Handlers
pub mod Session
pub mod Listen
pub mod Valid
pub mod Effects
pub mod Tests
