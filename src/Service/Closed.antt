-- ===== src/Service/Closed.antt =====
-- Invariants of the whole service: a property that the writes of the methods keep, each handler keeps.
pub mod Writes
pub mod Rooms
pub mod Uploads
pub mod Handlers
pub mod Connection
pub mod OfDatabase
pub mod OfFields
