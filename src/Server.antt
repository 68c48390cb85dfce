-- ===== src/Server.antt =====
-- server: the state that the managers of one ConvoxService share, and the managers' methods.
mod State
pub mod Connections
pub mod Presence
pub mod RoomManager
pub mod FriendManager
pub mod Sessions
pub mod Matchmaker
pub mod Closed
unfoldable pub use State.*
