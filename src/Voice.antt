-- ===== src/Voice.antt =====
-- voice: the rooms of voice participants, the jitter buffer of a listener, and the datagrams.
pub mod Rooms
pub mod Jitter
pub mod Packets
pub mod UdpServer
pub mod UdpClient
