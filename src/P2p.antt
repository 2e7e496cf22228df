-- ===== src/P2p.antt =====
-- bcws/p2p.py: which nodes this one is connected to, and the messages between them.
pub mod PeerList
pub mod Peers
pub mod Node
pub mod Tables
pub mod Reach
pub mod Runs
pub mod Broadcast
pub mod Shrinking
pub mod Hello
pub mod Handshake
