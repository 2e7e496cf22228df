-- ===== src/Network.antt =====
-- bcws/network.py, and recv_exact of bcws/utils.py.
pub mod Address
pub mod Socket
pub mod Reading
pub mod Server
pub mod Framing
pub mod Closing
