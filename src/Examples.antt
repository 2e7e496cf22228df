-- ===== src/Examples.antt =====
-- Concrete runs: a toy instance of the cryptography, and the theorems at inputs that meet their
-- hypotheses.
pub mod World
pub mod ToyJson
mod Chain
mod Types
mod Pool
pub mod Disk
mod Fork
mod Network
mod Canonical
mod Production
mod Wire
mod Peers
mod Search
mod Files
mod Wallet
