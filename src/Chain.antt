-- ===== src/Chain.antt =====
-- class Blockchain and class BlockchainState of bcws/blockchain.py: the state transition function
-- and the building of blocks.
pub mod State
pub mod Transfer
pub mod Supply
pub mod Blocks
pub mod Runs
pub mod Execution
pub mod Refusal
pub mod Replay
pub mod Building
