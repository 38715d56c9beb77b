-- ===== src/Daemon.antt =====
-- internal/daemon: the custody service over the chain manager, the wallet index and the journal.
pub mod Sample
pub mod Machine
pub mod Preserves
pub mod Steps
pub mod Ends
pub mod Invariant
pub mod Journaled
pub mod Inputs
pub mod Wallet
pub mod Chain
pub mod Outputs
pub mod Signing
pub mod Transfer
pub mod Withdraw
pub mod Rebroadcast
pub mod Defend
pub mod Balance
pub mod Deposits
pub mod Swap
pub mod Runs
