-- ===== src/Daemon/Swap.antt =====
-- internal/daemon/swap.go: atomic swaps.
pub mod Keys
pub mod Action
pub mod Spends
pub mod Observe
pub mod Worth
pub mod Listing
pub mod View
pub mod Session
pub mod Register
pub mod Fund
pub mod Spend
pub mod Kept
pub mod Journaled
pub mod Shown
pub mod Funded
pub mod Spent
pub mod Accepted
pub mod Revealed
pub mod Sound
pub mod Final
pub mod Settled
mod Tests
mod Observations
