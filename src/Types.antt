-- ===== src/Types.antt =====
-- The data that the daemon handles, in the shape in which internal/ uses the imported packages:
-- `types` and `consensus` of go.sia.tech/core and `wallet` of go.sia.tech/walletd. An identifier,
-- hash or public key, a `[32]byte`, is the number that its bytes spell.
mod Errors
mod Amounts
mod Imports
pub use Errors.*
unfoldable pub use Amounts.*
pub use Imports.*
