-- ===== src/Meta.antt =====
-- internal/meta: the SQLite journal of addresses, withdrawals and atomic swaps. A table is the list
-- of its rows in the order of insertion; an INSERT checks the constraints of the schema in
-- store.go, and a SELECT filters, orders and cuts the rows as its text says. Failures of the
-- driver or the disk are added where the daemon calls these functions (Daemon/Machine).
pub mod Tables
pub mod Codec
pub mod Transactions
pub mod Addresses
pub mod Withdrawals
pub mod Swaps
pub mod Actions
pub mod Writes
