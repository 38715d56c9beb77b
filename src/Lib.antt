-- ===== src/Lib.antt =====
-- qday-walletd is a custody daemon for the QDAY chain. A journal on disk (internal/meta) records which
-- key every address belongs to and which transactions the daemon has made; keys are derived from one
-- master seed (internal/derive); the service (internal/daemon) allocates addresses, builds, records
-- and submits transactions, and follows their confirmation.
--
-- Files and code:
--   Common         numbers, lists, texts and byte strings that the other files share
--   Types          errors, 128-bit amounts, and the imported packages' data and functions
--   Derive         internal/derive/derive.go: Seed, Keys, SwapSeed, SwapKeys
--   Meta.Tables    internal/meta/store.go: the schema of the tables, ORDER BY, LIMIT and OFFSET
--   Meta.Addresses, Meta.Withdrawals, Meta.Transactions
--                  internal/meta/store.go: one function for each method of Store
--   Meta.Writes    internal/meta: the statements that change a table, in any order
--   Meta.Swaps, Meta.Actions
--                  internal/meta/swap.go: one function for each method of Store
--   Daemon.Machine the state of internal/daemon/service.go's Service, and the calls it makes
--   Daemon.Inputs, Daemon.Wallet
--                  internal/daemon/service.go: the checks of inputs, the lock state, the addresses
--   Daemon.Chain   internal/daemon/node.go: NetworkSynced; service.go: broadcast
--   Daemon.Outputs, Daemon.Signing, Daemon.Transfer
--                  internal/daemon/service.go: spendableOutputs, performDefendWork, signInputs;
--                  swap.go: buildCustodyTransfer
--   Daemon.Withdraw
--                  internal/daemon/service.go: CreateWithdrawal, withdrawalView, Withdrawal, Withdrawals
--   Daemon.Rebroadcast
--                  internal/daemon/service.go: updateProofs, rebroadcast; swap.go: rebroadcastSwapActions
--   Daemon.Defend  internal/daemon/service.go: autoDefend
--   Daemon.Balance, Daemon.Deposits
--                  internal/daemon/service.go: Balance, Status, Deposits
--   Daemon.Swap    internal/daemon/swap.go: Keys, Session, Register, Fund, Spend and Action for what a
--                  client asks for; Spends, Observe, Worth, Listing and View for what it is shown; the
--                  other modules beside them hold the theorems
--   Daemon.Journaled, Daemon.Runs
--                  what is on disk when the pool is given a transaction; runs of calls and restarts
--   Daemon.Steps, Daemon.Preserves, Daemon.Ends, Daemon.Invariant
--                  rules that follow a run of an action, whether it succeeds or fails
--   Daemon.Deposits.Meaning
--                  the deposits that events mean to the journal, apart from how they are looked up
--   Api.Requests   internal/api/api.go: what a request carries, the check of auth, pagination
--   Api.Server     internal/api/api.go: New, auth, decode, writeJSON, writeError and the handlers
--   Recover        main.go: recoverAddresses, behind its flags and files
--   Sample, Daemon.Sample
--                  a concrete platform and a concrete node, for the tests
--
-- The model:
--   - The tables are lists of rows in the order of insertion. A statement is a function on them that
--     fails where a constraint or the driver refuses it; a statement takes effect as a whole. Times
--     are nanoseconds since 1970 and are cut to seconds in the tables. An absent row and a row that
--     cannot be read are told apart as in the code. A child index stays below 2^63, the driver's
--     bound, so MAX(child_index)+1 does not overflow SQLite's integers before a statement is refused.
--   - A 32-byte identifier, hash or key is the number that its bytes spell, big-endian.
--   - Functions of imported packages (go.sia.tech/core, walletd, crypto/hmac) are the record Platform;
--     what is relied on of them are named hypotheses (Codec, KeyLaws), which the sample platform meets.
--   - The node around the service is a World: the n-th call is answered for time n, and any call may
--     fail. So theorems for all worlds hold for every chain, reorganization and failure of the disk.
--     A write outside the service is noted in the trace of the state. The mutex of the service makes
--     each operation that takes it one step. A round of rebroadcast does not take it: its statements
--     may come between those of an operation, and that interleaving is not modelled. A round is an
--     action of its own; Meta.Writes is any sequence of statements of the store, which the theorems on
--     repeated calls allow between the calls.
--   - An error keeps its constant text; in service.go, values that are formatted into it are left out. A panic is an
--     error, as the HTTP server recovers it.
--   - The loop of Addresses reads pages of 10,000 rows on fuel: one more page than there are rows. The
--     loop of spendableOutputs reads one page more than `page_bound` of the World, the number of full
--     pages that its index can hold, the loops over the events of the wallet and the outputs of a contract likewise, the search for a nonce tries `nonce_bound` of them, and proofs are
--     carried on in `step_bound` steps. The real loops end only where the index, the work and the
--     chain let them; the fuel stands for that, and where it runs out the call fails.
--   - sort.Slice leaves equal elements in no set order; here they keep theirs. Heights stay below 2^64,
--     except that the confirmations of a recorded withdrawal wrap around, which is written out.
--
-- Not modelled: how net/http matches patterns and how JSON is read and written (a Decoder stands for
-- the latter), the constant headers of responses and the delay of an unlock, the other commands of main.go, opening the node and the database file, the
-- clearing of secrets in memory, logging, and the parts of the service that the list above leaves out.
pub mod Common
pub mod Derive
pub mod Types
pub mod Meta
pub mod Daemon
pub mod Api
pub mod Recover
pub mod Sample
