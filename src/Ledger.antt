-- ===== src/Ledger.antt =====
-- The package ledger/sidecar/internal/ledger: transactions, the store interface, Apply and the
-- in-memory store.
pub mod Tx
pub mod Store
pub mod Apply
pub mod Chain
pub mod Invariant
pub mod History
pub mod Replay
pub mod MemStore
pub mod Binding
pub mod Accept
pub mod Tests
