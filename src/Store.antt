-- ===== src/Store.antt =====
-- The package ledger/sidecar/internal/store, on Postgres: so far its tables of rewards.
pub mod RewardEvents
pub mod Postgres
mod Tests
