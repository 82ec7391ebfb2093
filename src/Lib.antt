-- ===== src/Lib.antt =====
-- A verification library for discourse-points-system, the points ledger of a forum: a sidecar
-- service in Go (ledger/sidecar) that keeps one account per forum user and an append-only log of
-- signed transactions, and publishes the log as a Merkle tree.
--
-- The parts and how they interact. A submitted transaction goes through Apply, which checks its
-- signature, opens a transaction of the store, puts the entry at the end of the hash chain, runs
-- the handler of its type, appends it and commits; on any error it rolls back. The HTTP API, the
-- rewards service and the commands all write through Apply. The log service hashes the entries as
-- the leaves of a tree and hands out inclusion proofs, which clients verify.
--
-- Which file models what.
--   Prelude: lists measured by native numbers, int64 with its wrap-around, Go maps as association
--     lists, and code that changes a state and may fail (a failed call leaves what it wrote).
--   Ledger/Tx: ledger/sidecar/internal/ledger/tx.go.
--   Ledger/Store, Ledger/Apply: ledger/sidecar/internal/ledger/apply.go, the interfaces, Apply and
--     its handlers over any store; the handlers' names are the source's (applyTransfer is
--     apply_transfer). The children of Ledger/Apply hold the theorems on each handler.
--   Ledger/MemStore: ledger/sidecar/internal/ledger/memstore.go; its children hold the agreement
--     of the two maps, the sum of the balances and what both give together.
--   Ledger/Chain, Invariant, History, Replay, Accept, Binding: the hash chain, the invariant of
--     the ledger, sequences of submissions, replays, what is accepted, what a hash commits to.
--   Merkle: ledger/sidecar/internal/merkle/tree.go, its hashes, roots, inclusion proofs and their
--     verifier; the children hold the split, completeness and soundness.
--   Merkle/Consistency: the same file's consistency proofs and the walk that checks them, on
--     uint64 sizes; its children hold the digits, the rounds of the walk with an entry added or
--     taken off, completeness and soundness.
--   Store/Postgres: ledger/sidecar/internal/store/pgstore.go, the ledger's transaction over the
--     tables accounts and transactions, with the constraints of its migrations; Store/Postgres/Rows,
--     Transfer and Accept: a transfer on it.
--   Store/RewardEvents: the statements on reward_events and reward_config in
--     ledger/sidecar/internal/store/pgstore.go, as tables keyed by their primary keys.
--   Rewards, Rewards/Webhook: ledger/sidecar/internal/rewards/webhook.go, the payment over any
--     store and any table of rewards, and the webhook handler. Rewards/Payment puts it on the
--     Postgres tables; its children count payments and say what one moves.
--   Api: ledger/sidecar/internal/api/server.go, the handlers register and submitTx on decoded
--     requests, and normalizeDiscourseIDs; Api/Submit puts both handlers in one sequence.
--     Api/CurrentUser is the user of a request, Api/Reads the handlers that read, with Balances and
--     Treasury on what they answer.
--   Auth: ledger/sidecar/internal/auth/discourse_connect.go, the login through Discourse; its
--     children hold the handlers Login and Callback (Handlers), the signed cookies (Session), what a sign-in shows (Flow) and that a login
--     completes (Complete). Prelude/Base64 is the encoding that it uses.
--   Admin: ledger/sidecar/internal/admin/server.go, the admin's login, session and guard; its
--     children hold the handlers and the guard (Handlers), signed tokens (Session), what the guard
--     lets through (Access), the rewards that are configured (Config) and anchoring a head (Anchor,
--     with ledger/sidecar/internal/ots/anchor.go).
--   TxLog: ledger/sidecar/internal/txlog/service.go, the snapshot with its cache and its rows; the
--     children hold what a call reads (Fetch) and answers (Exact), calls that interleave (Calls),
--     pages of entries (Range), tree heads and the table of checkpoints (Signing, Heads, Published).
--   Api/Log: ledger/sidecar/internal/api/log.go, the handlers that serve heads, entries and proofs.
--   Audit: ledger/sidecar/cmd/ledger-verify/main.go, what it checks of the downloaded log;
--     Audit/Head is the signature of the tree head, Audit/Download the loop over the pages.
--   Ledger/Tests, Merkle/Tests, Store/Tests, TxLog/Tests, Rewards/Tests, Api/Tests,
--     Api/Reads/Tests, Auth/Tests, Admin/Tests, Audit/Tests: runs on toy parameters, and the theorems at those.
--
-- Choices. An int64 is an integer, and each addition and subtraction on it is wrapped to 64
-- bits; Go's int for sizes and indices of lists is unbounded, and so is the index that the
-- audit's download goes on from, which does not exceed the int64 size of the tree. SHA-256,
-- Ed25519 and encoding/json are fields of Env, or a parameter; where a theorem needs that
-- SHA-256 gives 32 bytes, it says so. No theorem assumes that SHA-256 has no collisions: those
-- that need it give the collision instead. A transaction's pointer is passed as a value: Apply
-- returns the caller's transaction as it leaves it. The store in memory keeps the caller's
-- pointer, so a caller that changes the transaction afterwards changes the log; that aliasing is
-- not modelled. The recursions on the tree take fuel, the length of the list or of the proof,
-- which is enough, as the theorems on them show (each step cuts the list into two shorter ones,
-- or takes an entry off the proof); the loops over binary digits take the number as fuel, which
-- halves in each round, and the download of the log takes a number of rounds above its size.
-- Contexts, mutexes and concurrent calls are left out: Apply runs one call at a time, which the
-- ledger lock enforces in the database and which the store in memory leaves to its caller. The
-- rewards service's retries are eight, as in the source. Connections to the database do not fail
-- in the tables of rewards, and the reference of a reward event to a transaction is not checked
-- there; the service itself is over an interface whose calls may fail. An audit's leaves, a
-- submission's fields and a webhook's headers come decoded, and the router is left out. A
-- handler of the login takes the clock's readings and the random bytes as arguments.
--
-- Not modelled: the rate limiter and the router of the HTTP API, the migrations and the readers of
-- history in Postgres, the lists of the admin console, and the other commands; the theme is
-- JavaScript.
pub mod Prelude
pub mod Admin
pub mod Api
pub mod Audit
pub mod Auth
pub mod Ledger
pub mod Merkle
pub mod Rewards
pub mod Store
pub mod TxLog
