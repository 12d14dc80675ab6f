-- ===== src/Lib.antt =====
-- A wallet service for wagering: operations on the wallets of players, each in one database
-- transaction with its ledger entry, its events and its idempotency record.
--
-- Domain models internal/domain, which keeps no state of its own: money in int64 minor units
-- (money.go: Domain/Money, Money/Parse for ParseMoney, Money/Format for String), the wallet
-- aggregate (wallet.go: Domain/Wallet), the state machine of a transaction (transaction.go:
-- Domain/Transaction), the ledger entry (transaction.go: Domain/LedgerEntry), the matrix of
-- reversals and the agreement with a reference (reversal.go: Domain/Reversal) and the codes of
-- errors (errors.go: Domain/Errors). A pointer receiver that a method changes is passed in and
-- returned, for a transaction beside the error too; an error is a value of Result. The function names are the source's, in snake case.
--
-- Ports models the records of internal/ports/ports.go and the errors that leave a use case.
--
-- Postgres models internal/adapters/postgres with the tables of migrations/: a statement reads or
-- writes the tables (Postgres/Db: query, execute), meets the constraints of its table, or fails as
-- a list of faults says; a failed statement spoils its transaction, and Transact ends with a commit
-- or with the tables of its beginning. Each repository is a file: WalletRepo, TxRepo, LedgerRepo,
-- AuxRepo. Postgres/Logic has the rules by which a body that keeps a property of the tables keeps
-- it through Transact. Transactions run one after another, so the row locks have no part of their
-- own.
--
-- Wagering models internal/wagering: Service (the service, its inputs and results), Hash (hash.go),
-- Backoff (backoff.go), Events (events.go), Accept (applyOperation of accept.go), Submit (Submit of
-- accept.go), Work (work.go), OpenWallet (wallet.go) and Reconcile (reconcile.go). The service
-- calls the repositories in the order of the source. Clock, ids, random source, JSON's text of a
-- string and SHA-256 are fields of the record Service.
--
-- Due (the part of work.go that claims and works on due items) stands below Work, and Pages
-- (PageLedger and its cursor, reconcile.go) beside Reconcile. Postgres/AuxRepo/Claims models the
-- leases of events and work items.
--
-- Sqs models internal/adapters/sqs: Envelope (envelope.go), Consumer (Handle of consumer.go, with
-- the calls of the queue as a list) and Publisher (publisher.go). Consumer and Http call the same
-- Submit.
--
-- Http models internal/adapters/http: Identity (identity.go), Middleware (middleware.go), Bodies,
-- Handler and Transactions (handler.go), Engine (the routes of handler.go and engine.go) and Oidc
-- (oidc.go). A handler takes a world and gives an answer and a world; Shows, Plain and Scope are
-- about who is shown what, Reading, Harmless and Effects about what a request changes. App/Config
-- models internal/app/config.go. JSON decoders, base64, the JWT library, the URL parser, the broker
-- and the key server are arguments.
--
-- Books ties these parts together: a chain of ledger entries behind each wallet (Books), what a
-- part of a transaction does to it (Frames, Keeping, Movers, Preserving, Reaching, Resting), the
-- use cases (Accepting, Submitting, Resuming, Opening), the workers and deliveries (Working),
-- requests (Serving), their sequences (Histories) and the reading back of the chain (Reconciling,
-- Paging). Postgres/Atomic is about calls that fail. Once is about a repeated Submit: a view of the
-- tables (owners of wallets, keys of transactions), the statements and the resumption that leave it
-- alone (Statements, Resuming), applyOperation that adds a key to it (Adding, Accepting, Carried),
-- and what the repetition finds (Lookups, Repeated). Examples has the theorems at concrete inputs.
--
-- An int64 is an integer whose wrap-around is written out (wrap64); texts are lists of bytes. No
-- loop of the code needs fuel: each is a recursion on a list or on a counter. A client that follows
-- the cursors of the ledger (Books/Paging/Walk) has fuel, one page for each entry and one more.
--
-- Not modelled: the polling loop of the consumer with its concurrent handlers, the ticking loops of
-- the workers, metrics, tracing, logging and start-up, which call libraries or what is modelled;
-- row locks, since transactions run one after another; NewUUID. The column type UUID is not enforced:
-- ids are texts. A COMMIT that fails has not taken place; one whose answer alone is lost is not
-- covered. The statement of TransactRepeatableRead that sets the isolation level is left out, as is
-- the format of a time in an event, which is a number of nanoseconds. A panic is an error that leaves
-- the use case, except in what the source ignores, where it is ignored like an error.
pub mod Prelude
pub mod Domain
pub mod Ports
pub mod Postgres
pub mod Wagering
pub mod Sqs
pub mod Http
pub mod App
pub mod Books
pub mod Once
pub mod Examples
