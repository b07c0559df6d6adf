-- ===== src/Lib.antt =====
-- A verification library of the backend: the parts of it that keep state, compute dates or decide
-- by rules.
--
-- The parts and their files.
-- * Inventory (src/modules/inventory): Inventory/Types.antt holds the rows of src/db/schema and
--   the inputs, Inventory/Repositories.antt the queries, Inventory/Alerts.antt `checkAndCreate`
--   of services/low-stock-alert.service.ts (Opened its theorem), and Inventory/Movement.antt
--   with its children the three operations of services/stock-movement.service.ts: `stockIn`,
--   `stockOut` and `adjust`, each with the routine that runs in the transaction. Every operation
--   ends in the alert check, which reads the rules and may label the item. Inventory/Stock.antt
--   holds the proofs: Sums about the totals of batches, Labels about the alert check, Fifo and
--   Outflow about the deduction, Snapshot and Inflow about the writes, and Sound, StockIn,
--   StockOut, Progress and Desync the invariant and the operations' theorems.
-- * The rest of the inventory: Inventory/Counts.antt is the rows and queries of the stock
--   counts and Inventory/Counts/Workflow.antt services/stock-count.service.ts, whose
--   completion runs an adjustment for each line that varies; Lines, Stocktake, Completion, Closed
--   and Stuck hold the proofs. Inventory/Service.antt is `applyInbound` and `applyOutbound` of
--   inventory.service.ts, through which goods receipts reach the stock.
-- * Grn (src/modules/grn): Grn.antt is the rows and queries of goods receipts, and
--   Grn/Reversal.antt services/grn-reversal.service.ts. The movements that a reversal asks for
--   commit on their own, so a reversal gives the stock in every case, and the receipts where
--   it succeeds. Stock and Twice hold the proofs.
-- * Tasks (src/modules/tasks): Tasks/Recurrence.antt is utils/recurrence.utils.ts,
--   Tasks/Types.antt the rows, Tasks/Repositories.antt the queries, and Tasks/Workflow.antt,
--   Tasks/Evidence.antt, Tasks/Assignments.antt and Tasks/Recurring.antt the services of the
--   same names. Tasks/Service.antt is tasks.service.ts: an operation finds the task, asks for an
--   active assignment, validates the transition, and then opens a transaction, which is a
--   definition of its own (`cancel_in_transaction` and the like), changes the row and records an
--   event; a completion also checks and adds evidence and may spawn the next occurrence. Its
--   children hold the proofs: Terminal, Steps and Settling about the statuses, Overwriting about
--   two sessions, Completion about the evidence, and Spawning, Occurrence and Recurs about the
--   task that is spawned. Tasks/Editing.antt is `create`, `update`, `delete` and `markOverdue` of
--   the same file, with the proofs about statuses in Statuses.
-- * Expiry (src/modules/expiry): Expiry/Rules.antt is utils/expiry-rules.utils.ts.
-- * RateLimiting (src/modules/rate-limiting): RateLimiting/IstTime.antt is
--   utils/ist-time.util.ts.
-- * Products (src/modules/products): Products/Ean.antt is utils/ean.utils.ts; Checksum, Laws,
--   Errors and Normal hold the proofs.
-- * PublicProduct (src/modules/public-product): PublicProduct.antt is services/slug.service.ts.
--   Candidates and Backfill hold the proofs.
-- * BatchDates (src/modules/batch-dates): BatchDates.antt is consensus.ts, with the proofs
--   about the clusters in Clusters, about the most frequent date in Modal and about trust in
--   Trust.
-- * Sync (src/modules/sync): Sync/Lamport.antt is utils/lamport-clock.util.ts,
--   Sync/Payload.antt and Sync/Batch.antt the stripping and the batch of
--   services/sync.service.ts. The batch strips each payload, reads its id, and applies the
--   items that are not older than what was applied for the id. Order, Stripped, Newest and
--   Winners hold the proofs.
-- * FeatureFlags (src/modules/feature-flags): FeatureFlags.antt is utils/fnv1a.util.ts and the
--   evaluation of providers/local-static.provider.ts, with the proofs in Buckets. JavaScript's
--   numbers are a parameter there, with the documented laws of the remainder and the order.
-- * Prelude holds what these share: Prelude/Failures.antt the exceptions of src/common/errors
--   and their chaining, Prelude/Table.antt the operations of
--   src/db/repositories/base.repository.ts, and the rest numbers, lists and tests. Dates.antt is
--   the part of JavaScript's `Date` that the program uses, in UTC and from 1970 on.
--
-- How state is modelled. A table is a list of rows, and an operation takes the tables and
-- gives the new ones with its result, or a failure. An operation runs in one transaction, so a
-- failure changes nothing, and two transactions do not interleave. Where an operation reads before
-- its transaction, as in tasks, stock counts and reversals, the transaction is a definition of its
-- own, which may meet tables that another session has changed; the operation itself is what a
-- session does that no other one interrupts. Reversals, the backfill of slugs and the removal of
-- evidence write outside a transaction: the first two give the tables also where they fail, and the
-- writes of the third are definitions of their own. The keys and the time that
-- the database and the clock supply are arguments, and so are the texts of keys and of notes.
-- Quantities are signed integers without a bound: the 32-bit range of the columns is not
-- modelled, nor are the unique indexes, but for that of the slugs and that of the active
-- assignments, which is partial and no arbiter of the insertion's conflict clause, so that the
-- database refuses every insertion; the part of the others is taken by the hypothesis that new keys
-- are new. Texts that are only compared are keys; barcodes, nodes,
-- hashed names and slugs are lists of character codes; a hash keeps its 32 bits written out; a
-- quotient of floating-point numbers is a fraction.
--
-- Fuel and bounds. All loops are structural recursion, but for the search for a date's month,
-- which has the day's number as fuel: a month has a day at least, so the fuel is enough, as
-- Dates/Days.antt proves on the way to the month of every day, and for the batches of the slugs'
-- backfill, which has one more than the products without a slug.
--
-- What is not modelled: of the tasks service the listings, details and statistics; of goods receipts the drafts and the posting; of the sync
-- module the parsing of timestamps and the idempotency records, and its handlers are stubs in
-- the source; of the feature flags the loading from the environment; everywhere the
-- controllers, the requests' schemas, the notifications and logs, which are I/O, and the other
-- modules of the backend.
pub mod Prelude
pub mod Dates
pub mod Expiry
pub mod RateLimiting
pub mod Inventory
pub mod BatchDates
pub mod FeatureFlags
pub mod Grn
pub mod Sync
pub mod Products
pub mod PublicProduct
pub mod Tasks
