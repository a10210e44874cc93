-- ===== src/Lib.antt =====
-- PARQONAUT scans, converts, repairs and publishes Parquet datasets. This library models the parts of it
-- that decide what is safe: which column types unify and convert without loss, how the result of a
-- repair is published to an object store, how a batch of repairs is scheduled, retried and resumed, in which
-- order a plan runs, how the service's jobs are queued and worked off, and how rows are filtered and
-- written to partitions.
--
-- The parts and how they meet. The schema functions of crates/parqonaut-columnar stand on their own and
-- serve the readers of the other crates. The publication protocol of crates/parqonaut-storage writes
-- through a storage backend, under a writer lock that is one object of the dataset. The orchestrator of
-- crates/parqonaut-orchestrator runs datasets through a bounded scheduler; each attempt at a dataset
-- asks the storage for what has been published and records its progress in a journal. What an attempt does
-- is a repair plan of crates/parqonaut-repair, whose operations run in the order of their dependencies.
-- The service of crates/paraclete-service takes requests as rows of a table of
-- crates/paraclete-store, from which its workers claim them. The transforms of
-- crates/parqonaut-transform read batches of rows, filter them and write them again.
--
-- The files.
-- Prelude: results, effects on a store, lists, texts as lists of code points, maps as association lists.
-- Columnar: src/schema/kind.rs (Kind: from_arrow_type, to_arrow_type), unify.rs (Unify: widen_types,
--   unify_types; Unify/Lattice for its laws), compatibility.rs (Physical: parse, widening_rank;
--   Conversion: classify_conversion), unified.rs (Unified: from_schemas; Unified/Columns for what it does
--   to one column) of crates/parqonaut-columnar.
-- Storage: crates/parqonaut-storage/src. Location, Backend (the trait StorageBackend as a record of its
--   operations with the laws that its clients use), Memory (memory.rs, which fills that record in
--   Memory/Laws, with Memory/Ranges), Records (the JSON documents, with the platform: a backend, serde_json's two functions for
--   each document, and camino's join), Keys, Contents and Effects (what a call does to the keys of a
--   dataset), Locking (locking.rs: acquire, reclaim_or_reject, release), with Ownership, Exclusion and
--   Freeing for its laws, and Publication (publication.rs): Reads (is_version_committed, observed_state,
--   load_recovered_state), Opening (begin), Session (put_version_object, write_manifest, commit, promote_current,
--   finish and the rest), and, for the proofs, Backing, Consistency, Calls, Marking, Begin, Commits, Traces,
--   Recovery, Immutable
--   and Steps. A session is a record passed along with the store; an operation that returns an error
--   leaves the store as its earlier calls have made it, and as any call may fail, these are the states
--   that a crash leaves.
--   Footer is parquet_range.rs (read_parquet_footer; Footer/Suffix and Footer/Returns for its laws, and
--   Footer/Served for the in-memory backend).
-- Orchestrator: crates/parqonaut-orchestrator/src. State (state.rs), Journal (the rows of journal/ and
--   recover_journal_states of run.rs; Journal/Recovery), Executor (executor/mod.rs: one attempt; Loop: the
--   retries; Retries and Endings for their laws), Scheduler (scheduler/mod.rs as a step function;
--   Scheduler/Bounds), Overlap (overlap.rs, and locations_overlap of
--   crates/parqonaut-repair/src/execute_storage.rs; Overlap/Disjoint).
-- Repair: crates/parqonaut-repair/src. Dependencies (deps.rs: assign_dependencies, sort_by_dependencies); Counts, Queue,
--   Release, Index, Order and Cycles for the steps of the sort, and Plans for the whole. Execution is
--   run_repair_operations of execute.rs with authorization.rs, and Execution/Effects what it does; Execution/Authorization
--   compares `resolve` of authorization.rs with it.
--   Schema is pick_canonical_field of schema/diff.rs, with Schema/Canonical for the field that it
--   chooses, and Schema/Resolution is compute_schema_diff and resolve_canonical_schema of
--   schema/canonical.rs on it.
-- Service: Jobs (crates/paraclete-store/src/sqlite_store.rs: insert_application_job,
--   claim_next_queued_scan_job, renew_scan_job_lease) with Jobs/Recovery (recover_stale_scan_jobs) and
--   Jobs/Ends (the completions and cancellations); a statement is a function on the list of rows. Jobs/Calls
--   is any order of statements; Jobs/Spec is the queue without its table, a step relation on one
--   job, which Jobs/Refines implements; Jobs/Consistency and Jobs/Histories have the invariant of the
--   rows, and Jobs/Claims the choice of a claim. Worker is crates/paraclete-service/src/worker.rs from the claim
--   to the end of the work, Worker/Heartbeat its heartbeat
--   task, and Worker/Meanwhiles and Worker/Endings what they come to.
-- Transform: crates/parqonaut-transform/src/engine. Arrays (compat.rs), Filter (filter.rs: evaluate_filter and the
--   comparisons), with Filter/Rows for what a filter means in a row and Filter/Evaluation. Partition
--   (partition.rs: encode_partition_value, partition_keys, partition_dir), with Partition/Writers and
--   Partition/Batches for partition_record_batches, whose local variables are a record passed along, and
--   Partition/Pool, Parts, Contents and Written for its laws.
-- Columnar/Checks, Storage/Checks, Orchestrator/Checks, Repair/Checks, Service/Checks and Transform/Checks apply the theorems to concrete values.
--
-- Bounds. The retry loop runs on fuel, one round for each attempt that is left and one more, and the loop
-- of sort_by_dependencies on one round for each operation that is ready and each open dependency and one
-- more; their theorems show this to be enough. All other recursion is structural. Counts and sizes are natural numbers; the
-- source's u32 and u64 do not wrap at the sizes that occur, and the saturating additions and subtractions
-- are written out.
--
-- Times are numbers, which grow as the service's clock does. Where the source asks SQL for the oldest row
-- and several are as old, the first of the table is taken.
--
-- What is a parameter. The storage backend behind its laws, serde_json, camino's join and starts_with, the
-- case mapping of the standard library, the clock, and, for an attempt at a dataset, the answers of the
-- repair crate and of the file system; the work of a claimed job; what an operation of a plan does to the
-- working files; for filters the operations of f64 and the
-- kernels of the arrow crate; for partitions the kernel that filters a batch, the order of a HashMap, and
-- which calls of the file system and of the Parquet writer fail, by path. The laws of a backend say that a failed call changes no object, that a
-- successful one changes the one object that it names, and that a conditional create finds its key free.
--
-- What is not modelled. Listing and the metrics of a backend, the S3 and local backends, SQLite and Postgres, the
-- tables of scan reports and tokens, the selection of tasks in BatchExecutor::run, plans and reports, the repair rules,
-- the parser of filters, casts, merges and the plans of transforms, streaming, and the command line. Runs of one
-- version are modelled one after the other; what runs of other versions write between their calls is
-- not. During a job's work the heartbeat and the requests of clients are modelled, in any order; that the lease expires
-- meanwhile and the job is recovered, or that a call of the store fails there, is not, though the statements in any
-- order are of the queue's. The calls of the journal in recover_journal_states succeed.
pub mod Prelude
pub mod Columnar
pub mod Storage
pub mod Orchestrator
pub mod Service
pub mod Transform
pub mod Repair
