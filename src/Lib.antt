-- ===== src/Lib.antt =====
-- Verification of zmem-cache: a cache of memory entries that are read from the commit messages of
-- git repositories. The program is a Rust workspace. crates/zmem-core holds the rules that need no
-- database, crates/zmem-store the tables on SQLite, crates/zmem-svc the service, which serves
-- lookups, runs indexing jobs and prefetches history.
--
-- The parts and their models:
--
-- - Demand: crates/zmem-core/src/demand.rs. `RouteDemand` is a record; `expire`, `observe`,
--   `target` and `revision` are functions of these names, and a method with `&mut self` returns the
--   new value.
-- - Attention: the limits (`AttentionLimit::parse`, here `parse_limit`), the policy of a request
--   and `select_attention` of crates/zmem-core/src/lib.rs, and `history_policy_for_proposal` of
--   crates/zmem-svc/src/lib.rs. Jobs select history under a policy.
-- - Identity: `AttentionUsage::view_identity` and its reader, the incremental test, and
--   `TrailIdentity::key`, of crates/zmem-core/src/lib.rs. The store keeps trails under these texts.
-- - Journal: the validation of what an extension host answers, of crates/zmem-core/src/lib.rs. The
--   JSON decoder and the operations on `f64` are parameters.
-- - Metadata: `resolve_meta_range` and `resolve_metadata_assignments` of
--   crates/zmem-core/src/lib.rs.
-- - Jobs: `JobCoordinator` of crates/zmem-svc/src/main.rs and `recover_index_jobs` of
--   crates/zmem-store/src/lib.rs. A method is a function from the coordinator to the new one and
--   its result; a canonical write is a function from the mutation to its answer, so every failure of
--   a write is covered. Runs are sequences of steps, each under the queue's lock, of any number of
--   requests and one worker.
-- - Retention: `select_evictions` and `select_trail_evictions` of crates/zmem-store/src/lib.rs.
-- - Retention.Finalize: `finalize_store` of crates/zmem-svc/src/lib.rs, which has the store evict what
--   retention selects. The store's operations are a parameter.
-- - Sync: `Anchor` and `select_sync` of crates/zmem-core/src/lib.rs.
-- - Prefetch: the queue of `PrefetchCoordinator` of crates/zmem-svc/src/main.rs: `admit` (here
--   `admit_turn`), `finish_turn`, and the `pop_front` of its worker (`next_turn`).
-- - Git and History: `GitRepo` of crates/zmem-core/src/lib.rs, without `open`: selectors and walks
--   (`head_oid` is `head`, `resolve_reference` is `resolve`, `walk_oldest` is `walk`), and commits with
--   their changed paths (`commit_at` is `commit`). What git prints is a parameter, and a round trip
--   prints rows or commits the way git does and reads them back. A text is here the list of its
--   characters.
-- - Tracker: crates/zmem-svc/src/demand.rs, which counts lookups for the demand policy (`record` is
--   `record_lookup` under the lock and `try_record` around it). The clock, the capacities that the
--   allocator gives, and the outcomes of `try_lock` and of the advisory write are arguments.
-- - Host: `Config`, `HostPermit`, `HostOperation` and `execute_host_output_supervised` of
--   crates/zmem-svc/src/lib.rs. Threads that take and drop permits are steps on the shared count, a
--   wait is the list of the moments at which it wakes, and what an attempt meets is a parameter.
-- - Writer: `PublicationWriter` and its queue, of crates/zmem-svc/src/lib.rs. Sending, a turn of the
--   thread, an advisory batch and the end are steps in any order; the store is a parameter. Jobs and
--   finalization send it their writes, and the tracker its batches. Writer.Submit has the functions that
--   send a write or perform it where there is no writer (`canonical_write` is
--   `canonical_write_opened`).
-- - Areas: `derive_affected_areas` of crates/zmem-core/src/lib.rs, over the changed paths of History;
--   its areas have the form that Journal validates, except for backslashes.
-- - Ordered: `run_ordered` of crates/zmem-core/src/lib.rs. Its fuel is one more than the number of jobs.
-- - Lanes: `try_admit`, `ActiveConnection` and the parts of `frame_connection` of
--   crates/zmem-svc/src/main.rs, which send a request to its lane (`finish` is the part after the
--   guard). Connections that enter, counts that are loaded and noted as the peak (`note_peak`), and
--   guards that are dropped are separate steps in any order; Lanes.Framed has the steps of whole
--   connections and of the workers' items.
-- - Common: Boolean tests, lists, signed integers, results, texts, maps and the stable sort.
--
-- Numbers: seconds, counts and depths are native numbers. Where the code may wrap around (`nodes +=`
-- in `select_attention`, `fetch_sub` in the worker, the sums of `select_evictions`) the wrap is
-- written out, and a theorem that needs a bound states it. `i64` is a sign and a native number. A
-- `String` is the list of its bytes, a `HashMap` an association list with one entry for each key.
-- Only the chunks of `run_ordered` need fuel; every other loop is structural recursion over a list, a
-- number of attempts or the moments that a wait meets.
--
-- Not modelled: the SQL schema and its queries, the start and supervision of child processes (pipes,
-- kills, joins), the service's sockets and command line, the synchronization and prefetch
-- sessions, and time other than as an argument.
pub mod Common
pub mod Demand
pub mod Areas
pub mod Attention
pub mod Identity
pub mod Jobs
pub mod Retention
pub mod Journal
pub mod Metadata
pub mod Lanes
pub mod Ordered
pub mod Prefetch
pub mod Sync
pub mod Tracker
pub mod Writer
pub mod Git
pub mod History
pub mod Host
