-- ===== src/Lib.antt =====
-- webanalyticsdb: an append-only store of timestamped rows. A row is encoded by its table's schema,
-- batches of rows are written as frames into daily segment files (storage), and queries scan the
-- frames of a snapshot, filter the rows and reduce them to aggregates (query). The statistics count
-- what happens and keep the last commits for readers that wait for them (core/stats.c).
--
-- Parts and files (paths of the sources from the repository's root):
-- - Core: include/wadb.h, src/core/encoding.c. Core/Status has the status codes; a function that
--   returns a status and fills outputs returns a `Result`. Core/Bytes has the little-endian access
--   (wadb_get_u32 is `get_u32`, with the buffer and an offset in place of a pointer), Core/Checksum
--   CRC-32C and the hash, Core/Sizes the checked size arithmetic, Core/Text the tests of names and
--   of UTF-8. Core/Types and Core/Segments have the types that the other parts share.
-- - Format: src/storage/format.c. Format/Segment has the segment header, Format/Frame the frame
--   (`frame_encode`, `frame_inspect`, `frame_decode`), with the buffer of an encoding as the list of
--   its bytes; `calloc` is a parameter that says whether an allocation succeeds.
-- - Bisect: the binary search that several sources write out.
-- - Stats: src/core/stats.c. Stats/Histogram has the latency histograms, Stats/Notifications the
--   ring of commit events, which src/storage/segments.c writes, and Stats/Pages wadb_list_segments.
-- - Query: src/query/plan.c, query.c and snapshot.c. Query/Values has values and their comparison,
--   Query/Bucket the time buckets, Query/Filters the test of a row, Query/Aggregates the reduction
--   of rows. Query/Execution has the plan and the state of a query with its memory budget,
--   Query/Groups the hash table of groups (`group_for`), Query/Rows the consumption of rows,
--   Query/Sorting the merge sort of groups, Query/Output the rows of the result, and Query/Run
--   wadb_query_execute; the rows that the scan hands over, the clock as a function for each loop that
--   reads it, whether an allocation succeeds (`allocates` of the plan), and the bits of a double
--   (`KeyBits`) are parameters. Query/Snapshots has the segments that a reader's snapshot covers and
--   the budget of readers, whose acquisitions and releases are steps. The type double is a parameter
--   (`FloatOps`); what a theorem relies on of its order is a hypothesis.
--   Query/Cache has the cache of dictionaries (query/cache.c): the interleavings of its readers are steps
--   between the two critical sections of an acquisition, and its loop that evicts has as much fuel
--   as there are entries, each round taking one.
-- - Schema: src/core/schema.c. Schema has wadb_schema_build and wadb_schema_find, Schema/Codec the
--   encoding of a field and its decoding, Schema/Row the row with its bitmap; the
--   bits of double and float and the dictionary, which resolves symbols over a state, are
--   parameters.
-- - Slots: the hash index with open addressing that src/storage/dictionary.c and
--   src/query/query.c have in common; its `walk` is their loop over the slots, on as much fuel as
--   there are slots.
-- - Dictionary: src/storage/dictionary.c. Dictionary has wadb_dictionary_new, `intern`, `resolve` and
--   `rollback`, Dictionary/Transfer the definitions that a frame carries (`export_limit`, `apply`). An
--   allocation of the dictionary does not fail in the model.
-- - Index: src/storage/index.c. Index has the entries of frames, their records of 64 bytes, the
--   growth of the index and the search for the first frame of a scan; the entries of an index in
--   memory are given by their position.
-- - Table: src/storage/segments.c and retention.c. Table has the state of a table and `create_active`,
--   Table/Commit the checks of a group of requests and its frame, Table/Append what
--   wadb_commit_requests does to the table, Table/Retention the retirement of old segments,
--   Table/Induction how a property is shown to survive a commit, Table/Accounting the counters. What
--   the calls of the system come to is a parameter (`Disk`, `Cleaning`). The search for a segment
--   number that is not taken ends at UINT64_MAX, which is its fuel. The second attempt of a commit
--   starts from the rows without ids, since it writes the same places again.
-- - Auth: src/server/auth.c. Auth has the sessions and the rate limit of logins; the clock and the
--   random secrets are arguments.
-- - Prelude has the shared lists, tests and integers. The modules named Examples apply the theorems
--   to concrete values.
--
-- Numbers are natural numbers and keep the bounds and wrap-around of their C types where the code
-- reaches them; int64_t is `ℤ` with its bounds written out. The loops of the text tests and of the
-- binary search run on fuel: the length of the text, and the length of the interval, each of which
-- a round shortens. The sort of groups runs on as much fuel as there are groups: the width of the
-- runs doubles from 1 up to their number. The walk over the slots of a hash index has as much fuel as
-- there are slots, which is enough as one of them is free; where the code masks a hash by the number
-- of slots less one, a power of two, the model takes the remainder. The latency bins halve a 64-bit number, which 64 rounds exhaust.
--
-- Not modelled: error texts, null pointers, locks and threads, files, HTTP and JSON. The
-- recovery of segment files, scans and cursors are not modelled.
pub mod Prelude
pub mod Core
pub mod Format
pub mod Bisect
pub mod Stats
pub mod Query
pub mod Slots
pub mod Dictionary
pub mod Schema
pub mod Index
pub mod Table
pub mod Auth
pub mod Examples
