-- ===== src/Query.antt =====
-- src/query: values and their order, time buckets, filters and aggregates; the groups, the order and the rows
-- of a query; snapshots and the cache of dictionaries.
mod Examples
pub mod Bucket
pub mod Values
pub mod Filters
pub mod Snapshots
pub mod Aggregates
pub mod Execution
pub mod Groups
pub mod Rows
pub mod Sorting
pub mod Output
pub mod Run
pub mod Cache
