-- ===== src/Lib.antt =====
-- LiquidCache: a cache of columnar data for DataFusion, in Rust.
--
-- The cache of the storage crate (src/storage/src/cache) keeps entries in formats that take less
-- and less memory: Arrow, Liquid, squeezed, and on disk. `insert` reserves memory in the budget; if
-- there is none, the cache policy chooses victims and the squeeze policy moves each of them one
-- format down, with its bytes written to a file; a batch for which nothing is left to squeeze moves
-- down itself. A read may promote its entry by the hydration policy. The parquet crate
-- (src/parquet/src) names the entries by packed identifiers and computes which rows to read.
--
-- Prelude       lists and maps over native numbers, tests, machine words
-- Ids           src/parquet/src/cache/id.rs, and `disk_path` of src/parquet/src/io/mod.rs
-- Cache.Budget  budget.rs: `try_reserve_memory` and so on; Threads has the interleavings of its
--               loads and exchanges as a step relation
-- Cache.Entry   cached_batch.rs: `CacheEntry` over the array formats, a parameter; Meaning says which
--               value an entry and its file stand for
-- Cache.Index   index.rs: `ArtIndex` over a map in place of the concurrent tree
-- Cache.Squeeze, Cache.Hydrate   policies/squeeze.rs and policies/hydration.rs
-- Cache.Policy  policies/cache: the trait; ThreeQueue is `LiquidPolicy`, Lru is `LruPolicy`, S3Fifo
--               is `S3FifoPolicy`; Draining is what the store asks of a policy so that insertions end
-- Cache.Store   core.rs: `LiquidCache` as a record, and its methods of the same names as functions
--               from a cache to a cache, or to a result that may be a panic; Stats is `stats`, and
--               Reading is `try_read_liquid`
-- Selection     src/parquet/src/reader/runtime/utils.rs, reader/utils/boolean_selection.rs and the
--               row functions of src/parquet/src/utils.rs
-- Liquid        src/storage/src/liquid_array: BitPack is raw/bit_pack_array.rs; Primitive and Delta
--               are the offset and delta encodings of primitive_array.rs; Hybrid is its `squeeze` of
--               integers, and Hybrid.Access the filters and predicates on squeezed arrays of
--               hybrid_primitive_array.rs; Dates is the calendar of squeezed_date32_array.rs,
--               with the calendar itself as a relation in Dates.OnDay, and SqueezedDate its arrays. The store takes array formats as a parameter, and these are
--               formats that it squeezes
-- Tests         in each part: concrete inputs for its theorems
--
-- Numbers: counters are native numbers; sums on `usize` wrap at 2 ^ 64 where the source adds, sums
-- on `i32` in the dates wrap as in a release build, and a limit is below 2 ^ 63, as every
-- allocation is. The loop of `squeeze_victim_inner` has 4 rounds of fuel, since an entry can go
-- down three times. The loop of `insert_inner` takes its fuel as an argument, and the theorems say
-- how much ends it; so it is with the eviction from the small queue of `S3FifoPolicy`. How much
-- fuel its other loops need is not said.
--
-- What is a parameter: the arrays with their conversions, whose documented behaviour is that nothing
-- is lost (`Lossless`), `RowSelection::from` of the parquet crate, and its schema; for Liquid, the
-- packing of blocks of the fastlanes crate (`PacksLosslessly`), arrow's `min` and `max`
-- (`Aggregating`), filter and comparison (`Computes`), and the conversions of the num_traits crate
-- (`ConvertsExactly`).
--
-- What is not modelled: reads with selections, concurrent insertions (the victims of a round are
-- squeezed one after the other, and calls run one at a time), failures of the file system, the other
-- cache policies, the encodings of floats, decimals and strings and the serialized forms of all
-- arrays, predicates that are no comparison of a column with a literal, the datafusion integration,
-- client and server.
pub mod Prelude
pub mod Ids
pub mod Cache
pub mod Selection
pub mod Liquid
