-- ===== src/Lib.antt =====
-- The library collette: typed collections with secondary indexes over an ordered key-value store.
--
-- A collection (src/collection.rs) keeps each record in the primary store of its namespace, under
-- the encoding of its primary key, and has one more store for each of its indexes (src/index.rs,
-- src/index_registry.rs), which maps a physical index key to the primary key. Keys are encoded so
-- that the order of the bytes is that of the keys (src/key.rs, src/macros.rs), and ranges of keys
-- become ranges of bytes (src/bounds.rs, src/prefix.rs), from which scans are built (src/scan.rs).
-- The stores belong to a backend (src/store.rs): one in memory (src/backend/memory.rs) and one over
-- the database redb (src/backend/redb.rs).
--
-- The modules:
--   Key, with one child for each kind of key: the trait `Key` as a record of its methods, and what
--     it asks of an implementation, `Key.IsLawful`. The children Unsigned, Signed, Scalar, Text,
--     Vector, Tuple, Triple, Quad, Enum and Delegate have the implementations; Xor has a lemma on
--     numbers for Signed.
--   Range: `Bound` and `RangeBounds` of the standard library. Prefix: `prefix_end`.
--   Bounds: `BoundsEncoder`, `ExactEncoder`, `PrefixEncoder` and `Prefixable`.
--   Map: `BTreeMap` of the standard library, as a sorted association list.
--   Store: the backend traits as the record `MultiStore`, and their contract `Store.IsLawful`.
--     Store.Listing says what a scan of a backend lists, and Store.Available that its calls return
--     on the stores that have been prepared. Each backend has a module for each of the three.
--   Memory: the backend in memory, an instance of `MultiStore`, for one thread at a time. Memory.Gate
--     has the threads that wait to write to one namespace, as a relation of steps.
--   Redb: the backend over redb, an instance of `MultiStore` for every `Engine`, the record of the
--     calls of the crate. Redb.Promises and Redb.Returns state what the crate promises, as
--     hypotheses.
--   Item, Index, Collection: records, indexes and collections over any `MultiStore`. Collection.Spec
--     says on the contents of the stores what the methods promise, Collection.Refines and
--     Collection.Refinement relate the methods to it over any lawful backend, Collection.Runs and
--     Collection.Available show that they return over any available one, and what look-ups see.
--     Collection.Consistent has the invariant that ties the indexes to the records, and
--     Collection.Keeps the invariant of a backend through the methods. Collection.Session has
--     sequences of calls of the methods, Collection.InMemory those on a new namespace of the memory
--     backend, Collection.Persistent those on a database file that is opened again,
--     Collection.Concurrent those of several threads at the writer gate, and Collection.Registered
--     the calls of the builder that add indexes.
--   Scan: the chain of scan builders (src/scan.rs), as one data type, its compilation to a range of
--     bytes, and cursors. Scan.Open has the executors and iterators (src/iter.rs) and the look-up by
--     a unique index; Scan.Builder has the builder types of the source, each with its methods, and
--     relates them to that data type; Scan.After, Scan.Pages, Scan.Resume and Scan.Lookup have the
--     proofs, and Scan.Records those from the database to the records that an iterator returns.
--   Examples: concrete runs. Prelude, Outcome, Bytes: shared notation, results and byte strings.
--
-- State is passed explicitly. A method takes the database and returns it changed, as an `Outcome`:
-- a value, an error of the source's enum, or a panic. A write handle is a copy that `commit`
-- publishes; a store opened from it is put back by `close`, where the source ends a borrow.
--
-- Integers are natural numbers below 256 ^ width, for every width in bytes, and the signed ones are
-- cast to and from them in two's complement. The loops recurse on their input, so no fuel is
-- needed. A string is its bytes, and the check of UTF-8, the codec of records and the debug text of
-- keys are parameters.
--
-- The crate redb is not part of the repository: its types and calls are parameters, a range of it is
-- the list of the items between its two ends. What it promises of the contents of tables, and that
-- its calls return where no disk fails, is assumed of that parameter only, in two records of
-- hypotheses. A concrete engine that satisfies both stands in Examples.
--
-- Not modelled: the locks other than the writer gate, each of which the code holds for one step of
-- the model, but for the one that `write` holds while it waits at the gate; so a `prepare` beside
-- writers is no step of Memory.Gate. Memory.write is `write` of a thread that the gate lets in, as
-- the thread of a sequence of calls always is, since each call drops its handle; the wait is in
-- Memory.Gate, where Writing says when there is one. Store.Available speaks of such calls only.
-- Sources and display of boxed errors, which are kept as their text; negative values of enum keys;
-- the buffers of another package (src/inline_vec.rs); the fixtures of the tests (src/testing.rs).
pub mod Prelude
pub mod Outcome
pub mod Bytes
pub mod Key
pub mod Range
pub mod Prefix
pub mod Bounds
pub mod Map
pub mod Store
pub mod Memory
pub mod Redb
pub mod Item
pub mod Index
pub mod Collection
pub mod Scan
pub mod Examples
