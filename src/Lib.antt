-- ===== src/Lib.antt =====
-- A verification library for exocortex, a memory graph for agents. The program is a workspace of Rust
-- crates under crates/. Producers draft memories and typed edges; exocortex-kernel says what a draft
-- may be, over an ontology that packs declare; exocortex-client keeps a write-ahead log of the batches
-- that the backend has not confirmed yet, and drains it; exocortex-wire has what both sides of the wire
-- share; exocortex-storage keeps the graph, its leases and its ingest tables; exocortex-adapter-sdk splits
-- what a connector observed into batches; exocortex-cluster feeds committed changes to subscribers.
--
-- Common holds what the files share: Boolean tests, lists measured by native numbers, `Result` with its
-- bind, bytes, machine words, hash maps as association lists over a type with a Boolean
-- equality (Maps), and a stable sort (Sort). A u64 is a natural number whose saturating, checked or wrapping arithmetic
-- is written out, but for the LSN and the epochs of the store in memory, which move from 0 by steps of one:
-- these are unbounded, and the wrap of their u64 is out of reach. An f32, a time and a 16-byte id stand as
-- numbers. Where the source compares an f32 (the quality of a discovery, the default strength of a kind
-- in a summary) the model compares the number: it differs from the source on a NaN, which equals itself
-- here, and on the two zeros, which are apart.
--
-- Kernel is crates/exocortex-kernel/src. Visibility, Kinds, Pack, Draft, Error, Validator and
-- Relationship are the files of these names (kinds.rs and so on), with ids.rs, memory.rs and provenance.rs
-- where they are used. Ontology is `Ontology::from_packs` of ontology.rs with `canonicalized` of
-- compatibility.rs; its hash maps are association lists, and Ontology/Offsets is about the offsets of type ids. Compatibility has the rest of that file: the
-- subset test on ontology summaries and the admission of pins, producers, peers and backups; the
-- fingerprint of a summary is a parameter, and the text of a divergence stands as the two summaries that it
-- is computed from. Not modelled: the preimages of the sha2 fingerprints, the parsing of a pin, the
-- registration of packs and the macros; blake3 is a parameter.
--
-- Wal is crates/exocortex-client/src/wal.rs. `Sled` (Wal/Sled) is what the code relies on of the sled
-- crate: an ordered map whose calls may fail, whose successful reads show its rows, whose successful
-- writes have written, and whose batches are applied whole. A failed write may leave any tree. `Json`
-- (Wal/Codec) is serde_json on an entry; the theorems that need a text to be read back say so. Entry has
-- the records, Log the operations that write (`append_batch`, `append_batch_full_idempotent`,
-- `append_imported_batch`, `mark_synced`, `mark_failed` and what they call), Reads the queries. The
-- append mutex makes the operations sequential: an operation maps a log to a log and a result, and a
-- poisoned mutex is a field. The closure of an import is its answer. Numbers inside error texts are left
-- out. Store is an ordered map in memory that meets the assumptions on sled. Wal/Rows proves that the
-- byte order of keys is the order of LSNs; Encoding is about the rows of an import; Lsn, Budget, Import,
-- Idempotent, States and Queries prove what they are named for.
--
-- Drain is crates/exocortex-client/src/drain.rs: `drain_once` passes over the pending entries of Wal and
-- settles each acknowledgement by the guidance of Wire. The backend is a state with the replies of
-- `register_source` and `submit`; the shaping of a batch and its signing are parameters with it, so the
-- theorems hold for all of them. Metrics and log output are left out.
--
-- Wire is crates/exocortex-wire/src: corrections.rs, with the codes of proto/ingest.proto and `classify`
-- of crates/exocortex-adapter-sdk/src/classify.rs, and limits.rs. Not modelled: signing, transport.
--
-- Cluster is crates/exocortex-cluster/src/change_log.rs: the bounded replay ring. Its atomics and its
-- mutex are one record, so that an operation is one step. Not modelled: nodes and the SSE stream.
--
-- Sdk is split.rs of crates/exocortex-adapter-sdk/src, with the unit and the errors of its lib.rs and the
-- drafts of proto/ingest.proto (Rows). Split/Union has the union-find of `split_unit` and the components
-- that it gathers, Split the packing loop, the final signing loop and `split_unit`. The canonical
-- checksum, the encoded length of a batch and the printing of an index are parameters; an error has data in
-- place of its text. `find` runs on fuel, one more than the unit has edges: a path has at most as many steps
-- as there were unions. Forest and Weld prove that, Entries, Cohesion and Gather follow an edge into the
-- component of its drafts, Closed and Packing follow the components into batches, Conserved and Lossless
-- count rows, Outcome has the ends of `split_unit`.
--
-- Storage is crates/exocortex-storage/src. ForkWindow is fork_window.rs, with the clock's readings as
-- arguments. Rows, Discovery and Journal have the rows of types.rs and the errors of trait_.rs, Owned the
-- maps from ids to LSNs. InMemory, Leases, Ingest, Board and Store are in_memory.rs: the graph and the
-- writes on it, the lease table, the table of ingest effects, the discoveries with their proposals and
-- audits, and the whole store with the operations that write several of these. Store has those on ingest
-- and fenced batches, Store/Discoveries the audited writes and `accept_discovery`, Store/Settle the
-- journals of owner cycles and their settlement, Store/Rollback `restore_fenced`. The mutation gate makes
-- an operation one step; a clock's reading is an argument of each; the printing of an epoch into a token
-- and the digest of a settlement are parameters, and the theorem on fencing assumes that the printing is
-- injective. The ids inside error texts are left out. Store/Steps has the step relation of all these
-- operations, in any order and with any readings, and beside it the rollback, which alone takes rows away.
-- InMemory/History, InMemory/Batches and Store/Growth prove what the graph keeps, Lsns what a batch
-- numbers and Written what it writes, Store/Epochs and Fencing what the lease table keeps, Settlement what
-- the settled batches keep, Once and Ascending what they are named for, with Cases for the stores that an
-- operation can leave and Keeping and Effects for what it leaves alone. Rollback/Histories, Journaled and Undo prove
-- what a rollback takes away. Not modelled of in_memory.rs: the reads of the graph and of pending effects,
-- the subscription to the feed, and what tests inject.
--
-- Dreams is crates/exocortex-dreams/src. Trigger is trigger.rs. Journal and Recovery are the journal of a
-- consolidation cycle of lib.rs, the end of a cycle that failed (`finish_cycle`) and the recovery of one
-- that crashed (`recover_active_cycle`), on the store in memory; Cycle has the writes of a cycle as a
-- relation, with no other writer among them, and Cycle/Notes, Cycle/Tracking and Cycle/Undone prove that it can be
-- taken back. What a cycle chooses to write is floating point and is not modelled: the relation allows any
-- writes.
--
-- All other loops are structural recursions over the list that the code iterates, so no fuel is needed.
-- Not modelled at all: the backends on databases (falkor.rs, cypher.rs), the ingest service, servers,
-- adapters, reasoning and entity resolution, which are calls of databases or
-- networks, or floating point, or stand on those.
pub mod Common
pub mod Kernel
pub mod Wal
pub mod Cluster
pub mod Wire
pub mod Drain
pub mod Sdk
pub mod Storage
pub mod Dreams
