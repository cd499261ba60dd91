-- ===== src/Lib.antt =====
-- A verification library for kvfs, a small distributed object store in Go.
--
-- A client talks to an edge (internal/edge), which signs and checks its URLs (internal/urlkey),
-- cuts objects into chunks (internal/chunker), chooses storage nodes for each chunk
-- (internal/placement) and writes to the nodes (internal/dn) through internal/coordinator. The
-- metadata is kept by coordinators (internal/coord, internal/store), of which one leads
-- (internal/election). The edge probes the nodes (internal/heartbeat). Background work moves
-- chunks to where they belong (internal/rebalance) and deletes chunks that nothing claims
-- (internal/gc).
--
-- Base: byte strings with the order of Go, maps, sort.Slice, integers of 64 bits and their decimal
--   form, and the result of a call of another component.
-- Placement: internal/placement/placement.go. pick_from_nodes and pick_from_nodes_by_domain are
--   PickFromNodes and PickFromNodesByDomain; SHA-256 is a parameter, any function on byte strings.
--   A count n is a natural number: a negative one gives what 0 gives.
-- Election: internal/election/election.go. An Elector is the mutable state under the lock. Each
--   handler is a function on it, the clock and the peers' answers are arguments. Election.Moves and
--   Election.Cluster interleave the handlers of one elector and of a whole cluster, with requests
--   that may be lost, repeated or forged. The HTTP client, timers, JSON and logging are not
--   modelled; nor is a cancelled context, after which a candidate concludes nothing. Electors do
--   not restart: the program keeps term and vote in memory only.
-- Urlkey: internal/urlkey/urlkey.go. A Signer is its map of keys and the primary; the methods give
--   a new signer and an error or none. HMAC-SHA256 in hexadecimal is a parameter. Urlkey.Url reads
--   a URL again as net/http and net/url do: the path, the parameters and their escapes.
-- Bolt: bbolt as an interface, a bucket with Get, Put, Delete and ForEach in the order of the keys;
--   Bolt.Listed fills it with lists.
-- Store: internal/store/store.go and the replay of internal/store/wal.go, over any Bolt. Each method
--   has its transaction (..._tx, the body of db.Update) and the whole, which commits and appends to
--   the WAL; Io holds how those end. Store.Apply is ApplyEntry and ApplyAll, Store.Requests the
--   logged calls of a leader, Store.Catalog the abstract catalog of objects. Records are their
--   values: JSON of valid UTF-8 gives back what was encoded. SHA-256 is a parameter. The methods
--   AbortExpiredMultipartUploads, Open and Reload are not modelled.
--   Calls do not overlap, so a commit and its append to the WAL are not interleaved with another
--   call's. In PutURLKey the items that ForEach visits while its callback writes are an argument; no
--   theorem is about it, since bbolt leaves open which they are.
-- Coordinator: internal/coordinator/coordinator.go over Placement. A fan-out of PUTs is a function
--   from the targets to the answers in the order in which they arrive; what a node says to a GET is
--   a parameter. The client, its scheme and its timeout, and the lock around the placer are left out.
-- Audit: the inventory audit of internal/coord/anti_entropy.go against the Merkle summary of
--   internal/dn/merkle.go. SHA-256 is a parameter, a disk is the files that the walk visits, and a
--   map from bucket numbers is a function. A bucket is listed from the same files; a chunk file
--   nested deeper, which only computeMerkle would visit, is left aside. The repair is not modelled.
-- Wal: the log of internal/store/wal.go. Wal.Steps interleaves Append, the flusher's flushOnce in its
--   three sections, Since, Truncate and Close, with failing flushes and fsyncs. Lines are shorter
--   than 1 MiB, the file that is opened has whole lines, a write that fails leaves no line, and
--   Truncate is modelled where it succeeds. A flush may fail or not at each step.
-- Gc: internal/gc/gc.go. compute_plan is ComputePlan, run is Run, with what the nodes answer as
--   arguments. Gc.Claims has the meaning of the claimed set.
-- Rebalance: internal/rebalance/rebalance.go. compute_plan is ComputePlan. Rebalance.Migrate has
--   migrateChunk, migrateShard and Run on a state of the cluster that the storage nodes and the
--   metadata store change; what they promise is in the records IsFaithful of Rebalance.Safety (for
--   chunks) and of Rebalance.Shards. The workers of Run are taken one after the other.
-- Chunker: internal/chunker/chunker.go and the Reader of internal/chunker/stream.go. split is Split,
--   join is Join and next is Reader.Next on the rest of an io.Reader; read_all is a caller's loop.
--   Bodies are shorter than 2 ^ 62 bytes.
-- Cdc: internal/chunker/cdc.go. next is CDCReader.Next, cutpoint the method of that name; the gear
--   table is a parameter, and masks of low bits are divisions by powers of 2. Sizes are below 2 ^ 62,
--   so that the sum of two does not wrap.
-- Heartbeat: internal/heartbeat/heartbeat.go. A Monitor is its statuses and the threshold; the
--   probes of a tick end in any order.
--
-- Fuel is used in Base.Decimal, where 21 digits are enough for every number of 64 bits, in
-- Chunker.split_from, which gets a round for each byte of the body, and in Chunker.read_all and
-- Cdc.read_all, for which two rounds and one round more are proved to be enough.
pub mod Base
pub mod Bolt
pub mod Placement
pub mod Election
pub mod Urlkey
pub mod Store
pub mod Wal
pub mod Coordinator
pub mod Audit
pub mod Gc
pub mod Rebalance
pub mod Chunker
pub mod Heartbeat
pub mod Cdc
