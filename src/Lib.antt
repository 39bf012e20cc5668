-- ===== src/Lib.antt =====
-- Flow Observability: a verification development for the Rust program of this repository.
--
-- The agent captures packet headers, counts them in time buckets by flow, and stores batches of
-- buckets in a bounded SQLite spool; the uploader sends the batches to a control plane and
-- acknowledges them in the spool. The files model these parts:
--
--   Model          src/model.rs: the data, the derived order of flow keys (Model/KeyOrder), and
--                  BatchEnvelope::new with its checksum (Model/Envelope). Model/Identifier is about
--                  the identifiers that it makes.
--   Packet         src/packet.rs: parse_packet and all it calls, by the source's names. Packet/Agree
--                  and Packet/Extension compare a frame with a longer capture of it; Packet/Wire
--                  describes the wire formats, Packet/Shift, Packet/Decode and Packet/LinkLayer prove
--                  the parser against it; Packet/Classify is about `direction`.
--   SortedMap      the BTreeMap of the standard library as an ordered list of entries.
--   Aggregate      src/aggregate.rs: Aggregator::new, push, drain_before, drain_all. Aggregate/Tally
--                  relates the counters to the packets pushed, Aggregate/Drain and Aggregate/Stream
--                  say what draining hands over.
--   Sqlite         src/sqlite.rs, and transactions: Sqlite/Step runs statements on a working copy of
--                  the tables, Sqlite/Inversion takes a success apart, Sqlite/Total is about panics.
--   Spool          src/spool.rs: Spool/Tables has the tables and the SQL statements, Spool/Evict
--                  insert_gap and enforce_limits, Spool/Opening Spool::open, Spool/Methods the
--                  other methods. Spool/Rows, Spool/Eviction, Spool/Bounds, Spool/Ledger and
--                  Spool/Retention prove the loop, Spool/Enqueue and Spool/Guarantees prove
--                  `enqueue`, Spool/History any sequence of calls; Spool/Sweeps, Spool/Progress,
--                  Spool/Names and Spool/Room show that `enqueue` succeeds where nothing outside
--                  stands in its way, Spool/Total that it never panics.
--   Control        src/control.rs: Control/Tables has the tables and the SQL statements that write
--                  them, Control/Ingest ingest_at and prune_expired, Control/Queries nodes, stats
--                  and series, Control/Http the handlers. Control/Effects and Control/Delivery
--                  relate each result of ingest_at to the tables; Control/Soundness,
--                  Control/Redelivery and Control/Progress build on them; Control/Holding and
--                  Control/Contents take the tables as a list of batches over any deliveries;
--                  Control/Status is about the handler, and Control/Series about series,
--                  Control/Totals about series and stats, Control/Nodes about nodes. Control/Serve
--                  opens the store and serves requests; Control/Opening is about the opening,
--                  Control/Requests about any sequence of requests, and Control/Total about panics.
--   Capture        src/capture.rs: run and its loop, a round as a function of what libpcap, the clock
--                  and the engine give in it. Capture/Rounds takes a round apart, Capture/Account says
--                  what the batches of a run add up to, Capture/Ended, Capture/Absorb,
--                  Capture/OneRound and Capture/Conservation carry that from round to round,
--                  Capture/Guarantees states it of run; Capture/Ledger is about the spool that a run
--                  leaves, and Capture/Total about panics.
--   Upload         src/upload.rs: upload_once. Upload/Acknowledged is about any other side, and
--                  Upload/EndToEnd about the ingest handler as the other side.
--   Command        src/main.rs: the commands. Command/Session is about any sequence of them, over
--                  Command/Records and Command/Kept, and Command/Synthetic about the synthetic batches.
--   Tests          the unit tests of the source, and the theorems applied to concrete data.
--
-- How the model corresponds to the code. A byte and an unsigned integer are natural numbers; where
-- the code can wrap (the counters of the aggregator, in a release build) the remainder by 2 ^ 64 is
-- written out. A String is the list of its bytes. A fallible function returns an Outcome: ok, err or
-- panic; an index out of range is a panic. A SQL statement is a function on tables that are lists in
-- the order of their primary key; the engine is a parameter that may fail any statement on any tables,
-- and a transaction that is not committed leaves the tables as they were. serde_json and blake3 are
-- the parameter Codec, of which only the length of a digest is assumed. A method that writes returns
-- its result beside the tables that it leaves.
--
-- Fuel: the eviction loop has one round more than there are rows, and each round removes a row; a loop
-- that ran out would return panic. The loops over VLAN tags and IPv6 extension headers have the
-- source's own bounds of two and eight rounds.
--
-- The control plane's server is a state (the tables, and whether the lock is poisoned); the uploader
-- takes the other side as a parameter, a function on such a state, so that a lost answer and a
-- repeated request are sequences of calls. The requests to a server take its lock one behind another,
-- so a sequence of them is every interleaving. What SQLite, libpcap, the clock and the network return
-- is read from scripts: a Database or a SpoolFile at an opening, a Tick in each round of a capture, an
-- Arrival with each request, a World for each command. Where a script ends, the loop or the server is
-- still running.
--
-- The standard output: in the loop of the capture a report that cannot be printed is a panic, which
-- ends the run. What the other commands print is the value that they return.
--
-- The release profile (Cargo.toml) wraps counters and ends the process at a panic; poisoning a lock,
-- which needs a panic that unwinds, is modelled for the other profiles.
--
-- Not modelled: parsing the options (clap), routing and decoding of requests (axum, serde), a
-- failure to print the report of any command but the capture, the statements that create tables or
-- set a pragma beyond their result, and the dashboard, a static page. src/lib.rs only names the
-- modules.
pub mod Base
pub mod Model
pub mod Packet
pub mod SortedMap
pub mod Aggregate
pub mod Sqlite
pub mod Spool
pub mod Control
pub mod Upload
pub mod Capture
pub mod Command
pub mod Tests
