-- ===== src/Lib.antt =====
-- ripsync mirrors one tree of files into another, on one machine or over a connection. This library
-- models the core of it, crates/ripsync-core, as functions over explicit state.
--
-- A run walks both trees through a filter (walk.rs, filter.rs), plans an action for each source
-- entry and the deletions (plan.rs), by the entries of the destination or by the manifest that the
-- last run left (index.rs), and applies the plan. A file that changed crosses a connection as a
-- delta against the receiver's copy (delta.rs), found with a rolling checksum (checksum.rs).
--
-- Which file models which part:
--   Prelude    numbers, words of 32 bits, lists, options and results that all parts share
--   Errors     crates/ripsync-core/src/error.rs, `Error` without its texts
--   Checksum   crates/ripsync-core/src/checksum.rs: `RollingChecksum` is a record of three 32-bit
--              numbers; `new`, `roll` and `value` wrap as the code does; the theorems stand in
--              Checksum/Sums, Checksum/Rolling and Checksum/Value
--   Delta      crates/ripsync-core/src/delta.rs: `Signature::compute` is `compute`, `Lookup::new`
--              and `Lookup::find` are `lookup_from` and `find`, then `encode_with_signature`,
--              `encode` and `apply`, with the theorems in the modules below Delta
--   Filter     crates/ripsync-core/src/filter.rs: the builder, the text of rules (Filter/Text), the
--              compiled rules and `is_excluded`
--   Paths      relative paths, and the maps, sets and order of the Rust library keyed by them;
--              Paths/Texts has the components of a text, by which two `PathBuf`s are equal
--   Entries    the records of crates/ripsync-core/src/walk.rs, meta.rs and plan.rs
--   Index      crates/ripsync-core/src/index.rs: the records, the journal as bytes (Index/Journal),
--              `Manifest::classify` (Index/Classify), and the two files with `load` and
--              `persist_after_plan` (Index/Snapshot)
--   Plan       crates/ripsync-core/src/plan.rs: `build_plan_controlled` is `build_plan`, over what
--              the walks, the checkpoints and `Manifest::load` answer (`World`)
--   Report     crates/ripsync-core/src/report.rs: the counters `Stats`
--   Disk       what the program calls of a file system, as operations on a state of any type
--   Meta       crates/ripsync-core/src/meta.rs: `check_relative`, `canonical_root`, `contained_target`
--   Apply      crates/ripsync-core/src/apply.rs as Linux has it: the dry run and the division of the
--              work in Apply; one entry of each kind in Apply/Entries and Apply/Deleting; the
--              choice of the backend in Apply/Backends; `apply_real` in Apply/Phases
--   Tune       crates/ripsync-core/src/tune.rs: `resolve` and `Profile::params`
--   Control    crates/ripsync-core/src/control.rs: `RunControl` as a step relation, in which a worker
--              stands at one of the accesses of `checkpoint`
--   Net        crates/ripsync-core/src/net: transport.rs, frames as bytes of a stream (`send_msg`,
--              `recv_msg`) and the in-process pipe, whose runs are a step relation; proto.rs
--              in Net/Proto; mod.rs in Net/Handshake; sender.rs in Net/Sender, where the
--              answers to all requests are one function of their list; receiver.rs in
--              Net/Receiver and Net/Receiver/Run. Net/Session puts sender and receiver
--              together; `run_initiator` and `run_responder` are in Net/Roles. There a
--              connection is a list of messages; a send fails as `send_msg` does
--   Verify     crates/ripsync-core/src/verify.rs: `compare_entry` and the loop over what is
--              selected; `verify` itself, with the loops over hard links and over what the
--              destination has besides, in Verify/Run
--
-- Bounds and fuel. A number of the code is a natural number with its wrap or its clamp written
-- out; a `u64` or `usize` that only counts what is in memory has no bound. The encoder's loop
-- runs on fuel, one round for each place of the window and one more, which is enough wherever the
-- block size is not 0. The replay of the journal has a round for each byte and one more; a record
-- takes 36 bytes, so the fuel is never used up. A chunk takes a byte at least, so the length of
-- the buffer is fuel enough to cut it.
--
-- Parallel work. The batches of `apply_real` are gone through in
-- order; a cancellation is seen at the checkpoints, whose n-th answer is an argument, and ends the
-- run there. `RunControl` itself, with its flags, lock and wake-ups, is in Control.
--
-- Parameters. BLAKE3, bincode, zstd, globset and the rounded square root of a float are arguments;
-- what a theorem needs of them is a hypothesis. So is the state of the file system where a decision
-- reads it (`Live`), the calls that read or change it (`Disk`, and `Calls` of Apply), on a state of
-- any type, and what the system answers to the calls on the index's directory.
--
-- Not modelled: the system calls behind these parameters, among them the copy of a file's bytes
-- (copy.rs, io/uring.rs) and the walk of a tree; events, their texts and the terminal; the command
-- line, ssh and the watcher, which bind the core to a user; the build tasks.
pub mod Prelude
pub mod Checksum
pub mod Errors
pub mod Delta
pub mod Filter
pub mod Paths
pub mod Entries
pub mod Index
pub mod Plan
pub mod Net
pub mod Verify
pub mod Report
pub mod Disk
pub mod Meta
pub mod Control
pub mod Apply
pub mod Tune
