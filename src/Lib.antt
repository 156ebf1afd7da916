-- ===== src/Lib.antt =====
-- The wire formats of Bifrost, the rings they travel in, and what the host checks and merges.
--
-- Bifrost compiles D programs on the host, sends them to guest kernels and reads trace records
-- back. What crosses the boundary is encoded and decoded by the crate bifrost-wire; the crate
-- bifrost-dtrace-lower walks the DOF blob of a session and calls the guest kernel's adapter:
--
--   Base         lists, Boolean tests, results and little-endian words that the modules share
--   Wire         host/bifrost-wire/src: the codecs
--     Error        WireError (codec.rs)
--     Decoder      the shape of the decoders: an input, a cursor, `?` and out-of-bounds panics;
--                  its children are the logics used in the proofs: Reads (what a decoder makes of
--                  the bytes an encoder wrote), Bounds (it stays inside its input), Stable and Cut
--                  (what it does on a longer or a shorter input), Whole (decoders of the rest)
--     Sink         trait WireSink with the laws of a sink (Emits), Vec<u8> and SliceSink
--     Iter         ProgramIter, FieldRelocIter and SelfFieldIter, which share one `next`
--     FieldReloc   codec_field_reloc.rs: encode_field_relocs, decode_field_relocs
--     Program      codec.rs: decode_one_program and WrapperBuilder::push_program
--     Wrapper      codec.rs: decode_bfr7 and WrapperBuilder
--     Profile      codec_profile.rs: encode_profile_sample, decode_profile_sample
--     SelfTrace    codec_self_trace.rs: encode_event, decode_event, SelfFieldIter
--     LoadProg     codec.rs: encode_loadprog_status, decode_loadprog_status
--     Hello        codec_hello.rs: HELLO and HELLO_ACK, encode and decode
--     Envelope     session_envelope.rs: encode, decode
--     Runs         runs at concrete inputs
--   Lower        crates/bifrost-dtrace-lower/src: what a guest does with a session's DOF blob
--     Error        LowerError (lib.rs) and RejectReason (adapter.rs)
--     Dof          dof.rs: parse_blob, section_at, section_bytes
--     Action, Agg  action.rs and agg.rs: the kinds and the action row
--     Adapter      adapter.rs: trait KernelAdapter, as a record of operations on a state
--     Ecb          ecb.rs: iter_ecbs, walk_actions
--     Resolve      session.rs: resolve_probe_target, read_cstr
--     Session      session.rs: drive and drive_one; its children are what is shown of the driver:
--                  Statuses, Policy, Sentinel, Chain and Accepted, Ledger and Attached
--     Runs         a session over a small blob, and runs at concrete inputs
--   Conduit      the shared memory that commands and responses travel in
--     Memory       the region's bytes, and reads and writes of little-endian words
--     Layout       host/virtio-conduit/src/control.rs: compute_ring_layout
--     Ring         the same file and host/bifrost/src/control_shmem.rs: push_cmd, push_rsp,
--                  drain_cmds, drain_rsp_ring, poll_rsp; its children are the slots that lie in a
--                  ring (Offsets, Laid, Writes, Held) and what the operations do to the queue that
--                  a ring holds (Push, Drain, Poll, Room, Trace)
--     Records      host/bifrost/src/control_shmem.rs: records_between_in_ring, read_ring_bytes;
--                  its children are the bytes by their positions (Around) and the records that a
--                  walk gives (Steps)
--     Runs         runs at concrete inputs
--   Host         host/bifrost/src
--     Verify       verify.rs: static_check; the rules that it enforces and what it accepts
--     Merge        merge.rs: MergedRing, its push and drain_eligible
--     Reduce       merge.rs: CrossTargetAggReducer
--     Fanout       cli/capability_fanout.rs: fanout, StatusAccumulator
--     Emit         lower/emit.rs: the encoders and emitters of eBPF, checked by Verify
--     Branch       lower/branch.rs: fixup_branches and emit_branch_placeholder
--     Runs         runs at concrete inputs
--
-- Bytes are natural numbers, read as numbers below 256; `to_le_bytes` and `from_le_bytes` are
-- written out at every width. A narrowing `as` keeps its remainder. Lengths and cursors are `usize`
-- on a 64-bit host and are not bounded: no sum in the decoders exceeds a length plus a few 32-bit
-- counts. A decoder is a function from the input and a cursor to a value and the next cursor, an
-- error, or a panic; an out-of-bounds index or slice is the panic. An encoder is a function on the
-- state of its sink, which comes back beside the error, since what was written stays written.
-- A loop over an iterator is `drain` with fuel: one call more than the declared count is enough,
-- and that is shown together with the result. `&str` arguments are their UTF-8 bytes.
-- The allocator's answer to the `Vec::with_capacity` of decode_loadprog_status is a parameter, and a
-- refusal ends the program as a panic does.
--
-- In Lower, reads of a row stand behind the code's own length tests. `iter_ecbs` is the list of what
-- the iterator yields, a row being at least one byte long; the closure given to `walk_actions` has
-- its variable `action_err` and the adapter as its state; the calls of `on_status` come back as a
-- list; `core::str::from_utf8` is a parameter. The counters of `drive` are u32s that wrap.
--
-- In Conduit a cursor is a u64 that wraps, and the theorems ask that it has not gone round at
-- 2 ^ 64. The two producers have one body in the source, and so have the consumers' loops; each is
-- one function here. A push and a round of a consumer's loop are steps that do not overlap. A
-- drain has fuel: a round for every 16 bytes of the ring and one more is enough. The rounds of
-- poll_rsp are those that begin before its deadline.
--
-- A reader of a data ring sees one state of the memory: its spin on a busy record is one load. Its
-- loop is on the number of records still allowed, which each round but the last makes smaller.
--
-- In Host an i16 or i32 is an integer, cast as the source casts it. The loops of static_check and
-- drain_eligible have fuel, one round more than instructions or records, and end by their own test.
-- A `String` that is compared is its UTF-8 bytes.
--
-- Not modelled: the functions that map codes to labels, the host's command line, planner, the
-- lowering of DIF, the data rings' headers and cursors, the mapping of shared memory and the
-- wake-up FIFO, drain_all in merge.rs, the FFI to libdtrace, and the guests' C code.
pub mod Base
pub mod Wire
pub mod Lower
pub mod Conduit
pub mod Host
