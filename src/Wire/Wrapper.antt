-- ===== src/Wire/Wrapper.antt =====
-- The BFR7 wrapper of host/bifrost-wire/src/codec.rs: a header and a sequence of programs.
pub mod RoundTrip
pub mod Safety
use project_bifrost.Base.{
  ℕ, false, not, List, [], ◌∷◌, ◌++◌, Bytes, Outcome, ok, err, panic, length, le_bytes, as_u32,
  bytes_eq, map,
}
use project_bifrost.Wire.Error.{WireError, unsupported_magic}
use project_bifrost.Wire.Decoder
use project_bifrost.Wire.Decoder.{Decoder, ◌>>=◌, need, take_bytes, take_uint, fail_if}
use project_bifrost.Wire.Sink
use project_bifrost.Wire.Sink.{WireSink, Encoder, done}
use project_bifrost.Wire.Iter.{Iter}
use project_bifrost.Wire.Program.{ProgramSpec}
use project_bifrost.Wire.Program.Encode.{push_program}

-- b"BFR7"
abbrev pub bfr7_magic : Bytes
bfr7_magic = 0x42 ∷ 0x46 ∷ 0x52 ∷ 0x37 ∷ []

-- The tests and reads of `decode_bfr7`, from cursor 0.
unfoldable pub decode_wrapper_header : Decoder ℕ
decode_wrapper_header = Decoder.◌>>◌ (need 8 "wrapper-header") (
    take_bytes 4 >>= λ magic.
    Decoder.◌>>◌ (fail_if (not (bytes_eq magic bfr7_magic)) (unsupported_magic magic))
      (take_uint 4))

abbrev pub program_iter : Bytes → Outcome WireError (ℕ × ℕ) → Outcome WireError Iter
program_iter bytes (ok (num_progs, cursor)) =
    ok (record { bytes = bytes; cursor = cursor; remaining = num_progs; failed = false })
program_iter bytes (err e) = err e
program_iter bytes panic = panic

unfoldable pub decode_bfr7 : Bytes → Outcome WireError Iter
decode_bfr7 bytes = program_iter bytes (decode_wrapper_header bytes 0)

module _ {S : Type 0} (sink : WireSink S) where
  -- `WrapperBuilder::new`: the header is written eagerly.
  unfoldable pub new_wrapper : ℕ → Encoder S (Unit {0})
  new_wrapper num_progs = sink.write (bfr7_magic ++ le_bytes 4 num_progs)

  -- The builder's contract: as many `push_program` as were declared.
  unfoldable pub push_programs : List ProgramSpec → Encoder S (Unit {0})
  push_programs [] = done
  push_programs (p ∷ ps) = Sink.◌>>◌ (push_program sink p) (push_programs ps)

  unfoldable pub build_wrapper : List ProgramSpec → Encoder S (Unit {0})
  build_wrapper ps = Sink.◌>>◌ (new_wrapper (as_u32 (length ps))) (push_programs ps)
