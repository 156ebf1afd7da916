-- ===== src/Wire/Program/Sinks.antt =====
-- `push_program` into the two sinks, and its output cut short.
use project_bifrost.Base.{ℕ, ◌+◌, ◌≤◌, ◌≡◌, [], ◌∷◌, ◌++◌, Bytes, ok, length, arith}
use project_bifrost.Wire.Decoder.Bounds.{Guarded-weaken}
use project_bifrost.Wire.Decoder.Cut.{IsTruncated, cut_short}
use project_bifrost.Wire.Sink.Vec.{vec_sink, vec_laws}
use project_bifrost.Wire.Sink.Slice.{SliceSink, copy_at, slice_sink, slice_laws}
use project_bifrost.Wire.Program.{ProgramSpec}
use project_bifrost.Wire.Program.Encode.{push_program}
use project_bifrost.Wire.Program.Decode.{decode_one_program}
use project_bifrost.Wire.Program.Emit.{program_bytes, IsEncodable, Emits-push_program}
use project_bifrost.Wire.Program.RoundTrip.{Reads-program}
use project_bifrost.Wire.Program.Bounds.{decode_one_program-Guarded}
use project_bifrost.Wire.Program.Stable.{decode_one_program-Stable}

-- Of a program whose trailer goes with its probe type, whose code is whole instructions, whose names
-- are within their limits and whose counts are `u32`s, `push_program` succeeds, and what it appends
-- to a `Vec` is what it writes at the cursor of a `SliceSink` that has room for it; the rest of the
-- buffer stays, and the cursor moves behind it.
pub push_program_sinks :
    (p : ProgramSpec) (s : SliceSink) (out : Bytes)
    → IsEncodable p
    → s.cursor + length (program_bytes p) ≤ length s.buf
    → (bytes : Bytes) × (push_program vec_sink p out ≡ (ok tt, out ++ bytes))
      × (push_program slice_sink p s ≡ (
        ok tt,
        record { buf = copy_at s.buf s.cursor bytes; cursor = s.cursor + length bytes },
      ))
push_program_sinks p s out h room = (
  program_bytes p,
  (Emits-push_program vec_laws p h).at out tt,
  (Emits-push_program slice_laws p h).at s room,
)

-- If an input ends inside the bytes of an encodable program, the program is refused as `Truncated`,
-- whatever stands in front of it.
pub decode_one_program_cut :
    (p : ProgramSpec) (before front back : Bytes) (x : ℕ)
    → IsEncodable p
    → push_program vec_sink p [] ≡ (ok tt, front ++ (x ∷ back))
    → IsTruncated (decode_one_program (before ++ front) (length before))
decode_one_program_cut p before front back x h e =
    cut_short (Guarded-weaken 0 0 52 0 (omega arith) (omega arith) decode_one_program-Guarded)
      decode_one_program-Stable (Reads-program p h) before front back x
      (let written : push_program vec_sink p [] ≡ (ok tt, program_bytes p) =
          (Emits-push_program vec_laws p h).at [] tt in
        cc)
