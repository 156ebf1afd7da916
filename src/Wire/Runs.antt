-- ===== src/Wire/Runs.antt =====
-- Concrete runs of the codecs, and the theorems at concrete inputs.
use project_bifrost.Base.{
  Bool, leb, ◌≤◌, false, ℕ, ◌+◌, ◌≡◌, ◌↔◌, refl, arith, inl, List, [], ◌∷◌, ◌++◌, map, Bytes, true,
  ok, panic, length, le_bytes, replicate, take, drop, some,
}
use project_bifrost.Wire.Decoder.Cut.{IsTruncated}
use project_bifrost.Wire.Sink.Vec.{vec_sink, vec_laws}
use project_bifrost.Wire.Sink.Slice.{SliceSink, copy_at, slice_sink}
use project_bifrost.Wire.Iter.{Iter, drain}
use project_bifrost.Wire.Iter.Laws.{fresh}
use project_bifrost.Wire.FieldReloc.{FieldRelocInput}
use project_bifrost.Wire.FieldReloc.Decode.{decode_one_field_reloc, decode_field_relocs}
use project_bifrost.Wire.FieldReloc.Encode.{encode_field_relocs}
use project_bifrost.Wire.FieldReloc.RoundTrip.{reloc_view, decode-encode_field_relocs}
use project_bifrost.Wire.FieldReloc.RoundTrip
use project_bifrost.Wire.FieldReloc.Safety.{decode_one_field_reloc_panics_iff}
use project_bifrost.Wire.Program.{ProgramSpec, MapSpec, path}
use project_bifrost.Wire.Program.Decode.{decode_one_program}
use project_bifrost.Wire.Program.Encode.{push_program, name32}
use project_bifrost.Wire.Program.Emit
use project_bifrost.Wire.Program.Emit.{program_bytes}
use project_bifrost.Wire.Program.RoundTrip.{program_view}
use project_bifrost.Wire.Program.Sinks.{push_program_sinks, decode_one_program_cut}
use project_bifrost.Wire.Wrapper.{build_wrapper, decode_bfr7}
use project_bifrost.Wire.Wrapper.RoundTrip.{decode-build_wrapper}
use project_bifrost.Wire.Wrapper.Safety.{LoopsSafely, decode_bfr7_safe}
use project_bifrost.Wire.Profile.{ProfileSampleView, decode_profile_sample, frames}
use project_bifrost.Wire.Profile.Encode.{encode_profile_sample}
use project_bifrost.Wire.Profile.RoundTrip.{decode-encode_profile_sample}
use project_bifrost.Wire.SelfTrace.{SelfFieldOwned, SelfEventView}
use project_bifrost.Wire.SelfTrace.Decode.{decode_event, decode_one_field, fields}
use project_bifrost.Wire.SelfTrace.Encode.{encode_event}
use project_bifrost.Wire.SelfTrace.Fields.{field_view}
use project_bifrost.Wire.Envelope
use project_bifrost.Wire.Envelope.{SessionEnvelope, encode, decode}
use project_bifrost.Wire.Envelope.RoundTrip.{decode-encode_envelope}
use project_bifrost.Wire.SelfTrace.Safety.{FieldsSafely, decode_event_safe}
use project_bifrost.Wire.LoadProg.{
  LoadProgStatusEntry, encode_loadprog_status, decode_loadprog_status,
}
use project_bifrost.Wire.LoadProg.RoundTrip.{
  decode-encode_loadprog_status, decode_loadprog_status_aborts_iff, declared,
}
use project_bifrost.Wire.SelfTrace.RoundTrip.{decode-encode_event}

abbrev task_reloc : FieldRelocInput
task_reloc = record {
  insn_idx = 8;
  access_kind = 0;
  byte_off_in_insn = 2;
  struct_name = 0x74 ∷ 0x73 ∷ [];
  field_name = 0x70 ∷ [];
}

task_reloc-IsEncodable : RoundTrip.IsEncodable task_reloc
task_reloc-IsEncodable = record {
  idx = omega arith;
  access = omega arith;
  byte_off = omega arith;
  struct_some = omega arith;
  struct_fits = omega arith;
  field_some = omega arith;
  field_fits = omega arith;
}

abbrev count_map : MapSpec
count_map = record {
  map_type = 1;
  key_size = 4;
  value_size = 8;
  max_entries = 64;
  fake_fd = 3;
  name = 0x6d ∷ [];
}

-- A uprobe with one map, one instruction, a kfunc and a field relocation.
abbrev uprobe : ProgramSpec
uprobe = record {
  target_name = 0x61 ∷ 0x62 ∷ [];
  probe_type = 2;
  trailer = path (0x2f ∷ 0x78 ∷ []) 4096;
  schema_bytes = 7 ∷ [];
  maps = count_map ∷ [];
  insns = 1 ∷ 2 ∷ 3 ∷ 4 ∷ 5 ∷ 6 ∷ 7 ∷ 8 ∷ [];
  kfunc_relocs = (0, 0x6b ∷ []) ∷ [];
  field_relocs = task_reloc ∷ [];
}

uprobe-IsEncodable : Emit.IsEncodable uprobe
uprobe-IsEncodable = record {
  trailer = (inl refl, omega arith, omega arith);
  schema = omega arith;
  maps = omega arith;
  whole = omega arith;
  insns = omega arith;
  kfunc_count = omega arith;
  kfuncs = ((omega arith, (omega arith, omega arith)), tt);
  field_count = omega arith;
  fields = (task_reloc-IsEncodable, tt);
}

decode-build_wrapper_example :
    (bytes : Bytes) × (build_wrapper vec_sink (uprobe ∷ uprobe ∷ []) [] ≡ (ok tt, bytes))
    × (decode_bfr7 bytes ≡ ok (fresh bytes 8 2))
    × (drain 3 decode_one_program (fresh bytes 8 2)
        ≡ (map (λ p. ok (program_view p)) (uprobe ∷ uprobe ∷ []), fresh bytes (length bytes) 0))
decode-build_wrapper_example =
    decode-build_wrapper (uprobe ∷ uprobe ∷ []) 3 (omega arith)
      (uprobe-IsEncodable, (uprobe-IsEncodable, tt)) (omega arith)

abbrev two_declared : Bytes
two_declared = 0x42 ∷ 0x46 ∷ 0x52 ∷ 0x37 ∷ 2 ∷ 0 ∷ 0 ∷ 0 ∷ 1 ∷ []

decode_bfr7_safe_example : LoopsSafely 9 (decode_bfr7 two_declared)
decode_bfr7_safe_example = decode_bfr7_safe two_declared

abbrev big_slice : SliceSink
big_slice = record { buf = replicate 256 0; cursor = 3 }

uprobe_fits : 3 + length (program_bytes uprobe) ≡ 151
unfolding program_bytes name32 Emit.trailer_bytes Emit.map_bytes Emit.kfunc_table Emit.kfunc_bytes
    Emit.field_table RoundTrip.field_relocs_bytes RoundTrip.field_reloc_bytes le_bytes
uprobe_fits = refl

push_program_sinks_example :
    (bytes : Bytes) × (push_program vec_sink uprobe (1 ∷ []) ≡ (ok tt, (1 ∷ []) ++ bytes))
    × (push_program slice_sink uprobe big_slice
        ≡ (ok tt, record { buf = copy_at (replicate 256 0) 3 bytes; cursor = 3 + length bytes }))
push_program_sinks_example =
    push_program_sinks uprobe big_slice (1 ∷ []) uprobe-IsEncodable (omega (arith, uprobe_fits))

decode_one_program_cut_example :
    IsTruncated (decode_one_program ((9 ∷ []) ++ take 40 (program_bytes uprobe)) 1)
unfolding program_bytes name32 Emit.trailer_bytes Emit.map_bytes Emit.kfunc_table Emit.kfunc_bytes
    Emit.field_table RoundTrip.field_relocs_bytes RoundTrip.field_reloc_bytes le_bytes
decode_one_program_cut_example =
    decode_one_program_cut uprobe (9 ∷ []) (take 40 (program_bytes uprobe))
      (drop 41 (program_bytes uprobe)) 0x2f uprobe-IsEncodable
      ((Emit.Emits-push_program vec_laws uprobe uprobe-IsEncodable).at [] tt)

decode-encode_field_relocs_example :
    (bytes : Bytes) × (it : Iter) × (encode_field_relocs vec_sink (task_reloc ∷ []) []
      ≡ (ok tt, bytes))
    × (decode_field_relocs bytes ≡ ok it)
    × ((drain 2 decode_one_field_reloc it).0 ≡ ok (reloc_view task_reloc) ∷ [])
    × ((drain 2 decode_one_field_reloc it).1.remaining ≡ 0)
decode-encode_field_relocs_example =
    decode-encode_field_relocs (task_reloc ∷ []) 2 (omega arith) (task_reloc-IsEncodable, tt)
      (omega arith)

abbrev seven : Bytes
seven = 8 ∷ 0 ∷ 0 ∷ 0 ∷ 1 ∷ 2 ∷ 3 ∷ []

decode_one_field_reloc_panics_iff_example :
    (decode_one_field_reloc seven 0 ≡ panic) ↔ (0 + 7 ≡ length seven)
decode_one_field_reloc_panics_iff_example = decode_one_field_reloc_panics_iff seven 0

decode-encode_profile_sample_example :
    (bytes : Bytes) × (view : ProfileSampleView) × (encode_profile_sample vec_sink 10 11 2 1
        (4096 ∷ 8192 ∷ [])
        []
      ≡ (ok tt, bytes))
    × (decode_profile_sample bytes 0 ≡ ok (view, length bytes))
    × (view.pid ≡ 10)
    × (view.tid ≡ 11)
    × (view.cpu_id ≡ 2)
    × (view.flags ≡ 1)
    × (frames view ≡ 4096 ∷ 8192 ∷ [])
decode-encode_profile_sample_example =
    decode-encode_profile_sample 10 11 2 1 (4096 ∷ 8192 ∷ []) (omega arith) (omega arith)
      (omega arith) (omega arith) (omega arith, (omega arith, tt)) (omega arith)

abbrev two_fields : List (Bytes × SelfFieldOwned)
two_fields = (0x61 ∷ [], SelfFieldOwned.u64 5) ∷ ([], SelfFieldOwned.bool true) ∷ []

decode-encode_event_example :
    (bytes : Bytes) × (view : SelfEventView) × (encode_event vec_sink 2 1 (0x68 ∷ []) two_fields []
      ≡ (ok tt, bytes))
    × (decode_event bytes 0 ≡ ok (view, length bytes))
    × (view.level ≡ 2)
    × (view.subsystem ≡ 1)
    × (view.msg ≡ 0x68 ∷ [])
    × (drain 3 decode_one_field (fields view) ≡ (
      map (λ f. ok (field_view f)) two_fields,
      fresh view.fields_bytes (length view.fields_bytes) 0,
    ))
decode-encode_event_example =
    decode-encode_event 2 1 (0x68 ∷ []) two_fields 3 (omega arith) (omega arith) (omega arith)
      (omega arith) ((omega arith, omega arith), ((omega arith, tt), tt)) (omega arith)

-- Two fields are declared, and the second is cut short.
decode_event_safe_example :
    FieldsSafely (decode_event (1 ∷ 2 ∷ 2 ∷ 0 ∷ 0 ∷ 0 ∷ 0 ∷ 0 ∷ 9 ∷ 0 ∷ 0 ∷ 7 ∷ []) 0)
decode_event_safe_example = decode_event_safe (1 ∷ 2 ∷ 2 ∷ 0 ∷ 0 ∷ 0 ∷ 0 ∷ 0 ∷ 9 ∷ 0 ∷ 0 ∷ 7 ∷ [])

abbrev two_entries : List LoadProgStatusEntry
two_entries = record { status = 0; detail = [] } ∷ record { status = 3; detail = 0x6b ∷ [] } ∷ []

-- An allocator that gives room for a thousand entries.
abbrev thousand : ℕ → Bool
thousand n = leb n 1000

decode-encode_loadprog_status_example :
    (bytes : Bytes) × (encode_loadprog_status vec_sink two_entries [] ≡ (ok tt, bytes))
    × (decode_loadprog_status thousand bytes 0 ≡ ok (two_entries, length bytes))
decode-encode_loadprog_status_example =
    decode-encode_loadprog_status thousand two_entries refl (omega arith)
      ((omega arith, omega arith), ((omega arith, omega arith), tt))

-- A count of 2 ^ 32 - 1 entries.
abbrev many : Bytes
many = 255 ∷ 255 ∷ 255 ∷ 255 ∷ []

decode_loadprog_status_aborts_iff_example :
    (decode_loadprog_status thousand many 0 ≡ panic)
    ↔ ((4 ≤ length many) × (thousand (declared many) ≡ false))
decode_loadprog_status_aborts_iff_example = decode_loadprog_status_aborts_iff thousand many

abbrev small_envelope : SessionEnvelope
small_envelope = record {
  wire_major = 1;
  wire_minor = 0;
  target_os = 2;
  flags = 5;
  session_id = 77;
  duration_ms = 1000;
  dof_offset = 4096;
  dof_length = 269;
  dof_sha256 = replicate 32 0xab;
  capability_request = 3;
  capability_required = 1;
}

decode-encode_envelope_example :
    (out : Bytes) × (encode small_envelope (replicate 100 1) ≡ some (96, out))
    × (length out ≡ 100)
    × (drop 96 out ≡ replicate 4 1)
    × (decode out ≡ Envelope.ok small_envelope)
decode-encode_envelope_example =
    decode-encode_envelope small_envelope (replicate 100 1)
      (record {
        minor = omega arith;
        os = omega arith;
        flag = omega arith;
        id = omega arith;
        duration = omega arith;
        offset = omega arith;
        len = omega arith;
        sha = refl;
        request = omega arith;
        required = omega arith;
      })
      refl (omega arith)
