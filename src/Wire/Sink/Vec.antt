-- ===== src/Wire/Sink/Vec.antt =====
-- `impl WireSink for Vec<u8>`: a write appends and never fails.
use project_bifrost.Base.{Bytes, ◌++◌, Outcome, ok, refl, append_assoc, append-nil}
use project_bifrost.Wire.Error.{WireError}
use project_bifrost.Wire.Sink.{WireSink}
use project_bifrost.Wire.Sink.Emits.{SinkLaws}

abbrev pub vec_write : Bytes → Bytes → Outcome WireError (Unit {0}) × Bytes
vec_write bytes s = (ok tt, s ++ bytes)

abbrev pub vec_sink : WireSink Bytes
vec_sink = record { write = vec_write }

-- There is always room.
abbrev pub vec_laws : SinkLaws vec_sink
vec_laws = record {
  Room = λ s n. Unit;
  put = λ s chunk. s ++ chunk;
  room_left = λ s a b r. tt;
  room_after = λ s chunk b r. tt;
  put_nil = append-nil;
  put-append = λ s a b r. append_assoc s a b;
  write_fits = λ s chunk r. refl;
}
