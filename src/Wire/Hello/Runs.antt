-- ===== src/Wire/Hello/Runs.antt =====
-- The handshake's theorems at concrete inputs.
use project_bifrost.Base.{◌≡◌, arith, false, List, [], ◌∷◌, map, Bytes, ok, length}
use project_bifrost.Wire.Sink.Vec.{vec_sink}
use project_bifrost.Wire.Iter.{drain}
use project_bifrost.Wire.Iter.Laws.{fresh}
use project_bifrost.Wire.SelfTrace.{SelfFieldOwned}
use project_bifrost.Wire.SelfTrace.Decode.{decode_one_field}
use project_bifrost.Wire.SelfTrace.Fields.{field_view}
use project_bifrost.Wire.Hello.{
  HelloView, HelloAckView, hello_fields, hello_ack_fields, decode_hello, decode_hello_ack,
  encode_hello, encode_hello_ack,
}
use project_bifrost.Wire.Hello.RoundTrip.{decode-encode_hello, decode-encode_hello_ack}

abbrev host_pid : List (Bytes × SelfFieldOwned)
host_pid = (0x70 ∷ [], SelfFieldOwned.u64 4242) ∷ []

decode-encode_hello_example :
    (bytes : Bytes) × (view : HelloView) × (encode_hello vec_sink 1 2 3 host_pid []
      ≡ (ok tt, bytes))
    × (decode_hello bytes 0 ≡ ok (view, length bytes))
    × (view.wire_major ≡ 1)
    × (view.wire_minor ≡ 2)
    × (view.feature_bits ≡ 3)
    × (drain 2 decode_one_field (hello_fields view) ≡ (
      map (λ f. ok (field_view f)) host_pid,
      fresh view.fields_bytes (length view.fields_bytes) 0,
    ))
decode-encode_hello_example =
    decode-encode_hello 1 2 3 host_pid 2 (omega arith) (omega arith) (omega arith) (omega arith)
      ((omega arith, omega arith), tt) (omega arith)

decode-encode_hello_ack_example :
    (bytes : Bytes) × (view : HelloAckView) × (encode_hello_ack vec_sink false 2 1 2 3 host_pid []
      ≡ (ok tt, bytes))
    × (decode_hello_ack bytes 0 ≡ ok (view, length bytes))
    × (view.accepted ≡ false)
    × (view.reject_reason ≡ 2)
    × (view.wire_major ≡ 1)
    × (view.wire_minor ≡ 2)
    × (view.feature_bits ≡ 3)
    × (drain 2 decode_one_field (hello_ack_fields view) ≡ (
      map (λ f. ok (field_view f)) host_pid,
      fresh view.fields_bytes (length view.fields_bytes) 0,
    ))
decode-encode_hello_ack_example =
    decode-encode_hello_ack false 2 1 2 3 host_pid 2 (omega arith) (omega arith) (omega arith)
      (omega arith) (omega arith) ((omega arith, omega arith), tt) (omega arith)
