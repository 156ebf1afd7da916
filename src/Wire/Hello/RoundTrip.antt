-- ===== src/Wire/Hello/RoundTrip.antt =====
-- A handshake message is read back, fields and all.
use project_bifrost.Base.{
  ℕ, ◌+◌, ◌≤◌, ◌<◌, ◌≡◌, refl, sym, ap, ◌∙◌, arith, Bool, true, false, not, List, [], ◌∷◌, ◌++◌,
  map, append-nil, Bytes, IsByte, IsU32, IsU64, ok, length, le_bytes, as_u16, chunks, All, sizes,
  le→ltb, ◌==◌, if◌then◌else◌,
}
use project_bifrost.Wire.Decoder.Reads.{Reads-uint, Reads-cast, Reads-byte}
use project_bifrost.Wire.Decoder.Whole.{
  ReadsAll, ReadsAll-bind, ReadsAll-need, ReadsAll-rest, ReadsAll-whole,
}
use project_bifrost.Wire.Sink.{WireSink}
use project_bifrost.Wire.Sink.Emits.{SinkLaws, Emits, Emits-write, Emits-check, Emits-seq}
use project_bifrost.Wire.Sink.Vec.{vec_sink, vec_laws}
use project_bifrost.Wire.Iter.{drain}
use project_bifrost.Wire.Iter.Laws.{fresh, drain-written}
use project_bifrost.Wire.SelfTrace.{SelfFieldOwned}
use project_bifrost.Wire.SelfTrace.Decode.{decode_one_field}
use project_bifrost.Wire.SelfTrace.Fields.{
  field_view, field_bytes, FieldFits, Emits-fields, Reads-field,
}
use project_bifrost.Wire.Hello.{
  HelloView, HelloAckView, hello_fields, hello_ack_fields, decode_hello, decode_hello_ack,
  encode_hello, encode_hello_ack,
}

unfoldable pub hello_bytes : ℕ → ℕ → ℕ → List (Bytes × SelfFieldOwned) → Bytes
hello_bytes major minor bits owned =
    le_bytes 4 major
    ++ (le_bytes 4 minor
        ++ (le_bytes 8 bits ++ (le_bytes 2 (as_u16 (length owned)) ++ chunks field_bytes owned)))

abbrev pub hello_view : ℕ → ℕ → ℕ → List (Bytes × SelfFieldOwned) → HelloView
hello_view major minor bits owned = record {
  wire_major = major;
  wire_minor = minor;
  feature_bits = bits;
  fields_bytes = chunks field_bytes owned;
  num_fields = length owned;
}

abbrev pub flag : Bool → ℕ
flag accepted = if accepted then 1 else 0

flag_small : (accepted : Bool) → flag accepted < 256
flag_small true = omega arith
flag_small false = omega arith

flag_back : (accepted : Bool) → not (flag accepted == 0) ≡ accepted
flag_back true = refl
flag_back false = refl

abbrev pub ack_bytes : Bool → ℕ → Bytes
ack_bytes accepted reason = flag accepted ∷ reason ∷ []

abbrev pub ack_view : Bool → ℕ → ℕ → ℕ → ℕ → List (Bytes × SelfFieldOwned) → HelloAckView
ack_view accepted reason major minor bits owned = record {
  accepted = not (flag accepted == 0);
  reject_reason = reason;
  wire_major = major;
  wire_minor = minor;
  feature_bits = bits;
  fields_bytes = chunks field_bytes owned;
  num_fields = length owned;
}

module _ (major minor bits : ℕ) (owned : List (Bytes × SelfFieldOwned))
    (hn : length owned ≤ 65535) where
  Emits-hello :
      {S : Type 0} {sink : WireSink S} (laws : SinkLaws sink)
      → All FieldFits owned
      → Emits laws (encode_hello sink major minor bits owned) (hello_bytes major minor bits owned)
  unfolding encode_hello hello_bytes
  Emits-hello laws hs = Emits-seq laws (Emits-check laws _ (le→ltb _ _ hn)) (
      Emits-seq laws (Emits-write laws _) (
        Emits-seq laws (Emits-write laws _) (
          Emits-seq laws (Emits-write laws _)
            (Emits-seq laws (Emits-write laws _) (Emits-fields laws _ _ owned hs)))))

  Reads-hello :
      IsU32 major
      → IsU32 minor
      → IsU64 bits
      → ReadsAll decode_hello
          (hello_bytes major minor bits owned)
          (hello_view major minor bits owned)
  unfolding decode_hello hello_bytes
  Reads-hello h1 h2 h3 = ReadsAll-need 18 _ (omega sizes) (
      ReadsAll-bind _ major (Reads-uint 4 _ h1) (
        ReadsAll-bind _ minor (Reads-uint 4 _ h2) (
          ReadsAll-bind _ bits (Reads-uint 8 _ h3) (
            ReadsAll-bind _ (length owned) (Reads-cast 2 _ _ (omega arith) (omega arith))
              (ReadsAll-rest _ (chunks field_bytes owned))))))

  module _ (accepted : Bool) (reason : ℕ) where
    Emits-ack :
        {S : Type 0} {sink : WireSink S} (laws : SinkLaws sink)
        → All FieldFits owned
        → Emits laws
            (encode_hello_ack sink accepted reason major minor bits owned)
            (ack_bytes accepted reason ++ hello_bytes major minor bits owned)
    unfolding encode_hello_ack hello_bytes
    Emits-ack laws hs = Emits-seq laws (Emits-check laws _ (le→ltb _ _ hn)) (
        Emits-seq laws (Emits-write laws _) (
          Emits-seq laws (Emits-write laws _) (
            Emits-seq laws (Emits-write laws _) (
              Emits-seq laws (Emits-write laws _) (
                Emits-seq laws (Emits-write laws _)
                  (Emits-seq laws (Emits-write laws _) (Emits-fields laws _ _ owned hs)))))))

    Reads-ack :
        IsByte reason
        → IsU32 major
        → IsU32 minor
        → IsU64 bits
        → ReadsAll decode_hello_ack
            (ack_bytes accepted reason ++ hello_bytes major minor bits owned)
            (ack_view accepted reason major minor bits owned)
    unfolding decode_hello_ack hello_bytes
    Reads-ack hr h1 h2 h3 = ReadsAll-need 20 _ (omega sizes) (
        ReadsAll-bind _ {c = flag accepted ∷ []} (flag accepted)
          (Reads-byte _ _ refl (flag_small accepted))
          (ReadsAll-bind _ {c = reason ∷ []} reason (Reads-byte _ _ refl hr) (
            ReadsAll-bind _ major (Reads-uint 4 _ h1) (
              ReadsAll-bind _ minor (Reads-uint 4 _ h2) (
                ReadsAll-bind _ bits (Reads-uint 8 _ h3) (
                  ReadsAll-bind _ (length owned) (Reads-cast 2 _ _ (omega arith) (omega arith))
                    (ReadsAll-rest _ (chunks field_bytes owned))))))))

-- A loop over encoded fields yields them all.
fields_loop :
    (owned : List (Bytes × SelfFieldOwned)) (fuel : ℕ) (rest : Bytes)
    → rest ≡ chunks field_bytes owned
    → All FieldFits owned
    → length owned < fuel
    → drain fuel decode_one_field (fresh rest 0 (length owned))
      ≡ (map (λ f. ok (field_view f)) owned, fresh rest (length rest) 0)
fields_loop owned fuel rest e hs hf =
    drain-written decode_one_field field_bytes field_view Reads-field owned fuel rest [] [] 0 hs hf
      (e ∙ sym (append-nil _)) refl
    ∙ ap (λ (c : ℕ). (map (λ f. ok (field_view f)) owned, fresh rest c 0))
        (let c : 0 + length (chunks field_bytes owned) ≡ length rest = rw e (omega arith) in c)

-- A HELLO whose fields fit the format, encoded into a `Vec`, decodes: the versions and the feature
-- bits come back, and a loop over its fields yields every key with its typed value, in order, with
-- nothing left over.
pub decode-encode_hello :
    (major minor bits : ℕ) (owned : List (Bytes × SelfFieldOwned)) (fuel : ℕ)
    → IsU32 major
    → IsU32 minor
    → IsU64 bits
    → length owned ≤ 65535
    → All FieldFits owned
    → length owned < fuel
    → (bytes : Bytes) × (view : HelloView) × (encode_hello vec_sink major minor bits owned []
        ≡ (ok tt, bytes))
      × (decode_hello bytes 0 ≡ ok (view, length bytes))
      × (view.wire_major ≡ major)
      × (view.wire_minor ≡ minor)
      × (view.feature_bits ≡ bits)
      × (drain fuel decode_one_field (hello_fields view) ≡ (
        map (λ f. ok (field_view f)) owned,
        fresh view.fields_bytes (length view.fields_bytes) 0,
      ))
decode-encode_hello major minor bits owned fuel h1 h2 h3 hn hs hf = (
  hello_bytes major minor bits owned,
  hello_view major minor bits owned,
  (Emits-hello major minor bits owned hn vec_laws hs).at [] tt,
  ReadsAll-whole (Reads-hello major minor bits owned hn h1 h2 h3),
  refl,
  refl,
  refl,
  fields_loop owned fuel (chunks field_bytes owned) refl hs hf,
)

-- A HELLO_ACK whose fields fit the format, encoded into a `Vec`, decodes: the verdict, its reason,
-- the versions and the feature bits come back, and a loop over its fields yields every key with its
-- typed value, in order, with nothing left over.
pub decode-encode_hello_ack :
    (accepted : Bool) (reason major minor bits : ℕ) (owned : List (Bytes × SelfFieldOwned))
    (fuel : ℕ)
    → IsByte reason
    → IsU32 major
    → IsU32 minor
    → IsU64 bits
    → length owned ≤ 65535
    → All FieldFits owned
    → length owned < fuel
    → (bytes : Bytes) × (view : HelloAckView) × (encode_hello_ack vec_sink accepted reason major
          minor bits owned []
        ≡ (ok tt, bytes))
      × (decode_hello_ack bytes 0 ≡ ok (view, length bytes))
      × (view.accepted ≡ accepted)
      × (view.reject_reason ≡ reason)
      × (view.wire_major ≡ major)
      × (view.wire_minor ≡ minor)
      × (view.feature_bits ≡ bits)
      × (drain fuel decode_one_field (hello_ack_fields view) ≡ (
        map (λ f. ok (field_view f)) owned,
        fresh view.fields_bytes (length view.fields_bytes) 0,
      ))
decode-encode_hello_ack accepted reason major minor bits owned fuel hr h1 h2 h3 hn hs hf = (
  ack_bytes accepted reason ++ hello_bytes major minor bits owned,
  ack_view accepted reason major minor bits owned,
  (Emits-ack major minor bits owned hn accepted reason vec_laws hs).at [] tt,
  ReadsAll-whole (Reads-ack major minor bits owned hn accepted reason hr h1 h2 h3),
  flag_back accepted,
  refl,
  refl,
  refl,
  refl,
  fields_loop owned fuel (chunks field_bytes owned) refl hs hf,
)
