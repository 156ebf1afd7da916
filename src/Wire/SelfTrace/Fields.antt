-- ===== src/Wire/SelfTrace/Fields.antt =====
-- Fields are read back, and the field decoder stays inside its input.
use project_bifrost.Base.{
  ℕ, ◌+◌, ◌≤◌, ◌<◌, refl, arith, true, false, List, [], ◌∷◌, ◌++◌, append-nil, Bytes, length,
  le_bytes, from_le, as_u16, chunks, All, IsU64, sizes, if◌then◌else◌, String, le→ltb,
  length-le_bytes, from_le-le_bytes,
}
use project_bifrost.Wire.Decoder.Bounds.{
  Guarded, Guarded-pure, Guarded-fail, Guarded-need, Guarded-if, Guarded-Takes, Guarded-bind,
  Takes-take, Takes-uint,
}
use project_bifrost.Wire.Decoder.Reads.{
  Reads, Reads-pure, Reads-need, Reads-bind, Reads-last, Reads-take, Reads-cast, Reads-byte,
  Reads-chunk,
}
use project_bifrost.Wire.Sink.{WireSink}
use project_bifrost.Wire.Sink.Emits.{
  SinkLaws, Emits, Emits-write, Emits-check, Emits-seq, Emits-done,
}
use project_bifrost.Wire.SelfTrace.{
  SelfFieldValue, SelfFieldView, SelfFieldOwned, self_field_u64, self_field_i64, self_field_bytes,
  self_field_bool,
}
use project_bifrost.Wire.SelfTrace.Decode.{decode_value, decode_one_field}
use project_bifrost.Wire.SelfTrace.Encode.{encode_value, encode_field, encode_fields}

abbrev pub field_value : SelfFieldOwned → SelfFieldValue
field_value (SelfFieldOwned.u64 v) = SelfFieldValue.u64 v
field_value (SelfFieldOwned.i64 v) = SelfFieldValue.i64 v
field_value (SelfFieldOwned.bytes b) = SelfFieldValue.bytes b
field_value (SelfFieldOwned.bool v) = SelfFieldValue.bool v

abbrev pub field_view : Bytes × SelfFieldOwned → SelfFieldView
field_view (key, value) = record { key = key; value = field_value value }

-- The type byte, and the bytes of the value.
abbrev pub value_type : SelfFieldOwned → ℕ
value_type (SelfFieldOwned.u64 v) = self_field_u64
value_type (SelfFieldOwned.i64 v) = self_field_i64
value_type (SelfFieldOwned.bytes b) = self_field_bytes
value_type (SelfFieldOwned.bool v) = self_field_bool

abbrev pub payload : SelfFieldOwned → Bytes
payload (SelfFieldOwned.u64 v) = le_bytes 8 v
payload (SelfFieldOwned.i64 v) = le_bytes 8 v
payload (SelfFieldOwned.bytes b) = b
payload (SelfFieldOwned.bool v) = (if v then 1 else 0) ∷ []

unfoldable pub value_bytes : SelfFieldOwned → Bytes
value_bytes v = (value_type v ∷ []) ++ (le_bytes 2 (as_u16 (length (payload v))) ++ payload v)

unfoldable pub field_bytes : Bytes × SelfFieldOwned → Bytes
field_bytes (key, value) = le_bytes 2 (as_u16 (length key)) ++ (key ++ value_bytes value)

abbrev pub ValueFits : SelfFieldOwned → Type 0
ValueFits (SelfFieldOwned.u64 v) = IsU64 v
ValueFits (SelfFieldOwned.i64 v) = IsU64 v
ValueFits (SelfFieldOwned.bytes b) = length b ≤ 65535
ValueFits (SelfFieldOwned.bool v) = Unit

-- The limits of the format: keys and byte values of at most 65535 bytes.
abbrev pub FieldFits : Bytes × SelfFieldOwned → Type 0
FieldFits (key, value) = (length key ≤ 65535) × ValueFits value

payload_size : (v : SelfFieldOwned) → ValueFits v → length (payload v) ≤ 65535
payload_size (SelfFieldOwned.u64 v) h = omega sizes
payload_size (SelfFieldOwned.i64 v) h = omega sizes
payload_size (SelfFieldOwned.bytes b) h = h
payload_size (SelfFieldOwned.bool v) h = omega arith

small_type : (v : SelfFieldOwned) → value_type v < 256
small_type (SelfFieldOwned.u64 v) = omega arith
small_type (SelfFieldOwned.i64 v) = omega arith
small_type (SelfFieldOwned.bytes b) = omega arith
small_type (SelfFieldOwned.bool v) = omega arith

Reads-value :
    (v : SelfFieldOwned)
    → ValueFits v
    → Reads (decode_value (value_type v) (length (payload v)) (payload v)) [] (field_value v)
unfolding decode_value
Reads-value (SelfFieldOwned.u64 v) h =
    rw (length-le_bytes 8 v, from_le-le_bytes 8 v h) (Reads-pure (SelfFieldValue.u64 v))
Reads-value (SelfFieldOwned.i64 v) h =
    rw (length-le_bytes 8 v, from_le-le_bytes 8 v h) (Reads-pure (SelfFieldValue.i64 v))
Reads-value (SelfFieldOwned.bytes b) h = Reads-pure (SelfFieldValue.bytes b)
Reads-value (SelfFieldOwned.bool true) h = unfold from_le in Reads-pure (SelfFieldValue.bool true)
Reads-value (SelfFieldOwned.bool false) h = unfold from_le in Reads-pure (SelfFieldValue.bool false)

pub Reads-field :
    (f : Bytes × SelfFieldOwned)
    → FieldFits f
    → Reads decode_one_field (field_bytes f) (field_view f)
unfolding decode_one_field field_bytes value_bytes
Reads-field (key, value) (hk, hv) =
    let size : length (payload value) ≤ 65535 = payload_size value hv in
    Reads-need 2 _ (omega sizes) (
      Reads-bind _ (length key) (Reads-cast 2 _ _ (omega arith) (omega arith)) (
        Reads-need _ _ (omega sizes) (
          Reads-bind _ key (Reads-take key _ refl) (
            Reads-bind _ {c = value_type value ∷ []} (value_type value)
              (Reads-byte _ _ refl (small_type value))
              (Reads-bind _ (length (payload value)) (Reads-cast 2 _ _ (omega arith) (omega arith))
                (Reads-need _ _ (omega sizes) (
                  Reads-chunk (append-nil (payload value)) (
                    Reads-bind _ (payload value) (Reads-take _ _ refl)
                      (Reads-last _ (Reads-value value hv))))))))))

module _ {S : Type 0} {sink : WireSink S} (laws : SinkLaws sink) (key_at bytes_at : String) where
  Emits-value :
      (v : SelfFieldOwned) → ValueFits v → Emits laws (encode_value sink bytes_at v) (value_bytes v)
  unfolding encode_value value_bytes le_bytes
  Emits-value (SelfFieldOwned.u64 v) h =
      Emits-seq laws (Emits-write laws _) (Emits-seq laws (Emits-write laws _) (Emits-write laws _))
  Emits-value (SelfFieldOwned.i64 v) h =
      Emits-seq laws (Emits-write laws _) (Emits-seq laws (Emits-write laws _) (Emits-write laws _))
  Emits-value (SelfFieldOwned.bytes b) h = Emits-seq laws (Emits-check laws _ (le→ltb _ _ h)) (
      Emits-seq laws (Emits-write laws _)
        (Emits-seq laws (Emits-write laws _) (Emits-write laws _)))
  Emits-value (SelfFieldOwned.bool v) h =
      Emits-seq laws (Emits-write laws _) (Emits-seq laws (Emits-write laws _) (Emits-write laws _))

  Emits-field :
      (f : Bytes × SelfFieldOwned)
      → FieldFits f
      → Emits laws (encode_field sink key_at bytes_at f) (field_bytes f)
  unfolding encode_field field_bytes
  Emits-field (key, value) (h, hv) = Emits-seq laws (Emits-check laws _ (le→ltb _ _ h)) (
      Emits-seq laws (Emits-write laws _)
        (Emits-seq laws (Emits-write laws _) (Emits-value value hv)))

  pub Emits-fields :
      (fs : List (Bytes × SelfFieldOwned))
      → All FieldFits fs
      → Emits laws (encode_fields sink key_at bytes_at fs) (chunks field_bytes fs)
  unfolding encode_fields
  Emits-fields [] h = Emits-done laws
  Emits-fields (f ∷ fs) (h, hs) = Emits-seq laws (Emits-field f h) (Emits-fields fs hs)

Guarded-value : (t n : ℕ) (b : Bytes) → Guarded 0 0 (decode_value t n b)
unfolding decode_value
Guarded-value t n b = search (Guarded-pure, Guarded-fail, Guarded-if) depth 12

-- A field takes five bytes or more, and its decoder never leaves the input.
pub decode_one_field-Guarded : Guarded 0 5 decode_one_field
unfolding decode_one_field
decode_one_field-Guarded = Guarded-need 0 2 5 _ (
    Guarded-Takes 0 2 3 5 2 _ (Takes-uint 2) (omega arith) (omega arith) λ key_len.
      Guarded-need 0 (key_len + 3) 3 _ (
        Guarded-Takes 3 (key_len + 3) 3 3 key_len _ (Takes-take key_len) (omega arith) (omega arith)
          λ key. Guarded-Takes 2 3 2 3 1 _ (Takes-uint 1) (omega arith) (omega arith) λ t.
            Guarded-Takes 0 2 0 2 2 _ (Takes-uint 2) (omega arith) (omega arith) λ n.
              Guarded-need 0 n 0 _ (
                Guarded-Takes 0 n 0 0 n _ (Takes-take n) (omega arith) (omega arith)
                  λ b. Guarded-bind 0 0 0 _ (Guarded-value t n b) (λ v. Guarded-pure 0 _))))
