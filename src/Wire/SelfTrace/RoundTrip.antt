-- ===== src/Wire/SelfTrace/RoundTrip.antt =====
-- An event is read back, fields and all.
use project_bifrost.Base.{
  ℕ, ◌+◌, ◌≤◌, ◌<◌, ◌≡◌, refl, arith, List, [], ◌∷◌, ◌++◌, map, append-nil, Bytes, IsByte, ok,
  length, le_bytes, as_u16, chunks, All, sizes, le→ltb, sym, ap, ◌∙◌,
}
use project_bifrost.Wire.Decoder.Reads.{Reads-take, Reads-cast, Reads-byte}
use project_bifrost.Wire.Decoder.Whole.{
  ReadsAll, ReadsAll-bind, ReadsAll-need, ReadsAll-rest, ReadsAll-whole,
}
use project_bifrost.Wire.Sink.{WireSink}
use project_bifrost.Wire.Sink.Emits.{SinkLaws, Emits, Emits-write, Emits-check, Emits-seq}
use project_bifrost.Wire.Sink.Vec.{vec_sink, vec_laws}
use project_bifrost.Wire.Iter.{drain}
use project_bifrost.Wire.Iter.Laws.{fresh, drain-written}
use project_bifrost.Wire.SelfTrace.{SelfFieldOwned, SelfEventView}
use project_bifrost.Wire.SelfTrace.Decode.{decode_one_field, decode_event, fields}
use project_bifrost.Wire.SelfTrace.Encode.{encode_event}
use project_bifrost.Wire.SelfTrace.Fields.{
  field_view, field_bytes, FieldFits, Emits-fields, Reads-field,
}

unfoldable pub event_bytes : ℕ → ℕ → Bytes → List (Bytes × SelfFieldOwned) → Bytes
event_bytes level subsystem msg owned =
    (level ∷ [])
    ++ ((subsystem ∷ [])
        ++ (le_bytes 2 (as_u16 (length owned))
            ++ (le_bytes 2 (as_u16 (length msg)) ++ (msg ++ chunks field_bytes owned))))

abbrev pub event_view : ℕ → ℕ → Bytes → List (Bytes × SelfFieldOwned) → SelfEventView
event_view level subsystem msg owned = record {
  level = level;
  subsystem = subsystem;
  msg = msg;
  fields_bytes = chunks field_bytes owned;
  num_fields = length owned;
}

module _ {S : Type 0} {sink : WireSink S} (laws : SinkLaws sink) where
  pub Emits-event :
      (level subsystem : ℕ) (msg : Bytes) (owned : List (Bytes × SelfFieldOwned))
      → length msg ≤ 65535
      → length owned ≤ 65535
      → All FieldFits owned
      → Emits laws
          (encode_event sink level subsystem msg owned)
          (event_bytes level subsystem msg owned)
  unfolding encode_event event_bytes
  Emits-event level subsystem msg owned hm hn hs =
      Emits-seq laws (Emits-check laws _ (le→ltb _ _ hm)) (
        Emits-seq laws (Emits-check laws _ (le→ltb _ _ hn)) (
          Emits-seq laws (Emits-write laws _) (
            Emits-seq laws (Emits-write laws _) (
              Emits-seq laws (Emits-write laws _) (
                Emits-seq laws (Emits-write laws _)
                  (Emits-seq laws (Emits-write laws _) (Emits-fields laws _ _ owned hs)))))))

Reads-event :
    (level subsystem : ℕ) (msg : Bytes) (owned : List (Bytes × SelfFieldOwned))
    → IsByte level
    → IsByte subsystem
    → length msg ≤ 65535
    → length owned ≤ 65535
    → ReadsAll decode_event
        (event_bytes level subsystem msg owned)
        (event_view level subsystem msg owned)
unfolding decode_event event_bytes
Reads-event level subsystem msg owned hl hs hm hn = ReadsAll-need 6 _ (omega sizes) (
    ReadsAll-bind _ level (Reads-byte _ _ refl hl) (
      ReadsAll-bind _ subsystem (Reads-byte _ _ refl hs) (
        ReadsAll-bind _ (length owned) (Reads-cast 2 _ _ (omega arith) (omega arith)) (
          ReadsAll-bind _ (length msg) (Reads-cast 2 _ _ (omega arith) (omega arith)) (
            ReadsAll-need _ _ (omega sizes) (
              ReadsAll-bind _ msg (Reads-take _ _ refl)
                (ReadsAll-rest _ (chunks field_bytes owned))))))))

-- An event whose message and fields fit the format, encoded into a `Vec`, decodes: the header and
-- the message come back, and a loop over the fields of the view yields every key with its typed
-- value, in order, with nothing left over.
pub decode-encode_event :
    (level subsystem : ℕ) (msg : Bytes) (owned : List (Bytes × SelfFieldOwned)) (fuel : ℕ)
    → IsByte level
    → IsByte subsystem
    → length msg ≤ 65535
    → length owned ≤ 65535
    → All FieldFits owned
    → length owned < fuel
    → (bytes : Bytes) × (view : SelfEventView) × (encode_event vec_sink level subsystem msg owned []
        ≡ (ok tt, bytes))
      × (decode_event bytes 0 ≡ ok (view, length bytes))
      × (view.level ≡ level)
      × (view.subsystem ≡ subsystem)
      × (view.msg ≡ msg)
      × (drain fuel decode_one_field (fields view) ≡ (
        map (λ f. ok (field_view f)) owned,
        fresh view.fields_bytes (length view.fields_bytes) 0,
      ))
decode-encode_event level subsystem msg owned fuel hl hs hm hn hf h = (
  event_bytes level subsystem msg owned,
  event_view level subsystem msg owned,
  (Emits-event vec_laws level subsystem msg owned hm hn hf).at [] tt,
  ReadsAll-whole (Reads-event level subsystem msg owned hl hs hm hn),
  refl,
  refl,
  refl,
  loop,
)
  where
    rest : Bytes
    rest = chunks field_bytes owned

    loop :
        drain fuel decode_one_field (fresh rest 0 (length owned))
        ≡ (map (λ f. ok (field_view f)) owned, fresh rest (length rest) 0)
    loop =
        drain-written decode_one_field field_bytes field_view Reads-field owned fuel
          (chunks field_bytes owned) [] [] 0 hf h (sym (append-nil _)) refl
        ∙ ap (λ (c : ℕ). (map (λ f. ok (field_view f)) owned, fresh rest c 0))
            (let e : 0 + length rest ≡ length rest = omega arith in e)
