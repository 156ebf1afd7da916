-- ===== src/Wire/SelfTrace/Safety.antt =====
-- The self-trace decoders on any input.
use project_bifrost.Base.{
  ℕ, suc, ◌+◌, ◌*◌, ◌≤◌, ◌≢◌, arith, Bytes, Outcome, ok, err, panic, length, All,
}
use project_bifrost.Wire.Error.{WireError}
use project_bifrost.Wire.Decoder.Bounds.{
  Guarded, InBounds, Guarded-need, Guarded-Takes, Guarded-rest, Takes-take, Takes-uint,
}
use project_bifrost.Wire.Iter.{drain}
use project_bifrost.Wire.Iter.Laws.{IsSpent, drain-IsSpent, drain-fits, drain-IsSafe}
use project_bifrost.Wire.SelfTrace.{SelfEventView}
use project_bifrost.Wire.SelfTrace.Decode.{decode_event, decode_one_field, fields}
use project_bifrost.Wire.SelfTrace.Fields.{decode_one_field-Guarded}

decode_event-Guarded : Guarded 0 6 decode_event
unfolding decode_event
decode_event-Guarded = Guarded-need 0 6 6 _ (
    Guarded-Takes 5 6 5 6 1 _ (Takes-uint 1) (omega arith) (omega arith) λ level.
      Guarded-Takes 4 5 4 5 1 _ (Takes-uint 1) (omega arith) (omega arith) λ subsystem.
        Guarded-Takes 2 4 2 4 2 _ (Takes-uint 2) (omega arith) (omega arith) λ num_fields.
          Guarded-Takes 0 2 0 2 2 _ (Takes-uint 2) (omega arith) (omega arith) λ msg_len.
            Guarded-need 0 msg_len 0 _ (
              Guarded-Takes 0 msg_len 0 0 msg_len _ (Takes-take msg_len) (omega arith) (omega arith)
                λ msg. Guarded-rest _))

-- A loop over an event's fields, with one call more than were declared, reads to the end or to an
-- error; no field panics; and there are at most as many items as declared, and one (the error) more
-- than have room.
abbrev pub FieldsSafely : Outcome WireError (SelfEventView × ℕ) → Type 0
FieldsSafely (ok (view, cursor)) =
    IsSpent (drain (suc view.num_fields) decode_one_field (fields view)).1
    × All (λ item. item ≢ panic) (drain (suc view.num_fields) decode_one_field (fields view)).0
    × (length (drain (suc view.num_fields) decode_one_field (fields view)).0 ≤ view.num_fields)
    × (length (drain (suc view.num_fields) decode_one_field (fields view)).0 * 5
        ≤ length view.fields_bytes + 5)
FieldsSafely (err e) = Unit
FieldsSafely panic = ⊥

-- On any bytes `decode_event` gives an error or a view whose loop over the fields, with one call
-- more than declared, ends spent, yields no panic, no more items than declared, and at most one
-- item, the error, more than the field bytes have room for.
pub decode_event_safe : (bytes : Bytes) → FieldsSafely (decode_event bytes 0)
decode_event_safe bytes =
    judge (decode_event bytes 0) (decode_event-Guarded.at bytes 0 (omega arith))
  where
    judge : (r : Outcome WireError (SelfEventView × ℕ)) → InBounds 6 bytes 0 r → FieldsSafely r
    judge (ok (view, c)) h =
        let fits =
          drain-fits decode_one_field 5 decode_one_field-Guarded (suc view.num_fields) (fields view)
            (omega arith) in
        (
          drain-IsSpent decode_one_field 5 decode_one_field-Guarded (suc view.num_fields)
              (fields view) (omega arith) (omega arith),
          drain-IsSafe decode_one_field 5 decode_one_field-Guarded (suc view.num_fields)
              (fields view) (omega arith),
          fits.1,
          omega (arith, fits.0),
        )
    judge (err e) h = tt
    judge panic h = h
