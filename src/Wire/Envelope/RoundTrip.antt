-- ===== src/Wire/Envelope/RoundTrip.antt =====
-- An envelope is read back.
use project_bifrost.Base.{
  ℕ, ◌+◌, ◌≤◌, ◌≡◌, refl, sym, ap, ◌∙◌, arith, false, not, some, [], ◌∷◌, ◌++◌, Bytes, IsU16, IsU64,
  length, take, drop, ltb, ◌==◌, le_bytes, from_le, from_le-le_bytes, bytes_eq, le→ltb, sizes,
  drop-append_length, take-append_length, length-drop, drop-drop,
}
use project_bifrost.Wire.Envelope.{
  SessionEnvelope, ok, envelope_size, envelope_bytes, encode, uint_at, read_envelope, decode,
  session_magic,
}

-- The ranges of the Rust types.
pub record IsEnvelope (env : SessionEnvelope) : Type 0 where
  pub minor : IsU16 env.wire_minor
  pub os : IsU16 env.target_os
  pub flag : IsU16 env.flags
  pub id : IsU64 env.session_id
  pub duration : IsU64 env.duration_ms
  pub offset : IsU64 env.dof_offset
  pub len : IsU64 env.dof_length
  pub sha : length env.dof_sha256 ≡ 32
  pub request : IsU64 env.capability_request
  pub required : IsU64 env.capability_required

take_sha : (sha after : Bytes) → length sha ≡ 32 → take 32 (sha ++ after) ≡ sha
take_sha sha after e = rw (← e) (take-append_length sha after)

drop_sha :
    (sha after : Bytes) (k : ℕ) → length sha ≡ 32 → drop (32 + k) (sha ++ after) ≡ drop k after
drop_sha sha after k e =
    sym (drop-drop k 32 (sha ++ after))
    ∙ ap (λ (t : Bytes). drop k t) (rw (← e) (drop-append_length sha after))

module _ (env : SessionEnvelope) (after : Bytes) (h : IsEnvelope env) where
  early :
      (uint_at 2 (envelope_bytes env after) 6 ≡ env.wire_minor)
      × (uint_at 2 (envelope_bytes env after) 8 ≡ env.target_os)
      × (uint_at 2 (envelope_bytes env after) 10 ≡ env.flags)
      × (uint_at 8 (envelope_bytes env after) 16 ≡ env.session_id)
      × (uint_at 8 (envelope_bytes env after) 24 ≡ env.duration_ms)
      × (uint_at 8 (envelope_bytes env after) 32 ≡ env.dof_offset)
      × (uint_at 8 (envelope_bytes env after) 40 ≡ env.dof_length)
  unfolding uint_at envelope_bytes le_bytes
  early = (
    from_le-le_bytes 2 env.wire_minor h.minor,
    from_le-le_bytes 2 env.target_os h.os,
    from_le-le_bytes 2 env.flags h.flag,
    from_le-le_bytes 8 env.session_id h.id,
    from_le-le_bytes 8 env.duration_ms h.duration,
    from_le-le_bytes 8 env.dof_offset h.offset,
    from_le-le_bytes 8 env.dof_length h.len,
  )

  late :
      (take 32 (drop 48 (envelope_bytes env after)) ≡ env.dof_sha256)
      × (uint_at 8 (envelope_bytes env after) 80 ≡ env.capability_request)
      × (uint_at 8 (envelope_bytes env after) 88 ≡ env.capability_required)
  unfolding uint_at envelope_bytes le_bytes
  late = (
    take_sha env.dof_sha256 _ h.sha,
    ap (λ (t : Bytes). from_le (take 8 t)) (drop_sha env.dof_sha256 _ 0 h.sha)
        ∙ from_le-le_bytes 8 env.capability_request h.request,
    ap (λ (t : Bytes). from_le (take 8 t)) (drop_sha env.dof_sha256 _ 8 h.sha)
        ∙ from_le-le_bytes 8 env.capability_required h.required,
  )

  length-envelope_bytes : length (envelope_bytes env after) ≡ 96 + length after
  unfolding envelope_bytes
  length-envelope_bytes = omega (sizes, h.sha)

  rest_kept : drop 96 (envelope_bytes env after) ≡ after
  unfolding envelope_bytes le_bytes
  rest_kept = drop_sha env.dof_sha256 _ 16 h.sha

  major : env.wire_major ≡ 1 → uint_at 2 (envelope_bytes env after) 4 ≡ env.wire_major
  unfolding uint_at envelope_bytes le_bytes
  major v1 = from_le-le_bytes 2 env.wire_major (omega arith)

  magic_good : not (bytes_eq (take 4 (envelope_bytes env after)) session_magic) ≡ false
  unfolding envelope_bytes bytes_eq
  magic_good = refl

  reserved_good :
      not (bytes_eq (take 4 (drop 12 (envelope_bytes env after))) (0 ∷ 0 ∷ 0 ∷ 0 ∷ [])) ≡ false
  unfolding envelope_bytes le_bytes bytes_eq
  reserved_good = refl

  read_back : env.wire_major ≡ 1 → read_envelope (envelope_bytes env after) ≡ env
  unfolding read_envelope
  read_back v1 = λ t. record {
    wire_major = major v1 t;
    wire_minor = early.0 t;
    target_os = early.1 t;
    flags = early.2 t;
    session_id = early.3 t;
    duration_ms = early.4 t;
    dof_offset = early.5 t;
    dof_length = early.6 t;
    dof_sha256 = late.0 t;
    capability_request = late.1 t;
    capability_required = late.2 t;
  }

  decode_back : env.wire_major ≡ 1 → decode (envelope_bytes env after) ≡ ok env
  unfolding decode
  decode_back v1 = rw (enough, magic_good, version, reserved_good) (ap ok (read_back v1))
    where
      enough : ltb (length (envelope_bytes env after)) envelope_size ≡ false
      enough = le→ltb _ _ (omega (arith, length-envelope_bytes))

      version : not (uint_at 2 (envelope_bytes env after) 4 == 1) ≡ false
      version = ground (arith, major v1)

-- An envelope of version 1 is written into every buffer of 96 bytes or more: 96 bytes of it are
-- filled and the others kept, and the buffer decodes to the same envelope.
pub decode-encode_envelope :
    (env : SessionEnvelope) (out : Bytes)
    → IsEnvelope env
    → env.wire_major ≡ 1
    → 96 ≤ length out
    → (out' : Bytes) × (encode env out ≡ some (96, out'))
      × (length out' ≡ length out)
      × (drop 96 out' ≡ drop 96 out)
      × (decode out' ≡ ok env)
unfolding encode
decode-encode_envelope env out h v1 room = (
  envelope_bytes env (drop 96 out),
  rw (le→ltb _ _ room),
  omega (arith, length-envelope_bytes env (drop 96 out) h, length-drop 96 out),
  rest_kept env (drop 96 out) h,
  decode_back env (drop 96 out) h v1,
)
