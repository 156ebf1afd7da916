-- ===== src/Wire/Envelope.antt =====
-- host/bifrost-wire/src/session_envelope.rs: DTRACE_SESSION_V1, 96 bytes at fixed offsets.
pub mod RoundTrip
use project_bifrost.Base.{
  ℕ, ◌+◌, Bool, not, ◌&&◌, Option, none, some, [], ◌∷◌, ◌++◌, Bytes, length, take, drop, ltb, ◌==◌,
  le_bytes, from_le, bytes_eq, if◌then◌else◌,
}

pub record SessionEnvelope : Type 0 where
  pub wire_major : ℕ
  pub wire_minor : ℕ
  pub target_os : ℕ
  pub flags : ℕ
  pub session_id : ℕ
  pub duration_ms : ℕ
  pub dof_offset : ℕ
  pub dof_length : ℕ
  pub dof_sha256 : Bytes
  pub capability_request : ℕ
  pub capability_required : ℕ

pub data DecodeError : Type 0 where
  short : DecodeError
  bad_magic : DecodeError
  bad_wire_major : DecodeError
  reserved_non_zero : DecodeError

pub data Decoded : Type 0 where
  ok : SessionEnvelope → Decoded
  err : DecodeError → Decoded

-- b"DTS1"
abbrev pub session_magic : Bytes
session_magic = 0x44 ∷ 0x54 ∷ 0x53 ∷ 0x31 ∷ []

-- DTRACE_SESSION_ENVELOPE_SIZE
abbrev pub envelope_size : ℕ
envelope_size = 96

-- The ranges that `encode` fills, which follow on one another, and what stands behind them. Bytes 12
-- to 16 keep the zeros that all 96 bytes are filled with at first.
unfoldable pub envelope_bytes : SessionEnvelope → Bytes → Bytes
envelope_bytes env after =
    session_magic
    ++ (le_bytes 2 env.wire_major
        ++ (le_bytes 2 env.wire_minor
            ++ (le_bytes 2 env.target_os
                ++ (le_bytes 2 env.flags
                    ++ (le_bytes 4 0
                        ++ (le_bytes 8 env.session_id
                            ++ (le_bytes 8 env.duration_ms
                                ++ (le_bytes 8 env.dof_offset
                                    ++ (le_bytes 8 env.dof_length
                                        ++ (env.dof_sha256
                                            ++ (le_bytes 8 env.capability_request
                                                ++ (le_bytes 8 env.capability_required
                                                    ++ after))))))))))))

-- The number of bytes written, and the buffer.
unfoldable pub encode : SessionEnvelope → Bytes → Option (ℕ × Bytes)
encode env out =
    if ltb (length out) envelope_size
    then none
    else some (envelope_size, envelope_bytes env (drop envelope_size out))

-- `uN::from_le_bytes` of the bytes `off..off + width`
unfoldable pub uint_at : ℕ → Bytes → ℕ → ℕ
uint_at width buf off = from_le (take width (drop off buf))

unfoldable pub read_envelope : Bytes → SessionEnvelope
read_envelope buf = record {
  wire_major = uint_at 2 buf 4;
  wire_minor = uint_at 2 buf 6;
  target_os = uint_at 2 buf 8;
  flags = uint_at 2 buf 10;
  session_id = uint_at 8 buf 16;
  duration_ms = uint_at 8 buf 24;
  dof_offset = uint_at 8 buf 32;
  dof_length = uint_at 8 buf 40;
  dof_sha256 = take 32 (drop 48 buf);
  capability_request = uint_at 8 buf 80;
  capability_required = uint_at 8 buf 88;
}

unfoldable pub decode : Bytes → Decoded
decode buf =
    if ltb (length buf) envelope_size
    then err short
    else if not (bytes_eq (take 4 buf) session_magic)
    then err bad_magic
    else if not (uint_at 2 buf 4 == 1)
    then err bad_wire_major
    else if not (bytes_eq (take 4 (drop 12 buf)) (0 ∷ 0 ∷ 0 ∷ 0 ∷ []))
    then err reserved_non_zero
    else ok (read_envelope buf)
