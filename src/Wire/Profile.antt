-- ===== src/Wire/Profile.antt =====
-- host/bifrost-wire/src/codec_profile.rs: profile-N samples.
pub mod Encode
pub mod RoundTrip
use project_bifrost.Base.{
  ℕ, zero, suc, ◌+◌, ◌-◌, ◌*◌, ◌||◌, Option, none, some, List, [], ◌∷◌, Bytes, ltb, ◌==◌, length,
  le_bytes, from_le, take, drop, if◌then◌else◌, as_u32,
}
use project_bifrost.Wire.Error.{truncated}
use project_bifrost.Wire.Decoder.{Decoder, pure, ◌>>=◌, ◌>>◌, need, take_bytes, take_uint}

pub record ProfileSampleView : Type 0 where
  pub pid : ℕ
  pub tid : ℕ
  pub cpu_id : ℕ
  pub flags : ℕ
  pub num_frames : ℕ
  pub frames_bytes : Bytes

abbrev pub max_profile_frames : ℕ
max_profile_frames = 256

pub record ProfileFrameIter : Type 0 where
  pub bytes : Bytes
  pub cursor : ℕ
  pub remaining : ℕ

unfoldable pub next_frame : ProfileFrameIter → Option ℕ × ProfileFrameIter
next_frame it = if it.remaining == 0 || ltb (length it.bytes) (it.cursor + 8) then (none, it) else (
  some (from_le (take 8 (drop it.cursor it.bytes))),
  record it { cursor = it.cursor + 8; remaining = it.remaining - 1 },
)

abbrev pub collect_frame : Option ℕ × ProfileFrameIter → (ProfileFrameIter → List ℕ) → List ℕ
collect_frame (none, it) rest = []
collect_frame (some pc, it) rest = pc ∷ rest it

-- All frames, by at most `fuel` calls of `next`.
unfoldable pub frames_from : ℕ → ProfileFrameIter → List ℕ
frames_from zero it = []
frames_from (suc fuel) it = collect_frame (next_frame it) (frames_from fuel)

-- `view.frames()`, run to its end: `next` counts `remaining` down.
unfoldable pub frames : ProfileSampleView → List ℕ
unfolding frames_from
frames view =
    frames_from (suc view.num_frames)
      (record { bytes = view.frames_bytes; cursor = 0; remaining = view.num_frames })

unfoldable pub decode_profile_sample : Decoder ProfileSampleView
decode_profile_sample = do
  need 20 "profile-sample-header"
  pid ← take_uint 4
  tid ← take_uint 4
  cpu_id ← take_uint 4
  flags ← take_uint 4
  num_frames ← take_uint 4
  need (num_frames * 8) "profile-sample-frames"
  frames_bytes ← take_bytes (num_frames * 8)
  pure (record {
    pid = pid;
    tid = tid;
    cpu_id = cpu_id;
    flags = flags;
    num_frames = num_frames;
    frames_bytes = frames_bytes;
  })
