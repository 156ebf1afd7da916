-- ===== src/Wire/Profile/Encode.antt =====
-- codec_profile.rs: encode_profile_sample.
use project_bifrost.Base.{ℕ, List, [], ◌∷◌, length, ltb, le_bytes, as_u32}
use project_bifrost.Wire.Error.{truncated}
use project_bifrost.Wire.Sink.{WireSink, Encoder, done, reject_if, ◌>>◌}
use project_bifrost.Wire.Profile.{max_profile_frames}

module _ {S : Type 0} (sink : WireSink S) where
  open sink use {write}

  unfoldable pub write_frames : List ℕ → Encoder S (Unit {0})
  write_frames [] = done
  write_frames (pc ∷ pcs) = do write (le_bytes 8 pc); write_frames pcs

  unfoldable pub encode_profile_sample : ℕ → ℕ → ℕ → ℕ → List ℕ → Encoder S (Unit {0})
  encode_profile_sample pid tid cpu_id flags frames = do
    reject_if (ltb max_profile_frames (length frames))
        (truncated max_profile_frames (length frames) "profile-sample-num-frames")
    write (le_bytes 4 pid)
    write (le_bytes 4 tid)
    write (le_bytes 4 cpu_id)
    write (le_bytes 4 flags)
    write (le_bytes 4 (as_u32 (length frames)))
    write_frames frames
