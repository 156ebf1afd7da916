-- ===== src/Wire/Profile/RoundTrip.antt =====
-- A profile sample is read back, frames and all.
use project_bifrost.Base.{
  ℕ, zero, suc, ◌+◌, ◌-◌, ◌*◌, ◌≤◌, ◌<◌, ◌≡◌, refl, sym, ap, ◌∙◌, arith, false, ◌||◌, some, List,
  [], ◌∷◌, ◌++◌, append_assoc, Bytes, ok, length, le_bytes, from_le, as_u32, chunks, All, IsU32,
  IsU64, sizes, ltb, ◌==◌, take, drop, drop-append_length, from_le-le_bytes, le→ltb,
}
use project_bifrost.Wire.Decoder.Reads.{
  Reads, Reads-need, Reads-bind, Reads-last, Reads-uint, Reads-take, Reads-cast, Reads-whole,
}
use project_bifrost.Wire.Sink.{WireSink}
use project_bifrost.Wire.Sink.Emits.{
  SinkLaws, Emits, Emits-write, Emits-check, Emits-seq, Emits-done,
}
use project_bifrost.Wire.Sink.Vec.{vec_sink, vec_laws}
use project_bifrost.Wire.Profile.{
  ProfileSampleView, next_frame, frames_from, frames, decode_profile_sample,
}
use project_bifrost.Wire.Profile.Encode.{write_frames, encode_profile_sample}

abbrev frame_bytes : ℕ → Bytes
frame_bytes pc = le_bytes 8 pc

unfoldable pub sample_bytes : ℕ → ℕ → ℕ → ℕ → List ℕ → Bytes
sample_bytes pid tid cpu_id flags pcs =
    le_bytes 4 pid
    ++ (le_bytes 4 tid
        ++ (le_bytes 4 cpu_id
            ++ (le_bytes 4 flags ++ (le_bytes 4 (as_u32 (length pcs)) ++ chunks frame_bytes pcs))))

abbrev pub sample_view : ℕ → ℕ → ℕ → ℕ → List ℕ → ProfileSampleView
sample_view pid tid cpu_id flags pcs = record {
  pid = pid;
  tid = tid;
  cpu_id = cpu_id;
  flags = flags;
  num_frames = length pcs;
  frames_bytes = chunks frame_bytes pcs;
}

length-frames : (pcs : List ℕ) → length (chunks frame_bytes pcs) ≡ length pcs * 8
length-frames [] = refl
length-frames (pc ∷ pcs) = omega (sizes, length-frames pcs)

module _ {S : Type 0} {sink : WireSink S} (laws : SinkLaws sink) where
  Emits-frames : (pcs : List ℕ) → Emits laws (write_frames sink pcs) (chunks frame_bytes pcs)
  unfolding write_frames
  Emits-frames [] = Emits-done laws
  Emits-frames (pc ∷ pcs) = Emits-seq laws (Emits-write laws _) (Emits-frames pcs)

  pub Emits-sample :
      (pid tid cpu_id flags : ℕ) (pcs : List ℕ)
      → length pcs ≤ 256
      → Emits laws
          (encode_profile_sample sink pid tid cpu_id flags pcs)
          (sample_bytes pid tid cpu_id flags pcs)
  unfolding encode_profile_sample sample_bytes
  Emits-sample pid tid cpu_id flags pcs h = Emits-seq laws (Emits-check laws _ (le→ltb _ _ h)) (
      Emits-seq laws (Emits-write laws _) (
        Emits-seq laws (Emits-write laws _) (
          Emits-seq laws (Emits-write laws _) (
            Emits-seq laws (Emits-write laws _)
              (Emits-seq laws (Emits-write laws _) (Emits-frames pcs))))))

pub Reads-sample :
    (pid tid cpu_id flags : ℕ) (pcs : List ℕ)
    → IsU32 pid
    → IsU32 tid
    → IsU32 cpu_id
    → IsU32 flags
    → length pcs ≤ 256
    → Reads decode_profile_sample
        (sample_bytes pid tid cpu_id flags pcs)
        (sample_view pid tid cpu_id flags pcs)
unfolding decode_profile_sample sample_bytes
Reads-sample pid tid cpu_id flags pcs hp ht hc hf h = Reads-need 20 _ (omega sizes) (
    Reads-bind _ pid (Reads-uint 4 _ hp) (
      Reads-bind _ tid (Reads-uint 4 _ ht) (
        Reads-bind _ cpu_id (Reads-uint 4 _ hc) (
          Reads-bind _ flags (Reads-uint 4 _ hf) (
            Reads-bind _ (length pcs) (Reads-cast 4 _ _ (omega arith) (omega arith)) (
              Reads-need _ _ (omega (sizes, length-frames pcs))
                (Reads-last _ (Reads-take _ _ (length-frames pcs)))))))))

take_word : (pc : ℕ) (after : Bytes) → take 8 (le_bytes 8 pc ++ after) ≡ le_bytes 8 pc
unfolding le_bytes
take_word pc after = refl

-- The frame at the cursor.
next_frame_lem :
    (before after bytes : Bytes) (pc n cursor : ℕ)
    → IsU64 pc
    → bytes ≡ before ++ (le_bytes 8 pc ++ after)
    → cursor ≡ length before
    → next_frame (record { bytes = bytes; cursor = cursor; remaining = suc n })
      ≡ (some pc, record { bytes = bytes; cursor = cursor + 8; remaining = n })
unfolding next_frame
next_frame_lem before after bytes pc n cursor h e e' =
    rw (there, word)
      (ap (λ (k : ℕ). (some pc, record { bytes = bytes; cursor = cursor + 8; remaining = k }))
        (let pred : suc n - 1 ≡ n = omega arith in pred))
  where
    there : (suc n == 0 || ltb (length bytes) (cursor + 8)) ≡ false
    there = let room : cursor + 8 ≤ length bytes = rw e (omega sizes) in ground arith

    word : from_le (take 8 (drop cursor bytes)) ≡ pc
    word =
        rw (e, e', drop-append_length before (le_bytes 8 pc ++ after), take_word)
          (from_le-le_bytes 8 pc h)

frames_from_lem :
    (pcs : List ℕ) (fuel : ℕ) (before bytes : Bytes) (cursor : ℕ)
    → All IsU64 pcs
    → length pcs < fuel
    → bytes ≡ before ++ chunks frame_bytes pcs
    → cursor ≡ length before
    → frames_from fuel (record { bytes = bytes; cursor = cursor; remaining = length pcs }) ≡ pcs
unfolding frames_from
frames_from_lem [] zero before bytes cursor hs h e e' = absurd (omega arith)
frames_from_lem [] (suc fuel) before bytes cursor hs h e e' = unfold next_frame in refl
frames_from_lem (pc ∷ pcs) zero before bytes cursor hs h e e' = absurd (omega arith)
frames_from_lem (pc ∷ pcs) (suc fuel) before bytes cursor (hp, hs) h e e' =
    rw (next_frame_lem before (chunks frame_bytes pcs) bytes pc (length pcs) cursor hp e e') (
      ap (λ (t : List ℕ). pc ∷ t)
        (frames_from_lem pcs fuel (before ++ le_bytes 8 pc) bytes (cursor + 8) hs (omega arith)
          (e ∙ sym (append_assoc before (le_bytes 8 pc) (chunks frame_bytes pcs))) (omega sizes)))

-- A sample of at most 256 frames, encoded into a `Vec`, decodes with nothing left, its header
-- fields come back, and `frames()` yields the instruction pointers in order.
pub decode-encode_profile_sample :
    (pid tid cpu_id flags : ℕ) (pcs : List ℕ)
    → IsU32 pid
    → IsU32 tid
    → IsU32 cpu_id
    → IsU32 flags
    → All IsU64 pcs
    → length pcs ≤ 256
    → (bytes : Bytes) × (view : ProfileSampleView) × (encode_profile_sample vec_sink pid tid cpu_id
          flags pcs []
        ≡ (ok tt, bytes))
      × (decode_profile_sample bytes 0 ≡ ok (view, length bytes))
      × (view.pid ≡ pid)
      × (view.tid ≡ tid)
      × (view.cpu_id ≡ cpu_id)
      × (view.flags ≡ flags)
      × (frames view ≡ pcs)
unfolding frames
decode-encode_profile_sample pid tid cpu_id flags pcs hp ht hc hf hs h = (
  sample_bytes pid tid cpu_id flags pcs,
  sample_view pid tid cpu_id flags pcs,
  (Emits-sample vec_laws pid tid cpu_id flags pcs h).at [] tt,
  Reads-whole (Reads-sample pid tid cpu_id flags pcs hp ht hc hf h),
  refl,
  refl,
  refl,
  refl,
  frames_from_lem pcs (suc (length pcs)) [] (chunks frame_bytes pcs) 0 hs (omega arith) refl refl,
)
