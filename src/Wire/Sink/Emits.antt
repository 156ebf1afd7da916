-- ===== src/Wire/Sink/Emits.antt =====
-- A sink that keeps its word, and what an encoder writes into any such sink. `Room s n` says that
-- `n` more bytes fit, and `put s chunk` is the sink with `chunk` behind what it holds.
use project_bifrost.Base.{
  ℕ, ◌+◌, ◌≡◌, Bool, false, [], ◌++◌, Bytes, ok, length, length-append_bytes,
}
use project_bifrost.Wire.Error.{WireError}
use project_bifrost.Wire.Sink.{WireSink, Encoder, done, reject_if, ◌>>◌}

pub record SinkLaws {S : Type 0} (sink : WireSink S) : Type 1 where
  pub Room : S → ℕ → Type 0
  pub put : S → Bytes → S
  pub room_left : (s : S) (a b : ℕ) → Room s (a + b) → Room s a
  pub room_after :
      (s : S) (chunk : Bytes) (b : ℕ) → Room s (length chunk + b) → Room (put s chunk) b
  pub put_nil : (s : S) → put s [] ≡ s
  pub put-append :
      (s : S) (a b : Bytes) → Room s (length a + length b) → put (put s a) b ≡ put s (a ++ b)
  pub write_fits :
      (s : S) (chunk : Bytes) → Room s (length chunk) → sink.write chunk s ≡ (ok tt, put s chunk)

module _ {S : Type 0} {sink : WireSink S} (laws : SinkLaws sink) where
  open laws use {Room, put}

  -- `m` succeeds wherever `chunk` fits, and writes exactly `chunk`.
  pub record Emits (m : Encoder S (Unit {0})) (chunk : Bytes) : Type 0 where
    pub at : (s : S) → Room s (length chunk) → m s ≡ (ok tt, put s chunk)

  pub Emits-write : (chunk : Bytes) → Emits (sink.write chunk) chunk
  Emits-write chunk = record { at = λ s r. laws.write_fits s chunk r }

  pub Emits-done : Emits done []
  unfolding done
  Emits-done = record { at = λ s r. rw (laws.put_nil s) }

  pub Emits-check : {test : Bool} (e : WireError) → test ≡ false → Emits (reject_if test e) []
  unfolding reject_if
  Emits-check e h = record { at = λ s r. rw (h, laws.put_nil s) }

  pub Emits-seq :
      {m k : Encoder S (Unit {0})} {a b : Bytes} → Emits m a → Emits k b → Emits (m >> k) (a ++ b)
  unfolding ◌>>◌
  Emits-seq {m} {k} {a} {b} em ek = record {
    at = λ s r.
        let r' : Room s (length a + length b) = rw length-append_bytes at r in
        rw (em.at s (laws.room_left s (length a) (length b) r')) (
          rw (ek.at (put s a) (laws.room_after s a (length b) r')) (rw (laws.put-append s a b r')));
  }
