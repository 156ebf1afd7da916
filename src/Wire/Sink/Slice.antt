-- ===== src/Wire/Sink/Slice.antt =====
-- `SliceSink`: a buffer of fixed size with a cursor.
use project_bifrost.Base.{
  ◌<◌, lt→ltb, ◌≡◌, ◌≤◌, ap, sym, ◌∙◌, arith, [], append_assoc, sizes, le→ltb, take-append-drop,
  take-append_length, drop-append_length, drop-drop, length-append_bytes, length-take, length-drop,
  ℕ, ◌+◌, ◌++◌, Bytes, Outcome, ok, err, length, take, drop, ltb, if◌then◌else◌,
}
use project_bifrost.Wire.Error.{WireError, truncated}
use project_bifrost.Wire.Sink.{WireSink}
use project_bifrost.Wire.Sink.Emits.{SinkLaws}

pub record SliceSink : Type 0 where
  pub buf : Bytes
  pub cursor : ℕ

-- `self.buf[at..at + chunk.len()].copy_from_slice(chunk)`
abbrev pub copy_at : Bytes → ℕ → Bytes → Bytes
copy_at buf at chunk = take at buf ++ (chunk ++ drop (at + length chunk) buf)

unfoldable pub slice_write : Bytes → SliceSink → Outcome WireError (Unit {0}) × SliceSink
slice_write chunk s =
    let end = s.cursor + length chunk in
    if ltb (length s.buf) end
    then (err (truncated end (length s.buf) "slice-sink"), s)
    else (ok tt, record s { buf = copy_at s.buf s.cursor chunk; cursor = end })

abbrev pub slice_sink : WireSink SliceSink
slice_sink = record { write = slice_write }

-- Cuts at and behind a front part whose length is known.
take_front : (front back : Bytes) (n : ℕ) → n ≡ length front → take n (front ++ back) ≡ front
take_front front back n e = rw e (take-append_length front back)

drop_front :
    (front back : Bytes) (n k : ℕ) → n ≡ length front → drop (n + k) (front ++ back) ≡ drop k back
drop_front front back n k e =
    sym (drop-drop k n (front ++ back))
    ∙ rw e (ap (λ (t : Bytes). drop k t) (drop-append_length front back))

module _ (buf : Bytes) (at : ℕ) where
  length-front : at ≤ length buf → length (take at buf) ≡ at
  length-front h = omega (arith, length-take at buf)

  pub length-copy_at :
      (chunk : Bytes) → at + length chunk ≤ length buf → length (copy_at buf at chunk) ≡ length buf
  length-copy_at chunk h = omega (
    sizes,
    length-take at buf,
    length-append_bytes (take at buf) (chunk ++ drop (at + length chunk) buf),
    length-append_bytes chunk (drop (at + length chunk) buf),
    length-drop (at + length chunk) buf,
  )

  -- Two copies, one behind the other, are one.
  copy_at-append :
      (a b : Bytes)
      → at + (length a + length b) ≤ length buf
      → copy_at (copy_at buf at a) (at + length a) b ≡ copy_at buf at (a ++ b)
  copy_at-append a b h =
      let front : Bytes = take at buf ++ a in
      let back : Bytes = drop (at + length a) buf in
      let width : at + length a ≡ length (take at buf ++ a) = omega (sizes, length-take at buf) in
      rw (← append_assoc (take at buf) a (drop (at + length a) buf)) (
        rw
          (
            take_front front back (at + length a) width,
            drop_front front back (at + length a) (length b) width,
            drop-drop (length b) (at + length a) buf,
          )
          (append_assoc (take at buf) a (b ++ drop (at + length a + length b) buf)
            ∙ ap (λ (t : Bytes). take at buf ++ t)
                (sym (append_assoc a b (drop (at + length a + length b) buf))
                  ∙ ap (λ (k : ℕ). (a ++ b) ++ drop k buf)
                      (let e : at + length a + length b ≡ at + length (a ++ b) = omega sizes in
                        e))))

copy_at-nil : (buf : Bytes) (at : ℕ) → copy_at buf at [] ≡ buf
copy_at-nil buf at =
    ap (λ (k : ℕ). take at buf ++ drop k buf) (let e : at + 0 ≡ at = omega arith in e)
    ∙ take-append-drop at buf

sink_eq :
    (b b' : Bytes) (c c' : ℕ)
    → b ≡ b'
    → c ≡ c'
    → (let s : SliceSink = record { buf = b; cursor = c } in s) ≡ record { buf = b'; cursor = c' }
sink_eq b b' c c' p q = λ i. record { buf = p i; cursor = q i }

abbrev pub Room : SliceSink → ℕ → Type 0
Room s n = s.cursor + n ≤ length s.buf

abbrev pub put : SliceSink → Bytes → SliceSink
put s chunk = record { buf = copy_at s.buf s.cursor chunk; cursor = s.cursor + length chunk }

pub Room-left : (s : SliceSink) (a b : ℕ) → Room s (a + b) → Room s a
Room-left s a b r = omega arith

pub Room-put :
    (s : SliceSink) (chunk : Bytes) (b : ℕ) → Room s (length chunk + b) → Room (put s chunk) b
Room-put s chunk b r = omega (arith, length-copy_at s.buf s.cursor chunk (omega arith))

pub put-nil : (s : SliceSink) → put s [] ≡ s
put-nil s = sink_eq _ _ _ _ (copy_at-nil s.buf s.cursor) (omega arith)

pub put-put :
    (s : SliceSink) (a b : Bytes) → Room s (length a + length b) → put (put s a) b ≡ put s (a ++ b)
put-put s a b r = sink_eq _ _ _ _ (copy_at-append s.buf s.cursor a b r) (omega sizes)

pub slice_write_fits :
    (s : SliceSink) (chunk : Bytes)
    → Room s (length chunk)
    → slice_write chunk s ≡ (ok tt, put s chunk)
unfolding slice_write
slice_write_fits s chunk r = rw (le→ltb _ _ r)

-- A write that does not fit changes nothing.
pub slice_write_full :
    (s : SliceSink) (chunk : Bytes)
    → length s.buf < s.cursor + length chunk
    → slice_write chunk s
      ≡ (err (truncated (s.cursor + length chunk) (length s.buf) "slice-sink"), s)
unfolding slice_write
slice_write_full s chunk h = rw (lt→ltb _ _ h)

abbrev pub slice_laws : SinkLaws slice_sink
slice_laws = record {
  Room = Room;
  put = put;
  room_left = Room-left;
  room_after = Room-put;
  put_nil = put-nil;
  put-append = put-put;
  write_fits = slice_write_fits;
}
