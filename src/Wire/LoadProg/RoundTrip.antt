-- ===== src/Wire/LoadProg/RoundTrip.antt =====
-- Status entries are read back, and the decoder refuses bad input with an error.
use project_bifrost.Base.{
  ℕ, zero, suc, ◌≤◌, ◌≡◌, ◌≢◌, refl, arith, List, [], ◌∷◌, ◌++◌, Bytes, IsByte, IsU32, Outcome, ok,
  err, panic, length, le_bytes, as_u16, as_u32, chunks, All, sizes, le→ltb, ◌↔◌, ◌<◌, lt→ltb,
  le→leb, ◌+◌, ap, Bool, true, false, Bool-cases, inl, inr, from_le, take, if◌then◌else◌,
}
use project_bifrost.Wire.Error.{WireError, truncated}
use project_bifrost.Wire.Decoder.{need, take_uint, take_bytes, slice, pure, ◌>>=◌, continue}
use project_bifrost.Wire.Decoder.Reads.{
  Reads, Reads-pure, Reads-need, Reads-bind, Reads-last, Reads-take, Reads-cast, Reads-byte,
  Reads-whole,
}
use project_bifrost.Wire.Decoder.Bounds.{
  Guarded, InBounds, Guarded-pure, Guarded-need, Guarded-Takes, Guarded-bind, Guarded-weaken,
  Takes-take, Takes-uint,
}
use native.Mathlib.Decide.{dec_lt}
use project_bifrost.Wire.Sink.{WireSink}
use project_bifrost.Wire.Sink.Emits.{
  SinkLaws, Emits, Emits-write, Emits-check, Emits-seq, Emits-done,
}
use project_bifrost.Wire.Sink.Vec.{vec_sink, vec_laws}
use project_bifrost.Wire.LoadProg.{
  LoadProgStatusEntry, with_capacity, decode_status_entry, decode_status_entries,
  decode_loadprog_status, encode_status_entry, encode_status_entries, encode_loadprog_status,
}

unfoldable pub entry_bytes : LoadProgStatusEntry → Bytes
entry_bytes e = (e.status ∷ []) ++ (le_bytes 2 (as_u16 (length e.detail)) ++ e.detail)

abbrev pub EntryFits : LoadProgStatusEntry → Type 0
EntryFits e = IsByte e.status × (length e.detail ≤ 65535)

unfoldable pub status_bytes : List LoadProgStatusEntry → Bytes
status_bytes es = le_bytes 4 (as_u32 (length es)) ++ chunks entry_bytes es

module _ {S : Type 0} {sink : WireSink S} (laws : SinkLaws sink) where
  Emits-entry :
      (e : LoadProgStatusEntry)
      → EntryFits e
      → Emits laws (encode_status_entry sink e) (entry_bytes e)
  unfolding encode_status_entry entry_bytes
  Emits-entry e (hs, hd) = Emits-seq laws (Emits-write laws _) (
      Emits-seq laws (Emits-check laws _ (le→ltb _ _ hd))
        (Emits-seq laws (Emits-write laws _) (Emits-write laws _)))

  Emits-entries :
      (es : List LoadProgStatusEntry)
      → All EntryFits es
      → Emits laws (encode_status_entries sink es) (chunks entry_bytes es)
  unfolding encode_status_entries
  Emits-entries [] h = Emits-done laws
  Emits-entries (e ∷ es) (h, hs) = Emits-seq laws (Emits-entry e h) (Emits-entries es hs)

  Emits-status :
      (es : List LoadProgStatusEntry)
      → All EntryFits es
      → Emits laws (encode_loadprog_status sink es) (status_bytes es)
  unfolding encode_loadprog_status status_bytes
  Emits-status es h = Emits-seq laws (Emits-write laws _) (Emits-entries es h)

Reads-entry : (e : LoadProgStatusEntry) → EntryFits e → Reads decode_status_entry (entry_bytes e) e
unfolding decode_status_entry entry_bytes
Reads-entry e (hs, hd) = Reads-need 3 _ (omega sizes) (
    Reads-bind _ {c = e.status ∷ []} e.status (Reads-byte _ _ refl hs) (
      Reads-bind _ (length e.detail) (Reads-cast 2 _ _ (omega arith) (omega arith))
        (Reads-need _ _ (omega sizes) (Reads-last _ (Reads-take e.detail _ refl)))))

Reads-entries :
    (es : List LoadProgStatusEntry)
    → All EntryFits es
    → Reads (decode_status_entries (length es)) (chunks entry_bytes es) es
unfolding decode_status_entries
Reads-entries [] h = Reads-pure []
Reads-entries (e ∷ es) (h, hs) =
    Reads-bind _ e (Reads-entry e h) (Reads-last _ (Reads-entries es hs))

Reads-with_capacity :
    (has_room : ℕ → Bool) (n : ℕ) → has_room n ≡ true → Reads (with_capacity has_room n) [] tt
unfolding with_capacity
Reads-with_capacity has_room n h = record {
  at = λ before after.
      rw h
        (ap (λ (c : ℕ). ok (tt, c)) (let e : length before ≡ length before + 0 = omega arith in e));
}

Reads-status :
    (has_room : ℕ → Bool) (es : List LoadProgStatusEntry)
    → has_room (length es) ≡ true
    → IsU32 (length es)
    → All EntryFits es
    → Reads (decode_loadprog_status has_room) (status_bytes es) es
unfolding decode_loadprog_status status_bytes
Reads-status has_room es room h hs = Reads-need 4 _ (omega sizes) (
    Reads-bind _ (length es) (Reads-cast 4 _ _ (omega arith) (omega arith)) (
      Reads-bind _ {c = []} tt (Reads-with_capacity has_room (length es) room)
        (Reads-entries es hs)))

entry-Guarded : Guarded 0 3 decode_status_entry
unfolding decode_status_entry
entry-Guarded = Guarded-need 0 3 3 _ (
    Guarded-Takes 2 3 2 3 1 _ (Takes-uint 1) (omega arith) (omega arith) λ s.
      Guarded-Takes 0 2 0 2 2 _ (Takes-uint 2) (omega arith) (omega arith) λ n.
        Guarded-need 0 n 0 _ (
          Guarded-Takes 0 n 0 0 n _ (Takes-take n) (omega arith) (omega arith)
            λ d. Guarded-pure 0 _))

entries-Guarded : (n : ℕ) → Guarded 0 0 (decode_status_entries n)
unfolding decode_status_entries
entries-Guarded zero = Guarded-pure 0 []
entries-Guarded (suc n) = Guarded-weaken 0 0 3 0 (omega arith) (omega arith) (
    Guarded-bind 0 3 0 _ entry-Guarded
      λ e. Guarded-bind 0 0 0 _ (entries-Guarded n) λ es. Guarded-pure 0 _)

-- Status entries that the allocator has room for, whose details are at most 65535 bytes long and
-- whose count fits a u32, encoded into a `Vec`, decode to the same entries with nothing left over.
pub decode-encode_loadprog_status :
    (has_room : ℕ → Bool) (es : List LoadProgStatusEntry)
    → has_room (length es) ≡ true
    → IsU32 (length es)
    → All EntryFits es
    → (bytes : Bytes) × (encode_loadprog_status vec_sink es [] ≡ (ok tt, bytes))
      × (decode_loadprog_status has_room bytes 0 ≡ ok (es, length bytes))
decode-encode_loadprog_status has_room es room h hs = (
  status_bytes es,
  (Emits-status vec_laws es hs).at [] tt,
  Reads-whole (Reads-status has_room es room h hs),
)

-- The count that the input declares, in its first four bytes.
abbrev pub declared : Bytes → ℕ
declared bytes = from_le (take 4 bytes)

not_panic :
    (bytes : Bytes) (r : Outcome WireError (List LoadProgStatusEntry × ℕ))
    → InBounds 0 bytes 4 r
    → r ≢ panic
not_panic bytes (ok x) b p = cc
not_panic bytes (err x) b p = cc
not_panic bytes panic b p = b

short_status :
    (has_room : ℕ → Bool) (bytes : Bytes)
    → length bytes < 4
    → decode_loadprog_status has_room bytes 0
      ≡ err (truncated 4 (length bytes) "loadprog-status-count")
unfolding decode_loadprog_status need ◌>>=◌
short_status has_room bytes h = rw (lt→ltb (length bytes) 4 h) refl

-- The outcome of the reservation and of what follows it.
counted_status :
    (has_room : ℕ → Bool) (bytes : Bytes)
    → 4 ≤ length bytes
    → decode_loadprog_status has_room bytes 0 ≡ (
        if has_room (declared bytes) then decode_status_entries (declared bytes) bytes 4 else panic)
unfolding decode_loadprog_status need take_uint take_bytes slice with_capacity pure ◌>>=◌
counted_status has_room bytes h =
    rw (le→ltb (length bytes) 4 h, le→leb 4 (length bytes) h) (reserved (has_room (declared bytes)))
  where
    reserved :
        (b : Bool)
        → continue
            (if b then ok (tt, 4) else panic)
            (λ (u : Unit {0}). decode_status_entries (declared bytes))
            bytes
          ≡ (if b then decode_status_entries (declared bytes) bytes 4 else panic)
    reserved true = refl
    reserved false = refl

-- On any bytes `decode_loadprog_status` ends the program exactly when there are four bytes and the
-- allocator refuses the count that they declare, however few bytes follow; otherwise it gives
-- entries or an error, and it never reads a byte out of bounds.
pub decode_loadprog_status_aborts_iff :
    (has_room : ℕ → Bool) (bytes : Bytes)
    → (decode_loadprog_status has_room bytes 0 ≡ panic)
      ↔ ((4 ≤ length bytes) × (has_room (declared bytes) ≡ false))
decode_loadprog_status_aborts_iff has_room bytes = elim (dec_lt (length bytes) 4) [
  | yes short ↦
      rw (short_status has_room bytes short) (λ e. cc, λ (long, full). absurd (omega arith))
  | no long ↦ elim (Bool-cases (has_room (declared bytes))) [
    | inl room ↦
        rw (counted_status has_room bytes (omega arith), room)
          (
            (λ e. absurd (
                not_panic bytes (decode_status_entries (declared bytes) bytes 4)
                  ((entries-Guarded (declared bytes)).at bytes 4 (omega arith)) e)),
            λ (enough, full). cc,
          )
    | inr full ↦
        rw (counted_status has_room bytes (omega arith), full)
          ((λ e. (omega arith, refl)), λ h. refl)
  ]
]
