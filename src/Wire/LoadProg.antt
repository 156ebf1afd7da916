-- ===== src/Wire/LoadProg.antt =====
-- The LOAD_PROG status response of host/bifrost-wire/src/codec.rs, both directions.
pub mod RoundTrip
use project_bifrost.Base.{
  ℕ, zero, suc, List, [], ◌∷◌, Bytes, length, ltb, le_bytes, as_u16, as_u32, Bool, ok, panic,
  if◌then◌else◌,
}
use project_bifrost.Wire.Error.{too_large}
use project_bifrost.Wire.Decoder
use project_bifrost.Wire.Decoder.{Decoder, pure, ◌>>=◌, need, take_bytes, take_uint}
use project_bifrost.Wire.Sink
use project_bifrost.Wire.Sink.{WireSink, Encoder, done, reject_if}

pub record LoadProgStatusEntry : Type 0 where
  pub status : ℕ
  pub detail : Bytes

unfoldable pub decode_status_entry : Decoder LoadProgStatusEntry
decode_status_entry = Decoder.◌>>◌ (need 3 "loadprog-status-entry-header") (
    take_uint 1 >>= λ status. take_uint 2 >>= λ detail_len.
    Decoder.◌>>◌ (need detail_len "loadprog-status-entry-detail")
      (take_bytes detail_len >>= λ detail. pure (record { status = status; detail = detail })))

-- `for _ in 0..n`, pushing on `entries`
unfoldable pub decode_status_entries : ℕ → Decoder (List LoadProgStatusEntry)
decode_status_entries zero = pure []
decode_status_entries (suc n) =
    decode_status_entry >>= λ entry. decode_status_entries n >>= λ entries. pure (entry ∷ entries)

-- `Vec::with_capacity(n)`: `has_room` is the allocator's answer for `n` entries, and where it
-- refuses the program ends.
unfoldable pub with_capacity : (ℕ → Bool) → ℕ → Decoder (Unit {0})
with_capacity has_room n bytes cursor = if has_room n then ok (tt, cursor) else panic

-- The view is its entries.
unfoldable pub decode_loadprog_status : (ℕ → Bool) → Decoder (List LoadProgStatusEntry)
decode_loadprog_status has_room =
    Decoder.◌>>◌ (need 4 "loadprog-status-count")
      (take_uint 4 >>= λ n. with_capacity has_room n >>= λ u. decode_status_entries n)

module _ {S : Type 0} (sink : WireSink S) where
  -- The status byte is written before the detail's length is tested.
  unfoldable pub encode_status_entry : LoadProgStatusEntry → Encoder S (Unit {0})
  encode_status_entry e = Sink.◌>>◌ (sink.write (e.status ∷ [])) (
      Sink.◌>>◌
        (reject_if (ltb 65535 (length e.detail))
          (too_large 65535 (length e.detail) "loadprog-status-detail"))
        (Sink.◌>>◌ (sink.write (le_bytes 2 (as_u16 (length e.detail)))) (sink.write e.detail)))

  unfoldable pub encode_status_entries : List LoadProgStatusEntry → Encoder S (Unit {0})
  encode_status_entries [] = done
  encode_status_entries (e ∷ es) = Sink.◌>>◌ (encode_status_entry e) (encode_status_entries es)

  unfoldable pub encode_loadprog_status : List LoadProgStatusEntry → Encoder S (Unit {0})
  encode_loadprog_status es =
      Sink.◌>>◌ (sink.write (le_bytes 4 (as_u32 (length es)))) (encode_status_entries es)
