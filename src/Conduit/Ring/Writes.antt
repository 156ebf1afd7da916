-- ===== src/Conduit/Ring/Writes.antt =====
-- What the writes of a ring's producer leave in memory.
use project_bifrost.Base.{
  ℕ, ◌+◌, ◌-◌, ◌%◌, ◌^◌, ◌≤◌, ◌<◌, ◌≡◌, inl, inr, refl, arith, ◌∙◌, ap, sym, List, [], ◌∷◌, ◌++◌,
  length, le_bytes, as_u32, subst,
}
use project_bifrost.Conduit.Memory.{
  Memory, peek, poke, Apart, peek-poke-Apart, peek-poke_same, write_u32_le, peek-write_u32_le,
  peek-write_u64_le, peek-write_u32_le-Apart, peek-write_u64_le-Apart,
}
use project_bifrost.Conduit.Ring.{
  Entry, Ring, entry_total, kind_pad, write_header, write_entry, write_pad, wrapping_sub,
}
use project_bifrost.Conduit.Ring.Laid.{
  Slot, pad, entry, Fits, IsHere, IsLaid, Agree, IsLaid-append, IsLaid-stays,
}

module _ (at kind len seq : ℕ) (m : Memory) where
  -- The memory after each word of a header.
  abbrev m₁ : Memory
  m₁ = write_u32_le at kind m

  abbrev m₂ : Memory
  m₂ = write_u32_le (at + 4) len m₁

  abbrev m₃ : Memory
  m₃ = write_header at kind len seq m

  header-Agree : (k : ℕ) → 16 ≤ k → Agree m m₃ at k
  header-Agree k le p n apart =
      peek-write_u64_le-Apart (at + 8) seq m₂ p n (within 8 8 (omega arith))
      ∙ peek-write_u32_le-Apart (at + 4) len m₁ p n (within 4 4 (omega arith))
      ∙ peek-write_u32_le-Apart at kind m p n
          (elim apart [ inl h ↦ inl (omega arith) | inr h ↦ inr (omega arith) ])
    where
      within : (d s : ℕ) → d + s ≤ 16 → Apart (at + d) s p n
      within d s fit = elim apart [ inl h ↦ inl (omega arith) | inr h ↦ inr (omega arith) ]

  header-kind : peek m₃ at 4 ≡ le_bytes 4 kind
  header-kind =
      peek-write_u64_le-Apart (at + 8) seq m₂ at 4 (inr (omega arith))
      ∙ peek-write_u32_le-Apart (at + 4) len m₁ at 4 (inr (omega arith))
      ∙ peek-write_u32_le at kind m

  header-len : peek m₃ (at + 4) 4 ≡ le_bytes 4 len
  header-len =
      peek-write_u64_le-Apart (at + 8) seq m₂ (at + 4) 4 (inr (omega arith))
      ∙ peek-write_u32_le (at + 4) len m₁

  header-seq : peek m₃ (at + 8) 8 ≡ le_bytes 8 seq
  header-seq = peek-write_u64_le (at + 8) seq m₂

module _ (e : Entry) (off w : ℕ) (r : Ring) (at_off : r.ring_off ≡ off) where
  abbrev at : ℕ
  at = off + w

  -- The memory after the header, and after the payload.
  abbrev headed : Memory
  headed = write_header at e.kind (as_u32 (length e.payload)) e.seq r.memory

  abbrev full_of : Memory
  full_of = poke (at + 16) e.payload headed

  entry_memory : (write_entry w e r).memory ≡ full_of
  unfolding write_entry
  entry_memory =
      ap
        (λ (o : ℕ).
          poke (o + w + 16) e.payload
            (write_header (o + w) e.kind (as_u32 (length e.payload)) e.seq r.memory))
        at_off

  payload_apart : (p n : ℕ) → p + n ≤ at + 16 → peek full_of p n ≡ peek headed p n
  payload_apart p n le = peek-poke-Apart (at + 16) e.payload headed p n (inr le)

  full_of-Agree : Agree r.memory full_of at (entry_total (length e.payload))
  full_of-Agree p n apart =
      peek-poke-Apart (at + 16) e.payload headed p n (apart_payload apart)
      ∙ header-Agree at e.kind (as_u32 (length e.payload)) e.seq r.memory
          (entry_total (length e.payload)) (omega arith) p n apart
    where
      apart_payload :
          Apart at (entry_total (length e.payload)) p n → Apart (at + 16) (length e.payload) p n
      apart_payload (inl h) = inl (omega arith)
      apart_payload (inr h) = inr (omega arith)

  full_of-IsHere : Fits e → IsHere e at full_of
  full_of-IsHere (kind, not_pad, seq, size) = (
    payload_apart at 4 (omega arith)
        ∙ header-kind at e.kind (as_u32 (length e.payload)) e.seq r.memory,
    payload_apart (at + 4) 4 (omega arith)
        ∙ header-len at e.kind (as_u32 (length e.payload)) e.seq r.memory
        ∙ ap (le_bytes 4)
            (let fit : length e.payload % 2 ^ 32 ≡ length e.payload = omega arith in fit),
    payload_apart (at + 8) 8 (omega arith)
        ∙ header-seq at e.kind (as_u32 (length e.payload)) e.seq r.memory,
    peek-poke_same (at + 16) e.payload headed,
  )

module _ (off len : ℕ) (pos_len : 0 < len) (r : Ring) (at_off : r.ring_off ≡ off) where
  -- An entry written behind the last slot is the next slot.
  pub IsLaid-write_entry :
      (e : Entry) (pos : ℕ) (slots : List Slot) (stop w : ℕ)
      → Fits e
      → w ≡ stop % len
      → w + entry_total (length e.payload) ≤ len
      → stop + entry_total (length e.payload) ≤ pos + len
      → IsLaid off len r.memory pos slots stop
      → IsLaid off len
          (write_entry w e r).memory
          pos
          (slots ++ entry e ∷ [])
          (stop + entry_total (length e.payload))
  unfolding IsLaid
  IsLaid-write_entry e pos slots stop w fits e_w fit within h =
      subst (λ (t : ℕ). IsLaid off len (write_entry t e r).memory pos (slots ++ entry e ∷ []) stop')
        (sym e_w)
        (subst (λ m. IsLaid off len m pos (slots ++ entry e ∷ []) stop')
          (sym (entry_memory e off (stop % len) r at_off))
          (IsLaid-append off len after pos slots stop (entry e ∷ []) stop'
            (IsLaid-stays off len pos_len r.memory after stop total pos slots stop
              (full_of-Agree e off (stop % len) r at_off) fit' (omega arith) within h)
            (fits, fit', full_of-IsHere e off (stop % len) r at_off fits, refl)))
    where
      total : ℕ
      total = entry_total (length e.payload)

      stop' : ℕ
      stop' = stop + total

      after : Memory
      after = full_of e off (stop % len) r at_off

      fit' : stop % len + total ≤ len
      fit' = omega arith

  -- So is a pad.
  pub IsLaid-write_pad :
      (pos : ℕ) (slots : List Slot) (stop : ℕ)
      → stop % len + 16 ≤ len
      → stop + (len - stop % len) ≤ pos + len
      → IsLaid off len r.memory pos slots stop
      → IsLaid off len
          (write_pad (stop % len) (len - stop % len) r).memory
          pos
          (slots ++ pad ∷ [])
          (stop + (len - stop % len))
  unfolding IsLaid write_pad
  IsLaid-write_pad pos slots stop fit within h =
      subst (λ (o : ℕ). IsLaid off len (header o) pos (slots ++ pad ∷ []) stop') (sym at_off)
        (IsLaid-append off len (header off) pos slots stop (pad ∷ []) stop'
          (IsLaid-stays off len pos_len r.memory (header off) stop 16 pos slots stop
            (header-Agree (off + stop % len) kind_pad size 0 r.memory 16 (omega arith)) fit
            (omega arith) (omega arith) h)
          (header-kind (off + stop % len) kind_pad size 0 r.memory, fit, refl))
    where
      size : ℕ
      size = as_u32 (wrapping_sub (len - stop % len) 16)

      stop' : ℕ
      stop' = stop + (len - stop % len)

      header : ℕ → Memory
      header o = write_header (o + stop % len) kind_pad size 0 r.memory
