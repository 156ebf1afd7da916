-- ===== src/Conduit/Ring.antt =====
-- The two rings of the control region: producer `push_rsp` and consumer `drain_cmds` in
-- host/virtio-conduit/src/control.rs, producer `push_cmd` and consumers `poll_rsp` and
-- `drain_rsp_ring` in host/bifrost/src/control_shmem.rs. The two producers have one body, and so
-- do the consumers' loops, so each body is one function here that either ring is given to.
pub mod Offsets
pub mod Laid
pub mod Writes
pub mod Held
pub mod Push
pub mod Drain
pub mod Poll
pub mod Trace
pub mod Room
use project_bifrost.Base.{
  ℕ, zero, suc, ◌+◌, ◌-◌, ◌*◌, ◌/◌, ◌%◌, ◌^◌, List, [], ◌∷◌, map, Bytes, Option, none, some, length,
  Bool, true, false, ltb, ◌==◌, if◌then◌else◌, as_u32,
}
use project_bifrost.Lower.Error.{Result, ok, err}
use project_bifrost.Conduit.Memory.{
  Memory, poke, peek, write_u32_le, write_u64_le, read_u32_le, read_u64_le,
}

abbrev pub kind_pad : ℕ
kind_pad = 255

abbrev pub ring_hdr_size : ℕ
ring_hdr_size = 16

abbrev pub ring_entry_align : ℕ
ring_entry_align = 16

-- One ring of the region: where its bytes are, and its two cursors.
pub record Ring : Type 0 where
  pub memory : Memory
  pub ring_off : ℕ
  pub ring_len : ℕ
  pub producer_pos : ℕ
  pub consumer_pos : ℕ

-- The source's `(kind, seq, payload)`.
pub record Entry : Type 0 where
  pub kind : ℕ
  pub seq : ℕ
  pub payload : Bytes

-- `!(a - 1)` clears the bits below `a`, which is a power of two.
abbrev pub align_up : ℕ → ℕ → ℕ
align_up n a = (n + a - 1) / a * a

abbrev pub entry_total : ℕ → ℕ
entry_total len = ring_hdr_size + align_up len ring_entry_align

-- Subtraction and addition on `u64` and `usize` wrap.
abbrev pub wrapping_sub : ℕ → ℕ → ℕ
wrapping_sub a b = (2 ^ 64 + a - b) % 2 ^ 64

abbrev pub wrapping_add : ℕ → ℕ → ℕ
wrapping_add a b = (a + b) % 2 ^ 64

pub data PushError : Type 0 where
  cmd_entry_too_large : (entry ring : ℕ) → PushError
  cmd_ring_full_with_pad : (free need pad : ℕ) → PushError
  cmd_ring_full : (free need : ℕ) → PushError

-- `fetch_add` on a cursor
abbrev pub produce : ℕ → Ring → Ring
produce n r = record r { producer_pos = wrapping_add r.producer_pos n }

abbrev pub consume : ℕ → Ring → Ring
consume n r = record r { consumer_pos = wrapping_add r.consumer_pos n }

abbrev pub write_header : ℕ → ℕ → ℕ → ℕ → Memory → Memory
write_header at kind len seq m =
    write_u64_le (at + 8) seq (write_u32_le (at + 4) len (write_u32_le at kind m))

-- The header and the payload of the real entry.
unfoldable pub write_entry : ℕ → Entry → Ring → Ring
write_entry write_off e r =
    let at = r.ring_off + write_off in
    record r {
      memory =
          poke (at + ring_hdr_size) e.payload
            (write_header at e.kind (as_u32 (length e.payload)) e.seq r.memory);
    }

unfoldable pub write_pad : ℕ → ℕ → Ring → Ring
write_pad head_off tail_remaining r = record r {
  memory =
      write_header (r.ring_off + head_off) kind_pad
        (as_u32 (wrapping_sub tail_remaining ring_hdr_size)) 0 r.memory;
}

abbrev pub used : Ring → ℕ
used r = wrapping_sub r.producer_pos r.consumer_pos

abbrev pub free : Ring → ℕ
free r = r.ring_len - used r

abbrev pub head_of : ℕ → Ring → ℕ
head_of pos r = pos % r.ring_len

abbrev pub tail_remaining : Ring → ℕ
tail_remaining r = r.ring_len - head_of r.producer_pos r

unfoldable pub push_entry : Entry → Ring → Result PushError (Unit {0}) × Ring
push_entry e r =
    let total = entry_total (length e.payload) in
    let head_off = head_of r.producer_pos r in
    let tail = tail_remaining r in
    if ltb r.ring_len total
    then (err (cmd_entry_too_large total r.ring_len), r)
    else if ltb tail total
    then (if ltb (free r) (tail + total)
        then (err (cmd_ring_full_with_pad (free r) (tail + total) tail), r)
        else (ok tt, produce (tail + total) (write_entry 0 e (write_pad head_off tail r))))
    else if ltb (free r) total
    then (err (cmd_ring_full (free r) total), r)
    else (ok tt, produce total (write_entry head_off e r))

abbrev pub and_seq : ℕ → Result PushError (Unit {0}) → Result PushError ℕ
and_seq seq (ok u) = ok seq
and_seq seq (err e) = err e

-- `push_cmd` tags the entry with the process's counter, which advances on an error as well.
unfoldable pub push_cmd : ℕ → Bytes → ℕ × Ring → Result PushError ℕ × (ℕ × Ring)
push_cmd kind payload (seq, r) =
    let (result, r') = push_entry (record { kind = kind; seq = seq; payload = payload }) r in
    (and_seq seq result, (wrapping_add seq 1, r'))

pub data RspError : Type 0 where
  too_large : RspError
  full : RspError

abbrev pub rsp_result : Result PushError (Unit {0}) → Result RspError (Unit {0})
rsp_result (ok u) = ok tt
rsp_result (err (cmd_entry_too_large entry ring)) = err too_large
rsp_result (err (cmd_ring_full_with_pad free need pad)) = err full
rsp_result (err (cmd_ring_full free need)) = err full

unfoldable pub push_rsp : ℕ → ℕ → Bytes → Ring → Result RspError (Unit {0}) × Ring
push_rsp kind seq payload r =
    let (result, r') = push_entry (record { kind = kind; seq = seq; payload = payload }) r in
    (rsp_result result, r')

-- What one round of a consumer's loop comes to.
pub data Round : Type 0 where
  idle : Round
  skipped : Ring → Round
  overrun : (head_off len ring_len : ℕ) → Round
  taken : Entry → Ring → Round

unfoldable pub read_entry : Ring → Round
read_entry r =
    let head_off = head_of r.consumer_pos r in
    let at = r.ring_off + head_off in
    let len = read_u32_le r.memory (at + 4) in
    if r.producer_pos == r.consumer_pos
    then idle
    else if read_u32_le r.memory at == kind_pad
    then skipped (consume (r.ring_len - head_off) r)
    else if ltb r.ring_len (head_off + entry_total len)
    then overrun head_off len r.ring_len
    else taken
        (record {
          kind = read_u32_le r.memory at;
          seq = read_u64_le r.memory (at + 8);
          payload = peek r.memory (at + ring_hdr_size) len;
        })
        (consume (entry_total len) r)

abbrev pub emit : Entry → Option (List Entry × Ring) → Option (List Entry × Ring)
emit e none = none
emit e (some (es, r)) = some (e ∷ es, r)

-- `drain_cmds` and `drain_rsp_ring`; `none` when the rounds run out.
unfoldable pub drain : ℕ → Ring → Option (List Entry × Ring)
drain zero r = none
drain (suc rounds) r = elim (read_entry r) [
  | idle ↦ some ([], r)
  | skipped r' ↦ drain rounds r'
  | overrun head_off len ring_len ↦ some ([], r)
  | taken e r' ↦ emit e (drain rounds r')
]

-- `wanted_seq.is_some() && wanted_seq != Some(seq)`
abbrev pub is_unwanted : Option ℕ → ℕ → Bool
is_unwanted none seq = false
is_unwanted (some wanted) seq = if wanted == seq then false else true

pub data PollError : Type 0 where
  rsp_entry_overrun : (head_off len ring_len : ℕ) → PollError

-- The rounds are those that begin before the deadline; an idle round sleeps.
unfoldable pub poll_rsp : ℕ → Option ℕ → Ring → Result PollError (Option Entry) × Ring
poll_rsp zero wanted_seq r = (ok none, r)
poll_rsp (suc rounds) wanted_seq r = elim (read_entry r) [
  | idle ↦ poll_rsp rounds wanted_seq r
  | skipped r' ↦ poll_rsp rounds wanted_seq r'
  | overrun head_off len ring_len ↦ (err (rsp_entry_overrun head_off len ring_len), r)
  | taken e r' ↦ elim (is_unwanted wanted_seq e.seq) [
    | true ↦ poll_rsp rounds wanted_seq r'
    | false ↦ (ok (some e), r')
  ]
]
