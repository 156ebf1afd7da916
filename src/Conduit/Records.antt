-- ===== src/Conduit/Records.antt =====
-- The readers of a data ring in host/bifrost/src/control_shmem.rs. A walk sees one state of the
-- memory, so that its spin on a busy record reads the same flags again and leaves no trace.
pub mod Around
pub mod Steps
mod Runs
use project_bifrost.Base.{
  ℕ, zero, suc, ◌+◌, ◌-◌, ◌*◌, ◌/◌, ◌%◌, ◌^◌, List, [], ◌∷◌, ◌++◌, min, Bytes, Option, none, some,
  take, drop, ◌||◌, leb, ltb, ◌==◌, if◌then◌else◌, from_le,
}
use project_bifrost.Conduit.Memory.{Memory, peek, read_u32_le}

-- The mapped memory, and its size.
pub record DataShmAttachment : Type 0 where
  pub base : Memory
  pub size : ℕ

pub record RawDataRecordHeader : Type 0 where
  pub logical_pos : ℕ
  pub ring_off : ℕ
  pub size : ℕ
  pub flags : ℕ
  pub vmid : Option ℕ
  pub probe_id : Option ℕ
  pub gns : Option ℕ
  pub word3 : Option ℕ

pub record RawDataRecord : Type 0 where
  pub header : RawDataRecordHeader
  pub payload : Bytes

-- The two copies out of the ring: up to its end, and the rest from its start.
unfoldable pub copy_ring : Memory → ℕ → ℕ → ℕ → ℕ → Bytes
copy_ring m ring_off ring_len rel len =
    let first = min len (ring_len - rel) in
    peek m (ring_off + rel) first ++ (if ltb first len then peek m ring_off (len - first) else [])

-- `checked_add` fails above the largest `usize`.
unfoldable pub read_ring_bytes : DataShmAttachment → ℕ → ℕ → ℕ → ℕ → Option Bytes
read_ring_bytes shm ring_off ring_len rel len =
    if ring_len == 0
      || ltb ring_len len
      || leb (2 ^ 64) (ring_off + ring_len)
      || ltb shm.size (ring_off + ring_len)
    then none
    else some (copy_ring shm.base ring_off ring_len (rel % ring_len) len)

-- Bytes `at` to `at + n` of the payload's head, as a number.
abbrev pub word_at : ℕ → ℕ → Option Bytes → Option ℕ
word_at at n none = none
word_at at n (some bytes) = some (from_le (take n (drop at bytes)))

abbrev pub or_empty : Option Bytes → Bytes
or_empty none = []
or_empty (some bytes) = bytes

-- The record at position `pos`, with the size that its header has and the flags loaded first.
unfoldable pub record_at : DataShmAttachment → ℕ → ℕ → ℕ → ℕ → ℕ → RawDataRecord
record_at shm off len pos flags n =
    let rel = pos % len in
    let head = if leb 24 n then read_ring_bytes shm off len (rel + 8) 24 else none in
    record {
      header = record {
        logical_pos = pos;
        ring_off = rel;
        size = n;
        flags = flags;
        vmid = word_at 0 4 head;
        probe_id = word_at 4 4 head;
        gns = word_at 8 8 head;
        word3 = word_at 16 8 head;
      };
      payload = or_empty (read_ring_bytes shm off len (rel + 8) n);
    }

-- From a record's header to the next one's: the header and the body, in multiples of 8.
abbrev pub advance : ℕ → ℕ
advance n = (8 + n + 7) / 8 * 8

-- The rest of a round, on the header's bytes; `rest` goes on from a position.
unfoldable pub take_record :
    DataShmAttachment
    → ℕ
    → ℕ
    → ℕ
    → ℕ
    → ℕ
    → (ℕ → List RawDataRecord)
    → Option Bytes
    → List RawDataRecord
take_record shm off len end_pos pos flags rest none = []
take_record shm off len end_pos pos flags rest (some hdr) =
    let n = from_le (take 4 hdr) in
    let next = (pos + advance n) % 2 ^ 64 in
    record_at shm off len pos flags n
    ∷ (if advance n == 0 || ltb len (advance n) || ltb end_pos next then [] else rest next)

-- The loop, with `limit` more records to find.
unfoldable pub walk_records : DataShmAttachment → ℕ → ℕ → ℕ → ℕ → ℕ → List RawDataRecord
walk_records shm off len end_pos zero pos = []
walk_records shm off len end_pos (suc limit) pos =
    let flags = read_u32_le shm.base (off + pos % len + 4) in
    let rest = walk_records shm off len end_pos limit in
    if pos == end_pos || flags == 0
    then []
    else take_record shm off len end_pos pos flags rest (read_ring_bytes shm off len (pos % len) 8)

-- A start more than one ring behind the end is moved up to one ring behind it.
abbrev pub clip_start : ℕ → ℕ → ℕ → ℕ
clip_start len start_pos end_pos =
    if ltb len (end_pos - start_pos) then end_pos - len else start_pos

unfoldable pub records_between_in_ring : DataShmAttachment → ℕ → ℕ → ℕ → ℕ → ℕ → List RawDataRecord
records_between_in_ring shm off len start_pos end_pos limit =
    if start_pos == end_pos || len == 0 || leb shm.size off
    then []
    else walk_records shm off len end_pos limit (clip_start len start_pos end_pos)
