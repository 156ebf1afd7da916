-- ===== src/Conduit/Records/Steps.antt =====
-- What the records of a walk are, and how each follows the one before (records_between_in_ring in
-- host/bifrost/src/control_shmem.rs).
use project_bifrost.Base.{
  ℕ, suc, ◌⊎◌, ◌+◌, ◌%◌, ◌^◌, ◌≤◌, ◌<◌, ◌≡◌, ◌≢◌, List, [], ◌∷◌, take, from_le, leb, if◌then◌else◌,
}
use project_bifrost.Conduit.Memory.{read_u32_le}
use project_bifrost.Conduit.Records.{DataShmAttachment, RawDataRecord}
use project_bifrost.Conduit.Records.Around.{around}

-- The record at a position has its place in the ring and its header's flags, which are set; its
-- size is in the first word of the ring's eight bytes there, and its payload is the bytes behind
-- them, empty when the ring is shorter.
abbrev pub IsPublished : DataShmAttachment → ℕ → ℕ → ℕ → RawDataRecord → Type 0
IsPublished shm off len pos r =
    (r.header.logical_pos ≡ pos)
    × (r.header.ring_off ≡ pos % len)
    × (r.header.flags ≡ read_u32_le shm.base (off + pos % len + 4))
    × (r.header.flags ≢ 0)
    × (r.header.size ≡ from_le (take 4 (around shm.base off len (pos % len) 8)))
    × (r.payload ≡ (
        if leb r.header.size len
        then around shm.base off len (pos % len + 8) r.header.size
        else []))

-- From a record to the next one: the least multiple of 8 that takes its header and its body.
abbrev pub IsStep : ℕ → ℕ → Type 0
IsStep n s = (s % 8 ≡ 0) × (8 + n ≤ s) × (s < 16 + n)

-- The records of a walk from a position to `end_pos`, of at most `limit`. It ends when there have
-- been as many, at `end_pos`, at a record that is not published, and behind a record that is longer
-- than the ring or goes over `end_pos`; a ring too short for a header has none. Each other record
-- is followed by one at the next position, and no record begins at `end_pos`.
pub data Successive (shm : DataShmAttachment) (off len end_pos : ℕ)
    : ℕ → ℕ → List RawDataRecord → Type 0 where
  spent : {pos : ℕ} → Successive shm off len end_pos 0 pos []
  arrived : {limit pos : ℕ} → pos ≡ end_pos → Successive shm off len end_pos limit pos []
  busy :
      {limit pos : ℕ}
      → read_u32_le shm.base (off + pos % len + 4) ≡ 0
      → Successive shm off len end_pos limit pos []
  headerless : {limit pos : ℕ} → len < 8 → Successive shm off len end_pos limit pos []
  last :
      {limit pos : ℕ} (r : RawDataRecord) (s : ℕ)
      → pos ≢ end_pos
      → IsPublished shm off len pos r
      → IsStep r.header.size s
      → (len < s) ⊎ (end_pos < (pos + s) % 2 ^ 64)
      → Successive shm off len end_pos (suc limit) pos (r ∷ [])
  step :
      {limit pos : ℕ} (r : RawDataRecord) (s : ℕ) {rs : List RawDataRecord}
      → pos ≢ end_pos
      → IsPublished shm off len pos r
      → IsStep r.header.size s
      → s ≤ len
      → (pos + s) % 2 ^ 64 ≤ end_pos
      → Successive shm off len end_pos limit ((pos + s) % 2 ^ 64) rs
      → Successive shm off len end_pos (suc limit) pos (r ∷ rs)

-- Where a walk begins: at its start, or one ring behind the end when the start is further behind.
abbrev pub Begins : ℕ → ℕ → ℕ → ℕ → Type 0
Begins len start_pos end_pos pos =
    ((end_pos ≤ start_pos + len) × (pos ≡ start_pos))
    ⊎ ((start_pos + len < end_pos) × (pos + len ≡ end_pos))
