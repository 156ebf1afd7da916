-- ===== src/Conduit/Records/Runs.antt =====
-- A ring of 32 bytes at offset 4 with two records, one on each side of its end, and the theorems
-- there (host/bifrost/src/control_shmem.rs).
use project_bifrost.Base.{ℕ, ◌≡◌, refl, List, [], ◌∷◌, some, from_le, le_bytes, map}
use project_bifrost.Conduit.Memory.{Memory, poke, peek, read_u32_le, write_u32_le}
use project_bifrost.Conduit.Records.{
  DataShmAttachment, copy_ring, read_ring_bytes, record_at, take_record, walk_records,
  records_between_in_ring,
}
use project_bifrost.Conduit.Records.Around.{Reads, read_ring_bytes-Reads}

-- A record of 5 bytes at position 48, and one of 7 bytes at position 64 whose ring offset is 0;
-- the first begins at ring offset 16.
abbrev bytes : Memory
bytes = poke 12 (7 ∷ 8 ∷ 9 ∷ []) (
    write_u32_le 8 1 (
      write_u32_le 4 7
        (poke 28 (1 ∷ 2 ∷ 3 ∷ 4 ∷ 5 ∷ []) (write_u32_le 24 1 (write_u32_le 20 5 (λ at. 0))))))

abbrev shm : DataShmAttachment
shm = record { base = bytes; size = 40 }

round_the_end : read_ring_bytes shm 4 32 30 6 ≡ some (0 ∷ 0 ∷ 7 ∷ 0 ∷ 0 ∷ 0 ∷ [])
unfolding read_ring_bytes copy_ring peek poke write_u32_le le_bytes
round_the_end = refl

abbrev payloads : List (List ℕ)
payloads = map (λ r. r.payload) (records_between_in_ring shm 4 32 48 80 8)

two_payloads : payloads ≡ (1 ∷ 2 ∷ 3 ∷ 4 ∷ 5 ∷ []) ∷ (7 ∷ 8 ∷ 9 ∷ 0 ∷ 0 ∷ 0 ∷ 0 ∷ []) ∷ []
unfolding records_between_in_ring walk_records take_record record_at read_ring_bytes copy_ring peek
    poke write_u32_le read_u32_le le_bytes from_le
two_payloads = refl

read_ring_bytes-Reads_example : Reads shm 4 32 30 6 (read_ring_bytes shm 4 32 30 6)
read_ring_bytes-Reads_example = read_ring_bytes-Reads shm 4 32 30 6
