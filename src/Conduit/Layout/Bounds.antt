-- ===== src/Conduit/Layout/Bounds.antt =====
-- The rings of a layout lie side by side in the region.
use project_bifrost.Base.{
  ℕ, ◌+◌, ◌-◌, ◌*◌, ◌/◌, ◌%◌, ◌≤◌, ◌<◌, ◌≡◌, [], refl, arith, inl, inr, Bool-cases, ltb, false,
}
use project_bifrost.Lower.Error.{Result, ok, err}
use project_bifrost.Conduit.Layout.{
  RingLayout, LayoutError, below_minimum, control_shm_min_size, control_shm_hdr_size,
  control_rsp_ring_min_len, compute_ring_layout,
}
use project_bifrost.Conduit.Memory.{Memory}
use project_bifrost.Conduit.Ring.{Ring}
use project_bifrost.Conduit.Ring.Held.{Holds, holding}
use project_bifrost.Conduit.Ring.Laid.{IsLaid}

-- A ring of the region before any push.
abbrev pub fresh : Memory → ℕ → ℕ → Ring
fresh m off len = record {
  memory = m;
  ring_off = off;
  ring_len = len;
  producer_pos = 0;
  consumer_pos = 0;
}

-- The command ring begins behind the header, the response ring behind the command ring, and it
-- ends in the region's last page; both hold an empty queue at first.
abbrev pub IsSideBySide : ℕ → RingLayout → Type 0
IsSideBySide size layout =
    (layout.cmd_ring_off ≡ control_shm_hdr_size)
    × (layout.rsp_ring_off ≡ layout.cmd_ring_off + layout.cmd_ring_len)
    × (layout.rsp_ring_off + layout.rsp_ring_len ≤ size)
    × ((layout.rsp_ring_off + layout.rsp_ring_len) % 4096 ≡ 0)
    × (size < layout.rsp_ring_off + layout.rsp_ring_len + 4096)
    × (control_rsp_ring_min_len ≤ layout.rsp_ring_len)
    × ((m : Memory) → Holds (fresh m layout.cmd_ring_off layout.cmd_ring_len) [])
    × ((m : Memory) → Holds (fresh m layout.rsp_ring_off layout.rsp_ring_len) [])

abbrev pub LaysOut : ℕ → Result LayoutError RingLayout → Type 0
LaysOut size (ok layout) = (control_shm_min_size ≤ size) × IsSideBySide size layout
LaysOut size (err e) = (size < control_shm_min_size) × (e ≡ below_minimum size)

pub fresh-Holds : (m : Memory) (off len : ℕ) → 0 < len → len % 16 ≡ 0 → Holds (fresh m off len) []
unfolding IsLaid
fresh-Holds m off len some aligned =
    holding (fresh m off len) [] (some, aligned, omega arith, omega arith, omega arith) refl

-- For every size `compute_ring_layout` fails exactly below the minimum, or it lays out the
-- region: the command ring behind the header, the response ring behind the command ring and up to
-- the last whole page, at least its minimum long, and each ring, with its cursors at 0, holds an
-- empty queue.
pub compute_ring_layout-LaysOut : (size : ℕ) → LaysOut size (compute_ring_layout size)
unfolding compute_ring_layout
compute_ring_layout-LaysOut size = elim (Bool-cases (ltb size control_shm_min_size)) [
  | inl a ↦ rw a (ground (arith, a), refl)
  | inr a ↦
      let enough : control_shm_min_size ≤ size = ground (arith, a) in
      let long : ltb ((size - 69632) / 4096 * 4096) 4096 ≡ false = ground arith in
      rw (a, long)
        (
          enough,
          (
            refl,
            refl,
            omega arith,
            omega arith,
            omega arith,
            omega arith,
            (λ m. fresh-Holds m _ _ (omega arith) refl),
            (λ m. fresh-Holds m _ _ (omega arith) (omega arith)),
          ),
        )
]
