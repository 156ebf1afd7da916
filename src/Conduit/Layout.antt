-- ===== src/Conduit/Layout.antt =====
-- The layout of the control region: `compute_ring_layout` in host/virtio-conduit/src/control.rs.
pub mod Bounds
use project_bifrost.Base.{ℕ, ◌+◌, ◌-◌, ◌*◌, ◌/◌, ltb, if◌then◌else◌}
use project_bifrost.Lower.Error.{Result, ok, err}

abbrev pub control_shm_hdr_size : ℕ
control_shm_hdr_size = 4096

abbrev pub control_cmd_ring_len : ℕ
control_cmd_ring_len = 64 * 1024

abbrev pub control_rsp_ring_min_len : ℕ
control_rsp_ring_min_len = 4096

abbrev pub control_shm_min_size : ℕ
control_shm_min_size = control_shm_hdr_size + control_cmd_ring_len + control_rsp_ring_min_len

pub record RingLayout : Type 0 where
  pub cmd_ring_off : ℕ
  pub cmd_ring_len : ℕ
  pub rsp_ring_off : ℕ
  pub rsp_ring_len : ℕ

-- The numbers of the two messages.
pub data LayoutError : Type 0 where
  below_minimum : (size : ℕ) → LayoutError
  rsp_below_minimum : (size rsp_ring_len : ℕ) → LayoutError

-- `& !0xfff` rounds down to a page.
unfoldable pub compute_ring_layout : ℕ → Result LayoutError RingLayout
compute_ring_layout size =
    let rsp_ring_off = control_shm_hdr_size + control_cmd_ring_len in
    let rsp_ring_len = (size - rsp_ring_off) / 4096 * 4096 in
    if ltb size control_shm_min_size
    then err (below_minimum size)
    else if ltb rsp_ring_len control_rsp_ring_min_len
    then err (rsp_below_minimum size rsp_ring_len)
    else ok (record {
      cmd_ring_off = control_shm_hdr_size;
      cmd_ring_len = control_cmd_ring_len;
      rsp_ring_off = rsp_ring_off;
      rsp_ring_len = rsp_ring_len;
    })
