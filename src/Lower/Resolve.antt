-- ===== src/Lower/Resolve.antt =====
-- session.rs: the probe of an ECB.
use project_bifrost.Base.{
  ℕ, ◌+◌, ◌*◌, Bool, not, Option, none, some, [], ◌∷◌, Bytes, length, take, drop, ltb, leb, ◌==◌,
  if◌then◌else◌,
}
use project_bifrost.Lower.Error.{
  Result, ok, err, LowerError, section_index_out_of_range, capacity_exceeded, ◌>>=◌,
}
use project_bifrost.Lower.Dof.{
  DofView, SectionHeader, read_le, section_at, section_bytes, is_probe_desc, usize_max,
}
use project_bifrost.Lower.Adapter.{ProbeTarget}

-- The bytes in front of the first NUL, or all of them.
unfoldable pub until_nul : Bytes → Bytes
until_nul [] = []
until_nul (b ∷ bs) = if b == 0 then [] else b ∷ until_nul bs

-- `core::str::from_utf8` is `is_utf8`: a text that is not UTF-8 is read as empty.
module _ (is_utf8 : Bytes → Bool) where
  unfoldable pub read_cstr : Bytes → ℕ → Bytes
  read_cstr buf off =
      let text = until_nul (drop off buf) in
      if leb (length buf) off then [] else if is_utf8 text then text else []

  abbrev pub target_at : ℕ → Bytes → Bytes → ProbeTarget
  target_at entsize row strtab = record {
    provider = read_cstr strtab (read_le 4 row 4);
    module_name = read_cstr strtab (read_le 4 row 8);
    function = read_cstr strtab (read_le 4 row 12);
    name = read_cstr strtab (if leb 20 entsize then read_le 4 row 16 else 0);
  }

  abbrev pub resolve_row : DofView → ℕ → ℕ → Bytes → Result LowerError (Option ProbeTarget)
  resolve_row view probe_index entsize section =
      let off = probe_index * entsize in
      let row = take entsize (drop off section) in
      if ltb entsize 16
      then ok none
      else if ltb usize_max off
      then err (capacity_exceeded 0xffff_ffff)
      else if ltb (length section) (off + entsize)
      then ok none
      else section_bytes view (read_le 4 row 0) >>= λ strtab.
          ok (some (target_at entsize row strtab))

  abbrev pub resolve_with :
      DofView → ℕ → ℕ → Option SectionHeader → Result LowerError (Option ProbeTarget)
  resolve_with view probe_section probe_index none =
      err (section_index_out_of_range probe_section view.section_count)
  resolve_with view probe_section probe_index (some hdr) =
      if not (is_probe_desc hdr.kind)
      then err (section_index_out_of_range probe_section view.section_count)
      else section_bytes view probe_section >>= resolve_row view probe_index hdr.entsize

  unfoldable pub resolve_probe_target : DofView → ℕ → ℕ → Result LowerError (Option ProbeTarget)
  resolve_probe_target view probe_section probe_index =
      resolve_with view probe_section probe_index (section_at view probe_section)
