-- ===== src/Lower/Dof.antt =====
-- dof.rs: the header and the section table of a DOF blob. Numbers are read with the bounds the
-- code has tested; `usize` is 64 bits wide.
pub mod Bounds
use project_bifrost.Base.{
  ℕ, ◌+◌, ◌*◌, ◌%◌, ◌^◌, Bool, true, false, not, ◌&&◌, ◌||◌, Option, none, some, [], ◌∷◌, Bytes,
  length, take, drop, ltb, leb, ◌==◌, from_le, bytes_eq, if◌then◌else◌,
}
use project_bifrost.Lower.Error.{
  Result, ok, err, LowerError, bad_magic, short_header, section_out_of_bounds,
  section_entsize_mismatch, section_index_out_of_range,
}

pub data SectKind : Type 0 where
  no_sect : SectKind
  comments : SectKind
  source : SectKind
  ecb_desc : SectKind
  probe_desc : SectKind
  act_desc : SectKind
  difo_hdr : SectKind
  dif : SectKind
  str_tab : SectKind
  var_tab : SectKind
  rel_tab : SectKind
  typ_tab : SectKind
  urel_hdr : SectKind
  krel_hdr : SectKind
  opt_desc : SectKind
  provider : SectKind
  probes : SectKind
  pr_args : SectKind
  pr_offs : SectKind
  int_tab : SectKind
  uts_name : SectKind
  xl_tab : SectKind
  xl_members : SectKind
  xl_import : SectKind
  xl_export : SectKind
  prexport : SectKind
  pren_offs : SectKind
  other : SectKind

unfoldable pub sect_kind_from_u32 : ℕ → SectKind
sect_kind_from_u32 v =
    if v == 0
    then no_sect
    else if v == 1
    then comments
    else if v == 2
    then source
    else if v == 3
    then ecb_desc
    else if v == 4
    then probe_desc
    else if v == 5
    then act_desc
    else if v == 6
    then difo_hdr
    else if v == 7
    then dif
    else if v == 8
    then str_tab
    else if v == 9
    then var_tab
    else if v == 10
    then rel_tab
    else if v == 11
    then typ_tab
    else if v == 12
    then urel_hdr
    else if v == 13
    then krel_hdr
    else if v == 14
    then opt_desc
    else if v == 15
    then provider
    else if v == 16
    then probes
    else if v == 17
    then pr_args
    else if v == 18
    then pr_offs
    else if v == 19
    then int_tab
    else if v == 20
    then uts_name
    else if v == 21
    then xl_tab
    else if v == 22
    then xl_members
    else if v == 23
    then xl_import
    else if v == 24
    then xl_export
    else if v == 25
    then prexport
    else if v == 26
    then pren_offs
    else other

-- `kind == SectKind::EcbDesc`
unfoldable pub is_ecb_desc : SectKind → Bool
is_ecb_desc ecb_desc = true
is_ecb_desc k = false

-- `kind == SectKind::ProbeDesc`
unfoldable pub is_probe_desc : SectKind → Bool
is_probe_desc probe_desc = true
is_probe_desc k = false

pub record SectionHeader : Type 0 where
  pub kind : SectKind
  pub kind_raw : ℕ
  pub flags : ℕ
  pub align : ℕ
  pub entsize : ℕ
  pub offset : ℕ
  pub size : ℕ

pub record DofView : Type 0 where
  pub blob : Bytes
  pub sections : Bytes
  pub section_count : ℕ

-- `uN::from_le_bytes` of `width` bytes at `off`
unfoldable pub read_le : ℕ → Bytes → ℕ → ℕ
read_le width b off = from_le (take width (drop off b))

abbrev pub dof_hdr_size : ℕ
dof_hdr_size = 64

abbrev pub dof_sec_size : ℕ
dof_sec_size = 32

-- DOF_MAG_BYTES
abbrev pub dof_magic : Bytes
dof_magic = 0x7f ∷ 0x44 ∷ 0x4f ∷ 0x46 ∷ []

unfoldable pub parse_section_header : Bytes → SectionHeader
parse_section_header raw = record {
  kind = sect_kind_from_u32 (read_le 4 raw 0);
  kind_raw = read_le 4 raw 0;
  flags = read_le 4 raw 8;
  align = read_le 4 raw 4;
  entsize = read_le 4 raw 12;
  offset = read_le 8 raw 16;
  size = read_le 8 raw 24;
}

-- `sections.get(base..base + DOF_SEC_SIZE)?` is `none` past the table.
unfoldable pub section_at : DofView → ℕ → Option SectionHeader
section_at view index =
    if leb view.section_count index
    then none
    else if ltb (length view.sections) (index * dof_sec_size + dof_sec_size)
    then none
    else some (parse_section_header (take dof_sec_size (drop (index * dof_sec_size) view.sections)))

-- No sum of two offsets above this is representable.
abbrev pub usize_max : ℕ
usize_max = 0xffff_ffff_ffff_ffff

abbrev pub payload_of : DofView → ℕ → Option SectionHeader → Result LowerError Bytes
payload_of view index none = err (section_index_out_of_range index view.section_count)
payload_of view index (some hdr) =
    if ltb usize_max (hdr.offset + hdr.size) || ltb (length view.blob) (hdr.offset + hdr.size)
    then err (section_out_of_bounds index hdr.offset hdr.size (length view.blob))
    else if not (hdr.entsize == 0) && not (hdr.size % hdr.entsize == 0)
    then err (section_entsize_mismatch index hdr.entsize hdr.size)
    else ok (take hdr.size (drop hdr.offset view.blob))

unfoldable pub section_bytes : DofView → ℕ → Result LowerError Bytes
section_bytes view index = payload_of view index (section_at view index)

-- The view over a header's `secnum` and `secoff`.
unfoldable pub table_view : Bytes → ℕ → ℕ → Result LowerError DofView
table_view blob sec_num sec_off =
    let stop = sec_off + sec_num * dof_sec_size in
    if ltb usize_max stop || ltb (length blob) stop
    then err short_header
    else ok (record {
      blob = blob;
      sections = take (sec_num * dof_sec_size) (drop sec_off blob);
      section_count = sec_num;
    })

-- The fields of `DofHeaderRaw` at their offsets: `secsize` 24, `secnum` 28, `secoff` 32.
unfoldable pub parse_blob : Bytes → Result LowerError DofView
parse_blob blob =
    if ltb (length blob) dof_hdr_size
    then err short_header
    else if not (bytes_eq (take 4 blob) dof_magic)
    then err bad_magic
    else if not (read_le 4 blob 24 == dof_sec_size)
    then err short_header
    else table_view blob (read_le 4 blob 28) (read_le 8 blob 32)
