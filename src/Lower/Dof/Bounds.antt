-- ===== src/Lower/Dof/Bounds.antt =====
-- The section table of a parsed blob, and the sections inside it.
use project_bifrost.Base.{
  ℕ, ◌+◌, ◌*◌, ◌%◌, ◌<◌, ◌≤◌, ◌≡◌, refl, sym, ◌⊎◌, arith, false, not, ◌&&◌, ◌||◌, Option, none,
  some, Bytes, length, take, drop, ltb, leb, ◌==◌, bytes_eq, Bool-cases, inl, inr, subst,
  length-take, length-drop,
}
use project_bifrost.Lower.Error.{Result, ok, LowerError, err-ok}
use project_bifrost.Lower.Dof.{
  DofView, SectionHeader, read_le, section_at, section_bytes, payload_of, parse_section_header,
  parse_blob, table_view, usize_max, dof_hdr_size, dof_magic, dof_sec_size,
}

ok-ok : {A : Type 0} {a b : A} → (let r : Result LowerError A = ok a in r) ≡ ok b → a ≡ b
ok-ok h = cc

-- The table of a view holds all of its rows.
abbrev pub IsTable : DofView → Type 0
IsTable view = length view.sections ≡ view.section_count * dof_sec_size

table_view-IsTable :
    (blob : Bytes) (sec_num sec_off : ℕ) (view : DofView)
    → table_view blob sec_num sec_off ≡ ok view
    → IsTable view
unfolding table_view
table_view-IsTable blob sec_num sec_off view h =
    elim (Bool-cases (
      ltb usize_max (sec_off + sec_num * dof_sec_size)
      || ltb (length blob) (sec_off + sec_num * dof_sec_size))) [
        | inl past ↦ absurd (err-ok (rw past at h))
        | inr inside ↦
            let sections : Bytes = take (sec_num * dof_sec_size) (drop sec_off blob) in
            let whole : length sections ≡ sec_num * dof_sec_size =
              (let room : sec_off + sec_num * dof_sec_size ≤ length blob = ground arith in
                omega (
                  arith,
                  length-take (sec_num * dof_sec_size) (drop sec_off blob),
                  length-drop sec_off blob,
                )) in
            subst IsTable (ok-ok (rw inside at h)) whole
      ]

-- Every section number below `section_count` of a parsed blob has a header: the `?` of `section_at`
-- never ends it early.
pub parse_blob-section_at :
    (blob : Bytes) (view : DofView) (index : ℕ)
    → parse_blob blob ≡ ok view
    → index < view.section_count
    → (hdr : SectionHeader) × (section_at view index ≡ some hdr)
unfolding parse_blob section_at
parse_blob-section_at blob view index h small = (
  parse_section_header (take dof_sec_size (drop (index * dof_sec_size) view.sections)),
  rw (in_range, in_table),
)
  where
    blob-IsTable : IsTable view
    blob-IsTable = elim (Bool-cases (ltb (length blob) dof_hdr_size)) [
      | inl short ↦ absurd (err-ok (rw short at h))
      | inr long ↦ elim (Bool-cases (not (bytes_eq (take 4 blob) dof_magic))) [
        | inl bad ↦ absurd (err-ok (rw (long, bad) at h))
        | inr good ↦ elim (Bool-cases (not (read_le 4 blob 24 == dof_sec_size))) [
          | inl odd ↦ absurd (err-ok (rw (long, good, odd) at h))
          | inr even ↦
              table_view-IsTable blob (read_le 4 blob 28) (read_le 8 blob 32) view
                (rw (long, good, even) at h)
        ]
      ]
    ]

    in_range : leb view.section_count index ≡ false
    in_range = ground arith

    in_table : ltb (length view.sections) (index * dof_sec_size + dof_sec_size) ≡ false
    in_table = ground (arith, blob-IsTable)

rows_fill :
    (hdr : SectionHeader)
    → (not (hdr.entsize == 0) && not (hdr.size % hdr.entsize == 0)) ≡ false
    → (hdr.entsize ≡ 0) ⊎ (hdr.size % hdr.entsize ≡ 0)
rows_fill hdr fits = elim (Bool-cases (hdr.entsize == 0)) [
  | inl none_set ↦ inl (ground arith)
  | inr set ↦ inr (ground arith)
]

-- A payload that `section_bytes` returns is the part of the blob that its header names, lies inside
-- the blob, and is a whole number of rows where the header gives rows a size.
pub section_bytes-inside :
    (view : DofView) (index : ℕ) (payload : Bytes)
    → section_bytes view index ≡ ok payload
    → (hdr : SectionHeader) × (section_at view index ≡ some hdr)
      × (hdr.offset + hdr.size ≤ length view.blob)
      × (payload ≡ take hdr.size (drop hdr.offset view.blob))
      × (length payload ≡ hdr.size)
      × ((hdr.entsize ≡ 0) ⊎ (hdr.size % hdr.entsize ≡ 0))
unfolding section_bytes
section_bytes-inside view index payload h = of_header (section_at view index) refl h
  where
    of_header :
        (found : Option SectionHeader)
        → section_at view index ≡ found
        → payload_of view index found ≡ ok payload
        → (hdr : SectionHeader) × (section_at view index ≡ some hdr)
          × (hdr.offset + hdr.size ≤ length view.blob)
          × (payload ≡ take hdr.size (drop hdr.offset view.blob))
          × (length payload ≡ hdr.size)
          × ((hdr.entsize ≡ 0) ⊎ (hdr.size % hdr.entsize ≡ 0))
    of_header none e h' = absurd (err-ok h')
    of_header (some hdr) e h' =
        elim (Bool-cases (
          ltb usize_max (hdr.offset + hdr.size)
          || ltb (length view.blob) (hdr.offset + hdr.size))) [
            | inl past ↦ absurd (err-ok (rw past at h'))
            | inr inside ↦
                elim (Bool-cases (not (hdr.entsize == 0) && not (hdr.size % hdr.entsize == 0))) [
                  | inl uneven ↦ absurd (err-ok (rw (inside, uneven) at h'))
                  | inr fits ↦
                      let cut : take hdr.size (drop hdr.offset view.blob) ≡ payload =
                        ok-ok (rw (inside, fits) at h') in
                      let room : hdr.offset + hdr.size ≤ length view.blob = ground arith in
                      (
                        hdr,
                        e,
                        room,
                        sym cut,
                        rw (← cut) (
                            omega (
                              arith,
                              length-take hdr.size (drop hdr.offset view.blob),
                              length-drop hdr.offset view.blob,
                            )),
                        rows_fill hdr fits,
                      )
                ]
          ]
