-- ===== src/Kernel/Extract/Exact.antt =====
-- Which relocations of `.rela` sections are recorded, and where (src/kernel.rs: extract_relocs).
use arma.Base.{
  ℕ, ◌+◌, ◌%◌, ◌^◌, ◌<◌, bit_and, ◌||◌, ◌≡◌, inl, inr, sym, arith, Bool, false, not, ◌&&◌,
  Bool-cases, none, some, List, [], ◌∷◌, ◌++◌, map, keep, ◌==◌, if◌then◌else◌, length, ok, ok_or,
  some_of_ok_or, bind-eq-ok,
}
use arma.Base.Text.{Bytes}
use arma.Release.{nth}
use arma.Kernel.{elf_malformed, reloc_symbol, reloc_section, panics, Reloc, Elf, Reader}
use arma.Kernel.Span.{ElfSpan, elf_span}
use arma.Kernel.Relocs.{Relocs, no_relocs}
use arma.Kernel.Appended.{text_base}
use arma.Kernel.Extract.{
  PerCpu, find_percpu, is_percpu_sym, is_s_rel, is_index, name_of, site, add_reloc, add_relocs,
  add_section, add_sections, extract_sections, extract_relocs,
}
use arma.Kernel.Extract.Tables.{
  RelocTable, wide, inverse, narrow, offsets, belongs, Adds, put, classify-Adds, put-keep,
  Adds-then, Adds-none, Adds-same,
}

-- A table's share of a relocation: of a defined symbol, by the type.
unfoldable pub chosen_for : Elf → PerCpu → RelocTable → Reloc → Bool
chosen_for elf percpu k rel = elim (nth rel.r_sym elf.syms) [
  | none ↦ false
  | some sym ↦
      not (sym.st_shndx == 0)
      && belongs k rel.r_type (is_percpu_sym sym.st_shndx (name_of (elf.strtab sym.st_name)) percpu)
          (sym.st_shndx == 0xfff1 && not (is_s_rel (name_of (elf.strtab sym.st_name))))
]

-- Where a relocation applies: in the per-cpu section, as far behind the load address of its data.
abbrev pub moved : PerCpu → Bool → Reloc → ℕ
moved percpu inside rel =
    if inside then (rel.r_offset + percpu.load_addr) % 2 ^ 64 else rel.r_offset

-- The sites of one section that go to a table, in order: none where the section that it applies to
-- is not loaded or is a note.
unfoldable pub section_sites : Elf → PerCpu → RelocTable → ℕ × List Reloc → List ℕ
section_sites elf percpu k (i, rels) = elim (nth i elf.section_headers) [
  | none ↦ []
  | some sec ↦ elim (nth sec.sh_info elf.section_headers) [
    | none ↦ []
    | some applies ↦
        if bit_and applies.sh_flags 2 == 0 || applies.sh_type == 7
        then []
        else map (moved percpu (is_index percpu.shndx sec.sh_info))
            (keep (chosen_for elf percpu k) rels)
  ]
]

-- The sites of all sections that go to a table.
unfoldable pub all_sites : Elf → PerCpu → RelocTable → List (ℕ × List Reloc) → List ℕ
all_sites elf percpu k [] = []
all_sites elf percpu k (s ∷ ss) = section_sites elf percpu k s ++ all_sites elf percpu k ss

module _ (elf : Elf) (percpu : PerCpu) (base : ℕ) where
  add_reloc-Adds :
      (inside : Bool) (rel : Reloc) (out out' : Relocs)
      → add_reloc elf percpu base inside rel out ≡ ok out'
      → Adds base out out' (λ k. put (chosen_for elf percpu k rel) (site percpu inside rel))
  unfolding add_reloc chosen_for
  add_reloc-Adds inside rel out out' h =
      let (symbol, e, h') =
        bind-eq-ok (ok_or (elf_malformed reloc_symbol) (nth rel.r_sym elf.syms)) _ h in
      let there = some_of_ok_or _ (nth rel.r_sym elf.syms) e in
      elim (Bool-cases (symbol.st_shndx == 0)) [
        | inl z ↦ λ k. rw (chosen_for, there, z) (Adds-none base out out' (rw z at h') k)
        | inr z ↦ elim (Bool-cases (symbol.st_shndx == 0xffff)) [
          | inl x ↦ cc (rw (z, x) at h')
          | inr x ↦ λ k.
              rw (chosen_for, there, z)
                (classify-Adds base rel.r_type (site percpu inside rel) _ _ out out'
                  (rw (z, x) at h') k)
        ]
      ]

  add_relocs-Adds :
      (inside : Bool) (rels : List Reloc) (out out' : Relocs)
      → add_relocs elf percpu base inside rels out ≡ ok out'
      → Adds base out out' (λ k. map (site percpu inside) (keep (chosen_for elf percpu k) rels))
  unfolding add_relocs
  add_relocs-Adds inside [] out out' h = Adds-none base out out' h
  add_relocs-Adds inside (rel ∷ rels) out out' h =
      let (mid, e, h') = bind-eq-ok (add_reloc elf percpu base inside rel out) _ h in
      Adds-same base out out' _ _
        (λ k. sym (put-keep (chosen_for elf percpu k rel) (site percpu inside) rel _))
        (Adds-then base out mid out' _ _ (add_reloc-Adds inside rel out mid e)
          (add_relocs-Adds inside rels mid out' h'))

  add_section-Adds :
      (i : ℕ) (rels : List Reloc) (out out' : Relocs)
      → add_section elf percpu base i rels out ≡ ok out'
      → Adds base out out' (λ k. section_sites elf percpu k (i, rels))
  unfolding add_section section_sites
  add_section-Adds i rels out out' h =
      let (sec, e, h0) = bind-eq-ok (ok_or panics (nth i elf.section_headers)) _ h in
      let (applies, f, h1) =
        bind-eq-ok (ok_or (elf_malformed reloc_section) (nth sec.sh_info elf.section_headers)) _
          h0 in
      let here = some_of_ok_or _ (nth i elf.section_headers) e in
      let there = some_of_ok_or _ (nth sec.sh_info elf.section_headers) f in
      elim (Bool-cases (bit_and applies.sh_flags 2 == 0 || applies.sh_type == 7)) [
        | inl w ↦ λ k. rw (section_sites, here, there, w) (Adds-none base out out' (rw w at h1) k)
        | inr w ↦ λ k.
            rw (section_sites, here, there, w)
              (add_relocs-Adds (is_index percpu.shndx sec.sh_info) rels out out' (rw w at h1) k)
      ]

  add_sections-Adds :
      (sections : List (ℕ × List Reloc)) (out out' : Relocs)
      → add_sections elf percpu base sections out ≡ ok out'
      → Adds base out out' (λ k. all_sites elf percpu k sections)
  unfolding add_sections all_sites
  add_sections-Adds [] out out' h = Adds-none base out out' h
  add_sections-Adds ((i, rels) ∷ sections) out out' h =
      let (mid, e, h') = bind-eq-ok (add_section elf percpu base i rels out) _ h in
      Adds-then base out mid out' _ _ (add_section-Adds i rels out mid e)
        (add_sections-Adds sections mid out' h')

extract_sections_exact :
    (elf : Elf) (out : Relocs)
    → extract_sections elf ≡ ok out
    → (span : ElfSpan) × (percpu : PerCpu) × (base : ℕ) × (elf_span elf ≡ ok span)
      × (find_percpu elf 0 elf.section_headers ≡ ok percpu)
      × (text_base elf span ≡ ok base)
      × ((k : RelocTable)
          → map (λ o. base + o) (offsets k out) ≡ all_sites elf percpu k elf.shdr_relocs)
unfolding extract_sections
extract_sections_exact elf out h =
    let (span, a, h0) = bind-eq-ok (elf_span elf) _ h in
    let (percpu, b, h1) = bind-eq-ok (find_percpu elf 0 elf.section_headers) _ h0 in
    let (base, c, h2) = bind-eq-ok (text_base elf span) _ h1 in
    let adds = add_sections-Adds elf percpu base elf.shdr_relocs no_relocs out h2 in
    (span, percpu, base, a, b, c, exact percpu base adds)
  where
    exact :
        (percpu : PerCpu) (base : ℕ)
        → Adds base no_relocs out (λ k. all_sites elf percpu k elf.shdr_relocs)
        → (k : RelocTable)
        → map (λ o. base + o) (offsets k out) ≡ all_sites elf percpu k elf.shdr_relocs
    exact percpu base adds wide = adds wide
    exact percpu base adds inverse = adds inverse
    exact percpu base adds narrow = adds narrow

-- Where the extraction succeeds on a kernel that has `.rela` sections, the offsets of each table,
-- added to the address where the image is linked, are exactly the sites of the relocations that
-- belong to the table, in order, with a site in per-cpu data moved to where that data is loaded: no
-- relocation is left out or added, and no offset is cut off.
pub extract_relocs_exact :
    (r : Reader) (bytes : Bytes) (elf : Elf) (out : Relocs)
    → r.elf_parse bytes ≡ some elf
    → 0 < length elf.shdr_relocs
    → extract_relocs r bytes ≡ ok out
    → (span : ElfSpan) × (percpu : PerCpu) × (base : ℕ) × (elf_span elf ≡ ok span)
      × (find_percpu elf 0 elf.section_headers ≡ ok percpu)
      × (text_base elf span ≡ ok base)
      × ((k : RelocTable)
          → map (λ o. base + o) (offsets k out) ≡ all_sites elf percpu k elf.shdr_relocs)
unfolding extract_relocs
extract_relocs_exact r bytes elf out parsed filled h =
    let more : (length elf.shdr_relocs == 0) ≡ false = ground arith in
    extract_sections_exact elf out (rw (parsed, more) at h)
