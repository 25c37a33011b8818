-- ===== src/Kernel/Extract.antt =====
-- The relocations of a kernel with `.rela` sections (src/kernel.rs: is_s_rel, find_percpu,
-- is_percpu_sym, extract_relocs).
pub mod Exact
pub mod Sites
pub mod Tables
use arma.Base.{
  ℕ, zero, suc, ◌+◌, ◌-◌, ◌%◌, ◌^◌, ◌<◌, bit_and, Bool, true, false, not, ◌&&◌, ◌||◌, Option, none,
  some, List, [], ◌∷◌, ◌++◌, any, ltb, leb, ◌==◌, if◌then◌else◌, find, length, Result, ok, err,
  ok_or, refuse_if, ◌>>=◌, ◌>>◌,
}
use arma.Base.Text.{Bytes, codes, bytes_eq, strip_prefix}
use arma.Release.{nth}
use arma.Kernel.{
  KernelError, elf_malformed, parse_failed, no_percpu_load, no_load_at_min, reloc_outside,
  reloc_section, reloc_symbol, symbol_xindex, pc64_percpu, reloc_type, panics, ProgramHeader,
  SectionHeader, Sym, Reloc, Elf, Reader, pt_load,
}
use arma.Kernel.Span.{ElfSpan, elf_span}
use arma.Kernel.Relocs.{Relocs, no_relocs}
use arma.Kernel.Appended.{text_base, extract_appended_relocs}

abbrev pub has_prefix : Bytes → Bytes → Bool
has_prefix prefix name = elim (strip_prefix prefix name) [ none ↦ false | some rest ↦ true ]

abbrev pub is_one_of : List Bytes → Bytes → Bool
is_one_of names name = any (bytes_eq name) names

abbrev pub s_rel_names : List Bytes
s_rel_names =
    codes "__init_begin"
    ∷ codes "__init_end"
    ∷ codes "__x86_cpu_dev_start"
    ∷ codes "__x86_cpu_dev_end"
    ∷ codes "__parainstructions"
    ∷ codes "__parainstructions_end"
    ∷ codes "__alt_instructions"
    ∷ codes "__alt_instructions_end"
    ∷ codes "__iommu_table"
    ∷ codes "__iommu_table_end"
    ∷ codes "__apicdrivers"
    ∷ codes "__apicdrivers_end"
    ∷ codes "__smp_locks"
    ∷ codes "__smp_locks_end"
    ∷ codes "__start_builtin_fw"
    ∷ codes "__end_builtin_fw"
    ∷ codes "__start___ksymtab"
    ∷ codes "__stop___ksymtab"
    ∷ codes "__start___ksymtab_gpl"
    ∷ codes "__stop___ksymtab_gpl"
    ∷ codes "__start___kcrctab"
    ∷ codes "__stop___kcrctab"
    ∷ codes "__start___kcrctab_gpl"
    ∷ codes "__stop___kcrctab_gpl"
    ∷ codes "__start___param"
    ∷ codes "__stop___param"
    ∷ codes "__start___modver"
    ∷ codes "__stop___modver"
    ∷ codes "__start___bug_table"
    ∷ codes "__stop___bug_table"
    ∷ codes "__tracedata_start"
    ∷ codes "__tracedata_end"
    ∷ codes "__start_notes"
    ∷ codes "__stop_notes"
    ∷ codes "__end_rodata"
    ∷ codes "__end_rodata_aligned"
    ∷ codes "__initramfs_start"
    ∷ codes "jiffies"
    ∷ codes "jiffies_64"
    ∷ codes "__per_cpu_load"
    ∷ codes "__end_rodata_hpage_align"
    ∷ codes "__vvar_page"
    ∷ codes "_end"
    ∷ []

unfoldable pub is_s_rel : Bytes → Bool
is_s_rel name =
    has_prefix (codes "__start_pci_") name
    || has_prefix (codes "__end_pci_") name
    || has_prefix (codes "init_per_cpu__") name
    || is_one_of s_rel_names name

pub record PerCpu : Type 0 where
  pub shndx : Option ℕ
  pub load_addr : ℕ

abbrev pub no_percpu : PerCpu
no_percpu = record { shndx = none; load_addr = 0 }

-- A name in a table of strings.
abbrev pub is_named : Option Bytes → Bytes → Bool
is_named none name = false
is_named (some found) name = bytes_eq found name

abbrev pub load_symbol : Elf → Option Sym
load_symbol elf = find (λ s. is_named (elf.strtab s.st_name) (codes "__per_cpu_load")) elf.syms

abbrev pub percpu_at : Elf → ℕ → SectionHeader → Result KernelError PerCpu
percpu_at elf i sh =
    if sh.sh_addr == 0
    then (do
      s ← ok_or (elf_malformed no_percpu_load) (load_symbol elf)
      ok (record { shndx = some i; load_addr = s.st_value }))
    else ok no_percpu

-- The sections from the index `i`.
unfoldable pub find_percpu : Elf → ℕ → List SectionHeader → Result KernelError PerCpu
find_percpu elf i [] = ok no_percpu
find_percpu elf i (sh ∷ headers) =
    let rest = find_percpu elf (suc i) headers in
    if is_named (elf.shdr_strtab sh.sh_name) (codes ".data..percpu")
    then percpu_at elf i sh
    else rest

abbrev pub is_index : Option ℕ → ℕ → Bool
is_index none n = false
is_index (some m) n = m == n

unfoldable pub is_percpu_sym : ℕ → Bytes → PerCpu → Bool
is_percpu_sym st_shndx name percpu =
    is_index percpu.shndx st_shndx
    && not (bytes_eq name (codes "__init_begin"))
    && not (bytes_eq name (codes "__per_cpu_load"))
    && not (has_prefix (codes "init_per_cpu_") name)

-- `to_image_off`
abbrev pub to_image_off : ℕ → ℕ → Result KernelError ℕ
to_image_off text_vaddr va =
    if leb text_vaddr va && ltb (va - text_vaddr) (2 ^ 32)
    then ok (va - text_vaddr)
    else err (elf_malformed reloc_outside)

abbrev pub push64 : ℕ → Relocs → Relocs
push64 o r = record {
  relocs32 = r.relocs32;
  relocs32neg = r.relocs32neg;
  relocs64 = r.relocs64 ++ (o ∷ []);
}

abbrev pub push32 : ℕ → Relocs → Relocs
push32 o r = record {
  relocs32 = r.relocs32 ++ (o ∷ []);
  relocs32neg = r.relocs32neg;
  relocs64 = r.relocs64;
}

abbrev pub push32neg : ℕ → Relocs → Relocs
push32neg o r = record {
  relocs32 = r.relocs32;
  relocs32neg = r.relocs32neg ++ (o ∷ []);
  relocs64 = r.relocs64;
}

abbrev pub is_relative : ℕ → Bool
is_relative t = t == 2 || t == 4 || t == 42

abbrev pub is_absolute : ℕ → Bool
is_absolute t = t == 1 || t == 10 || t == 11

-- `match rel.r_type`
unfoldable pub classify : ℕ → ℕ → ℕ → Bool → Bool → Relocs → Result KernelError Relocs
classify text_vaddr r_type offset percpu_sym shn_abs out =
    if r_type == 0
    then ok out
    else if is_relative r_type
    then (if percpu_sym
        then (to_image_off text_vaddr offset >>= λ o. ok (push32neg o out))
        else ok out)
    else if r_type == 24
    then (if percpu_sym then err (elf_malformed pc64_percpu) else ok out)
    else if is_absolute r_type
    then (if percpu_sym || shn_abs
        then ok out
        else (to_image_off text_vaddr offset >>= λ o.
            ok (if r_type == 1 then push64 o out else push32 o out)))
    else err (elf_malformed reloc_type)

abbrev pub name_of : Option Bytes → Bytes
name_of none = []
name_of (some name) = name

abbrev pub site : PerCpu → Bool → Reloc → ℕ
site percpu applies_percpu rel =
    if applies_percpu then (rel.r_offset + percpu.load_addr) % 2 ^ 64 else rel.r_offset

-- One relocation.
unfoldable pub add_reloc : Elf → PerCpu → ℕ → Bool → Reloc → Relocs → Result KernelError Relocs
unfolding is_s_rel is_percpu_sym classify
add_reloc elf percpu text_vaddr applies_percpu rel out = do
  sym ← ok_or (elf_malformed reloc_symbol) (nth rel.r_sym elf.syms)
  (if sym.st_shndx == 0
      then ok out
      else if sym.st_shndx == 0xffff
      then err (elf_malformed symbol_xindex)
      else classify text_vaddr rel.r_type (site percpu applies_percpu rel)
          (is_percpu_sym sym.st_shndx (name_of (elf.strtab sym.st_name)) percpu)
          (sym.st_shndx == 0xfff1 && not (is_s_rel (name_of (elf.strtab sym.st_name)))) out)

unfoldable pub add_relocs :
    Elf → PerCpu → ℕ → Bool → List Reloc → Relocs → Result KernelError Relocs
unfolding add_reloc
add_relocs elf percpu text_vaddr applies_percpu [] out = ok out
add_relocs elf percpu text_vaddr applies_percpu (rel ∷ rels) out = do
  out' ← add_reloc elf percpu text_vaddr applies_percpu rel out
  add_relocs elf percpu text_vaddr applies_percpu rels out'

-- `SHF_ALLOC`, and no note.
abbrev pub is_walked : SectionHeader → Bool
is_walked applies = not (bit_and applies.sh_flags 2 == 0 || applies.sh_type == 7)

-- The relocations of one section; an index out of range panics.
unfoldable pub add_section : Elf → PerCpu → ℕ → ℕ → List Reloc → Relocs → Result KernelError Relocs
unfolding add_relocs
add_section elf percpu text_vaddr sec_idx rels out = do
  sec ← ok_or panics (nth sec_idx elf.section_headers)
  applies ← ok_or (elf_malformed reloc_section) (nth sec.sh_info elf.section_headers)
  (if is_walked applies
      then add_relocs elf percpu text_vaddr (is_index percpu.shndx sec.sh_info) rels out
      else ok out)

unfoldable pub add_sections :
    Elf → PerCpu → ℕ → List (ℕ × List Reloc) → Relocs → Result KernelError Relocs
unfolding add_section
add_sections elf percpu text_vaddr [] out = ok out
add_sections elf percpu text_vaddr ((sec_idx, rels) ∷ sections) out = do
  out' ← add_section elf percpu text_vaddr sec_idx rels out
  add_sections elf percpu text_vaddr sections out'

unfoldable pub extract_sections : Elf → Result KernelError Relocs
unfolding elf_span find_percpu add_sections
extract_sections elf = do
  span ← elf_span elf
  percpu ← find_percpu elf 0 elf.section_headers
  text_vaddr ← text_base elf span
  add_sections elf percpu text_vaddr elf.shdr_relocs no_relocs

unfoldable pub extract_relocs : Reader → Bytes → Result KernelError Relocs
unfolding extract_sections extract_appended_relocs
extract_relocs r bytes = do
  elf ← ok_or (elf_malformed parse_failed) (r.elf_parse bytes)
  (if length elf.shdr_relocs == 0 then extract_appended_relocs elf bytes else extract_sections elf)
