-- ===== src/Relocate/Tests.antt =====
-- A small kernel that is moved (deps/tatu/src/arch_x86_64.rs: apply_kaslr).
use arma.Base.{
  ℕ, ◌+◌, ◌-◌, ◌%◌, ◌^◌, ◌≤◌, ◌<◌, ◌≡◌, refl, inr, arith, true, none, some, [], ◌∷◌, ◌==◌,
  if◌then◌else◌, All, length, ok,
}
use native.Mathlib.Nat.{mod-lt}
use arma.Base.Text.{Bytes}
use arma.Bootinfo.{TatuBootInfo}
use arma.Kernel.{Elf, Reader, ProgramHeader}
use arma.Kernel.Extract.{extract_relocs}
use arma.Kernel.Relocs.{Relocs, to_section_bytes}
use arma.Relocate.{
  load_physical_addr, kernel_image_size, kaslr_align, choose_delta, patch_all, patch_tables,
  apply_kaslr, add32,
}
use arma.Relocate.Window.{choose_delta-window}
use arma.Relocate.Sites.{word_of, Apart, none_left, site, patch_all-words}
use arma.Relocate.Handoff.{IsPlaced, Counted, extract_relocs-apply_kaslr}

abbrev code : Bytes
code = 1 ∷ 0 ∷ 0 ∷ 0 ∷ 2 ∷ 0 ∷ 0 ∷ 0 ∷ []

abbrev segment : ProgramHeader
segment = record {
  p_type = 1;
  p_offset = 0;
  p_vaddr = 0x81000000;
  p_paddr = 0x1000000;
  p_filesz = 8;
  p_memsz = 8;
}

-- An ELF file with one 32-bit relocation.
abbrev kernel : Elf
kernel = record {
  is_64 = true;
  e_machine = 62;
  entry = 0x1000000;
  e_shoff = 0;
  e_shnum = 0;
  e_shentsize = 0;
  program_headers = segment ∷ [];
  section_headers =
      record {
        sh_name = 0;
        sh_type = 1;
        sh_flags = 2;
        sh_addr = 0;
        sh_offset = 0;
        sh_size = 8;
        sh_info = 0;
      }
      ∷ [];
  shdr_relocs = (0, record { r_offset = 0x81000004; r_type = 11; r_sym = 0 } ∷ []) ∷ [];
  syms = record { st_name = 0; st_shndx = 1; st_value = 0 } ∷ [];
  strtab = λ _. none;
  shdr_strtab = λ _. none;
}

abbrev reader : Reader
reader = record {
  elf_parse = λ _. some kernel;
  pe_parse = λ _. none;
  gzip = λ _. none;
  zstd = λ _. none;
}

abbrev tables : Relocs
tables = record { relocs32 = 4 ∷ []; relocs32neg = []; relocs64 = [] }

kernel_relocs : extract_relocs reader code ≡ ok tables
unfolding extract_relocs
kernel_relocs = refl

abbrev cell_at : Bytes → ℕ → ℕ
cell_at [] n = 0
cell_at (b ∷ bs) n = if n == 0 then b else cell_at bs (n - 1)

abbrev memory : ℕ → ℕ
memory = cell_at (4 ∷ 0 ∷ 0 ∷ 0 ∷ [])

abbrev info : TatuBootInfo
info = record {
  magic = [];
  base_dtb_gpa = 0;
  host_dtbo_gpa = 0;
  kernel_gpa = 0x1000000;
  kernel_entry_gpa = 0x1000000;
  relocs_gpa = 0;
  base_dtb_size = 0;
  host_dtbo_size = 0;
  kernel_size = 8;
  kernel_alloc_size = 8;
  relocs64_count = 0;
  relocs32neg_count = 0;
  relocs32_count = 1;
}

tables-IsPlaced : IsPlaced memory 0 (to_section_bytes tables)
unfolding IsPlaced to_section_bytes
tables-IsPlaced = (refl, (refl, (refl, (refl, tt))))

tables-Counted : Counted info tables
tables-Counted = record { count64 = refl; count32neg = refl; count32 = refl }

moved : apply_kaslr memory info 3 code ≡ 1 ∷ 0 ∷ 0 ∷ 0 ∷ 2 ∷ 0 ∷ 0x60 ∷ 0 ∷ []
unfolding apply_kaslr
moved = refl

extract_relocs-apply_kaslr_example :
    apply_kaslr memory info 3 code
    ≡ (if choose_delta 8 3 == 0 then code else patch_tables (choose_delta 8 3) [] [] (4 ∷ []) code)
extract_relocs-apply_kaslr_example =
    extract_relocs-apply_kaslr reader code tables memory info 3 code kernel_relocs tables-IsPlaced
      tables-Counted

choose_delta-window_example :
    (choose_delta 0x2000000 7 % kaslr_align ≡ 0)
    × (load_physical_addr + choose_delta 0x2000000 7 + 0x2000000 ≤ kernel_image_size)
choose_delta-window_example = choose_delta-window 0x2000000 7 (omega arith)

code-Apart : Apart 4 (add32 5) 8 (0 ∷ 4 ∷ [])
code-Apart = site 0 (omega arith) (inr (omega arith), tt) (site 4 (omega arith) tt none_left)

add32-lt : (v : ℕ) → add32 5 v < 256 ^ 4
add32-lt v = mod-lt (v + 5) (omega arith)

patch_all-words_example :
    All
      (λ o. word_of 4 o (patch_all 4 (add32 5) (0 ∷ 4 ∷ []) code) ≡ add32 5 (word_of 4 o code))
      (0 ∷ 4 ∷ [])
    × (length (patch_all 4 (add32 5) (0 ∷ 4 ∷ []) code) ≡ 8)
patch_all-words_example = patch_all-words 4 (add32 5) (0 ∷ 4 ∷ []) code code-Apart add32-lt
