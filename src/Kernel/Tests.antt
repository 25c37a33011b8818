-- ===== src/Kernel/Tests.antt =====
-- A small kernel (src/kernel.rs).
use arma.Base.{ℕ, ◌+◌, ◌≡◌, refl, arith, map, true, none, some, List, [], ◌∷◌, ◌++◌, replicate, ok}
use arma.Base.Slice.{le}
use arma.Base.Text.{Bytes, codes}
use arma.Kernel.{ProgramHeader, SectionHeader, Sym, Reloc, Elf, Reader, elf_magic}
use arma.Kernel.Span.{elf_span, ElfSpan}
use arma.Kernel.Image.{elf_load_image}
use arma.Kernel.Image.Trimmed.{IsBacked, Loaded, elf_load_image-Loaded}
use arma.Kernel.Relocs.{Relocs}
use arma.Kernel.Extract.{PerCpu, no_percpu, find_percpu, is_percpu_sym, is_s_rel, extract_relocs}
use arma.Kernel.Extract.Tables.{RelocTable, wide, offsets}
use arma.Kernel.Extract.Exact.{section_sites, chosen_for, all_sites, extract_relocs_exact}
use arma.Kernel.Appended.{extract_appended_relocs, table_start, text_base, site_of}
use arma.Kernel.Appended.Decoded.{
  table_bytes, Table, two, none_left, word, extract_appended_relocs-Table,
}
use arma.Kernel.Unwrap.{extract_vmlinux, unwrap_uki, unwrap_zboot, gzip_magic}
use arma.Kernel.Unwrap.Found.{Extracted, extract_vmlinux-Extracted}

abbrev segment : ProgramHeader
segment = record {
  p_type = 1;
  p_offset = 0;
  p_vaddr = 0xffffffff81000000;
  p_paddr = 0x1000000;
  p_filesz = 4;
  p_memsz = 8;
}

abbrev kernel_with : List SectionHeader → List Sym → List (ℕ × List Reloc) → Elf
kernel_with sections syms relocs = record {
  is_64 = true;
  e_machine = 62;
  entry = 0x1000002;
  e_shoff = 0;
  e_shnum = 0;
  e_shentsize = 0;
  program_headers = segment ∷ [];
  section_headers = sections;
  shdr_relocs = relocs;
  syms = syms;
  strtab = λ _. some (codes "text");
  shdr_strtab = λ _. none;
}

abbrev stock : Elf
stock = kernel_with [] [] []

abbrev reader_of : Elf → Reader
reader_of elf = record {
  elf_parse = λ _. some elf;
  pe_parse = λ _. none;
  gzip = λ _. some elf_magic;
  zstd = λ _. none;
}

abbrev image : Bytes
image = 7 ∷ 8 ∷ 0 ∷ 0 ∷ []

abbrev words : List ℕ
words = 0x81000003 ∷ 0 ∷ 0x81000001 ∷ 0 ∷ []

abbrev tables : Relocs
tables = record { relocs32 = 3 ∷ []; relocs32neg = []; relocs64 = 1 ∷ [] }

abbrev span : ElfSpan
span = record { min_paddr = 0x1000000; max_file_end = 0x1000004; max_mem_end = 0x1000008 }

words-Table : Table 0xffffffff81000000 8 words tables
unfolding site_of
words-Table =
    two (0x81000003 ∷ []) (3 ∷ []) (0x81000001 ∷ []) (1 ∷ [])
      (word 0x81000002 3 (omega arith) refl none_left)
      (word 0x81000000 1 (omega arith) refl none_left)

loads_image : elf_load_image (reader_of stock) image ≡ ok image
unfolding elf_load_image
loads_image = refl

stock-IsBacked : IsBacked stock
unfolding IsBacked
stock-IsBacked = (λ _. refl, tt)

-- One section, and a relocation of each width.
abbrev text_section : SectionHeader
text_section = record {
  sh_name = 0;
  sh_type = 1;
  sh_flags = 2;
  sh_addr = 0;
  sh_offset = 0;
  sh_size = 4;
  sh_info = 0;
}

abbrev emitted : Elf
emitted =
    kernel_with (text_section ∷ []) (record { st_name = 0; st_shndx = 1; st_value = 0 } ∷ []) (
      (
        0,
        record { r_offset = 0xffffffff81000001; r_type = 1; r_sym = 0 }
            ∷ record { r_offset = 0xffffffff81000002; r_type = 2; r_sym = 0 }
            ∷ record { r_offset = 0xffffffff81000003; r_type = 11; r_sym = 0 }
            ∷ [],
      )
      ∷ [])

emitted_relocs : extract_relocs (reader_of emitted) image ≡ ok tables
unfolding extract_relocs
emitted_relocs = refl

abbrev bzimage : Bytes
bzimage = replicate 0x202 0 ++ (le 4 0x53726448 ++ gzip_magic)

bzimage_unwraps : extract_vmlinux (reader_of stock) bzimage ≡ ok elf_magic
unfolding extract_vmlinux
bzimage_unwraps = refl

image_stays : unwrap_zboot (reader_of stock) image ≡ ok image
unfolding unwrap_zboot
image_stays = refl

raw_stays : unwrap_uki (reader_of stock) image ≡ ok image
unfolding unwrap_uki
raw_stays = refl

elf_load_image-Loaded_example : Loaded stock image (elf_load_image (reader_of stock) image)
elf_load_image-Loaded_example =
    elf_load_image-Loaded (reader_of stock) image stock refl stock-IsBacked

stock_span : elf_span stock ≡ ok span
unfolding elf_span
stock_span = refl

stock_base : text_base stock span ≡ ok 0xffffffff81000000
unfolding text_base
stock_base = refl

stock_start : table_start stock ≡ 4
unfolding table_start
stock_start = refl

extract_appended_relocs-Table_example :
    extract_appended_relocs stock (image ++ table_bytes words) ≡ ok tables
extract_appended_relocs-Table_example =
    extract_appended_relocs-Table stock span 0xffffffff81000000 image words tables stock_span
      stock_base stock_start words-Table

emitted_wide : all_sites emitted no_percpu wide emitted.shdr_relocs ≡ 0xffffffff81000001 ∷ []
unfolding all_sites section_sites chosen_for is_percpu_sym is_s_rel
emitted_wide = refl

extract_relocs_exact_example :
    (s : ElfSpan) × (percpu : PerCpu) × (base : ℕ) × (elf_span emitted ≡ ok s)
    × (find_percpu emitted 0 emitted.section_headers ≡ ok percpu)
    × (text_base emitted s ≡ ok base)
    × ((k : RelocTable)
        → map (λ o. base + o) (offsets k tables) ≡ all_sites emitted percpu k emitted.shdr_relocs)
extract_relocs_exact_example =
    extract_relocs_exact (reader_of emitted) image emitted tables refl (omega arith) emitted_relocs

extract_vmlinux-Extracted_example :
    Extracted (reader_of stock) bzimage (extract_vmlinux (reader_of stock) bzimage)
extract_vmlinux-Extracted_example = extract_vmlinux-Extracted (reader_of stock) bzimage
