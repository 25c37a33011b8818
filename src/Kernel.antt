-- ===== src/Kernel.antt =====
-- The reader of kernel files (src/kernel.rs). What the code reads with the goblin crate and the
-- decompressors are parameters.
pub mod Span
pub mod Image
pub mod Relocs
pub mod Extract
pub mod Appended
pub mod Unwrap
mod Tests
use arma.Base.{
  ℕ, zero, suc, ◌+◌, ◌-◌, Bool, true, false, ◌&&◌, Option, none, some, List, [], ◌∷◌, leb,
  if◌then◌else◌, take, drop, length,
}
use arma.Base.Text.{Bytes}

pub data Arch : Type 0 where
  x86_64 : Arch
  aarch64 : Arch

unfoldable pub pe_machine : Arch → ℕ
pe_machine x86_64 = 0x8664
pe_machine aarch64 = 0xAA64

-- The causes of `ElfMalformed` and `UkiMalformed`.
pub data Malformed : Type 0 where
  parse_failed : Malformed
  not_x86_64 : Malformed
  file_end_overflows : Malformed
  mem_end_overflows : Malformed
  no_load_segments : Malformed
  segment_bounds : Malformed
  no_percpu_load : Malformed
  no_load_at_min : Malformed
  reloc_outside : Malformed
  reloc_section : Malformed
  reloc_symbol : Malformed
  symbol_xindex : Malformed
  pc64_percpu : Malformed
  reloc_type : Malformed
  appended_outside : Malformed
  appended_lists : Malformed
  duplicate_linux : Malformed
  linux_not_backed : Malformed
  linux_bounds : Malformed

-- The last two are the model's own: a subtraction below zero or a slice out of bounds, and no round
-- left.
pub data KernelError : Type 0 where
  too_small : ℕ → KernelError
  unrecognized : KernelError
  uki_malformed : Malformed → KernelError
  zboot_malformed : ℕ → ℕ → ℕ → KernelError
  zboot_compression : Bytes → KernelError
  zboot_decompress : KernelError
  elf_malformed : Malformed → KernelError
  entry_out_of_range : ℕ → ℕ → KernelError
  no_vmlinux : KernelError
  panics : KernelError
  exhausted : KernelError

-- What the code reads of an ELF file, and of a PE file.
pub record ProgramHeader : Type 0 where
  pub p_type : ℕ
  pub p_offset : ℕ
  pub p_vaddr : ℕ
  pub p_paddr : ℕ
  pub p_filesz : ℕ
  pub p_memsz : ℕ

pub record SectionHeader : Type 0 where
  pub sh_name : ℕ
  pub sh_type : ℕ
  pub sh_flags : ℕ
  pub sh_addr : ℕ
  pub sh_offset : ℕ
  pub sh_size : ℕ
  pub sh_info : ℕ

pub record Sym : Type 0 where
  pub st_name : ℕ
  pub st_shndx : ℕ
  pub st_value : ℕ

pub record Reloc : Type 0 where
  pub r_offset : ℕ
  pub r_type : ℕ
  pub r_sym : ℕ

pub record Elf : Type 0 where
  pub is_64 : Bool
  pub e_machine : ℕ
  pub entry : ℕ
  pub e_shoff : ℕ
  pub e_shnum : ℕ
  pub e_shentsize : ℕ
  pub program_headers : List ProgramHeader
  pub section_headers : List SectionHeader
  pub shdr_relocs : List (ℕ × List Reloc)
  pub syms : List Sym
  pub strtab : ℕ → Option Bytes
  pub shdr_strtab : ℕ → Option Bytes

pub record PeSection : Type 0 where
  pub name : Bytes
  pub pointer_to_raw_data : ℕ
  pub virtual_size : ℕ
  pub size_of_raw_data : ℕ

pub record Reader : Type 0 where
  pub elf_parse : Bytes → Option Elf
  pub pe_parse : Bytes → Option (List PeSection)
  pub gzip : Bytes → Option Bytes
  pub zstd : Bytes → Option Bytes

-- `get(start..end)`
abbrev pub get_range : Bytes → ℕ → ℕ → Option Bytes
get_range bytes start end =
    if leb start end && leb end (length bytes)
    then some (take (end - start) (drop start bytes))
    else none

abbrev pub pt_load : ℕ
pt_load = 1

abbrev pub elf_magic : Bytes
elf_magic = 0x7f ∷ b'E' ∷ b'L' ∷ b'F' ∷ []
