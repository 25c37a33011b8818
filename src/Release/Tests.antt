-- ===== src/Release/Tests.antt =====
-- A kernel that is no ELF file, with one banner (src/kernel_release.rs).
use arma.Base.{ℕ, ◌≡◌, refl, true, none, [], ◌∷◌, ◌++◌, ok, err}
use arma.Base.Text.{Bytes, codes}
use arma.Release.{
  missing, malformed, conflicting, validate_component, merge, parse_banner, Section, Segment,
  Goblin, bound_in, bound_by, symbol_bytes,
}
use arma.Release.Detect.{merge_elf, merge_here, merge_banners, detect, is_banner}
use arma.Release.Agreed.{IsComponent, last_of, detect_agrees}

-- A reader that knows no ELF file.
abbrev no_elf : Goblin
no_elf = record {
  Elf = ℕ;
  Strtab = ℕ;
  parse = λ _. none;
  is_64 = λ _. true;
  section_headers = λ _. [];
  program_headers = λ _. [];
  symbol_tables = λ _. [];
  parse_symtab = λ _ _ _ _. none;
  parse_strtab = λ _ _ _. none;
  get_at = λ _ _. none;
  is_utf8 = λ _. true;
}

abbrev banner : Bytes
banner = codes "Linux version 6.1 (x) y" ++ (10 ∷ 0 ∷ [])

abbrev image : Bytes
image = 7 ∷ 0 ∷ banner

image_release : detect no_elf image ≡ ok (codes "6.1")
unfolding detect merge_banners merge_here merge parse_banner validate_component
image_release = refl

two_releases :
    detect no_elf (image ++ (codes "" ++ (codes "Linux version 6.2 (x) y" ++ (0 ∷ []))))
    ≡ err (conflicting (codes "6.1") (codes "6.2"))
unfolding detect merge_banners merge_here merge parse_banner validate_component
two_releases = refl

no_banner : detect no_elf (7 ∷ 0 ∷ []) ≡ err missing
unfolding detect merge_banners merge_here
no_banner = refl

not_elf : detect no_elf (0x7F ∷ codes "ELF") ≡ err malformed
unfolding detect merge_elf
not_elf = refl

abbrev header : Section
header = record {
  sh_type = 1;
  sh_flags = 2;
  sh_addr = 0x100;
  sh_offset = 2;
  sh_size = 4;
  sh_entsize = 0;
  sh_link = 0;
}

abbrev load : Segment
load = record { p_type = 1; p_vaddr = 0x100; p_memsz = 4; p_offset = 2; p_filesz = 3 }

-- The segment shortens a symbol without a size.
segment_bounds :
    symbol_bytes
      (0 ∷ 0 ∷ 1 ∷ 2 ∷ 3 ∷ 4 ∷ [])
      (header ∷ header ∷ [])
      (load ∷ [])
      (record { st_name = 0; st_shndx = 1; st_value = 0x101; st_size = 0 })
    ≡ ok (2 ∷ 3 ∷ [])
unfolding symbol_bytes bound_by bound_in
segment_bounds = refl

detect_agrees_example :
    IsComponent (codes "6.1")
    × ((pre post : Bytes)
        → image ≡ pre ++ post
        → is_banner no_elf (last_of none pre) post ≡ true
        → parse_banner (λ _. true) post ≡ ok (codes "6.1"))
detect_agrees_example = detect_agrees no_elf image (codes "6.1") image_release
