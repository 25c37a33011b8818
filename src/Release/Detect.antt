-- ===== src/Release/Detect.antt =====
-- The search for the release (src/kernel_release.rs: detect): the symbols of an ELF file, then
-- every banner behind a NUL.
use arma.Base.{
  ℕ, ◌/◌, ◌%◌, Bool, true, false, not, ◌&&◌, ◌||◌, Option, none, some, List, [], ◌∷◌, ◌==◌,
  if◌then◌else◌, Result, ok, err, ok_or, refuse_if, ◌>>=◌, ◌>>◌,
}
use arma.Base.Text.{Bytes, codes, bytes_eq, strip_prefix}
use arma.Release.{
  ReleaseError, missing, malformed, prefix, merge, parse_banner, Section, Symbol, Goblin, nth,
  or_bad, is_none, symbol_bytes,
}

module _ (g : Goblin) where
  open g use {
    Elf, Strtab, is_64, section_headers, program_headers, symbol_tables, parse_symtab, parse_strtab,
    get_at, is_utf8,
  }

  abbrev pub is_banner_name : Option Bytes → Bool
  is_banner_name none = false
  is_banner_name (some name) = bytes_eq name (codes "linux_banner")

  -- One symbol table against its names.
  unfoldable pub merge_symbols :
      Bytes → Elf → List Symbol → Strtab → Option Bytes → Result ReleaseError (Option Bytes)
  unfolding symbol_bytes parse_banner merge
  merge_symbols bytes elf [] strings release = ok release
  merge_symbols bytes elf (symbol ∷ symbols) strings release = do
    release' ←
        (if is_banner_name (get_at strings symbol.st_name)
          then (do
            banner ← symbol_bytes bytes (section_headers elf) (program_headers elf) symbol
            candidate ← parse_banner is_utf8 banner
            merge release candidate)
          else ok release)
    merge_symbols bytes elf symbols strings release'

  abbrev pub entry_size : Elf → ℕ
  entry_size elf = if is_64 elf then 24 else 16

  -- One section of dynamic symbols.
  unfoldable pub merge_dynsym :
      Bytes → Elf → Section → Option Bytes → Result ReleaseError (Option Bytes)
  unfolding merge_symbols
  merge_dynsym bytes elf section release = do
    refuse_if
        (not (section.sh_entsize == entry_size elf) || not (section.sh_size % entry_size elf == 0))
        malformed
    symbols ← or_bad (parse_symtab elf bytes section.sh_offset (section.sh_size / entry_size elf))
    names ← or_bad (nth section.sh_link (section_headers elf))
    refuse_if (not (names.sh_type == 3)) malformed
    strings ← or_bad (parse_strtab bytes names.sh_offset names.sh_size)
    merge_symbols bytes elf symbols strings release

  unfoldable pub merge_sections :
      Bytes → Elf → List Section → Option Bytes → Result ReleaseError (Option Bytes)
  unfolding merge_dynsym
  merge_sections bytes elf [] release = ok release
  merge_sections bytes elf (section ∷ sections) release = do
    release' ←
        (if section.sh_type == 11 then merge_dynsym bytes elf section release else ok release)
    merge_sections bytes elf sections release'

  unfoldable pub merge_tables :
      Bytes → Elf → List (List Symbol × Strtab) → Option Bytes → Result ReleaseError (Option Bytes)
  unfolding merge_symbols
  merge_tables bytes elf [] release = ok release
  merge_tables bytes elf ((symbols, strings) ∷ tables) release = do
    release' ← merge_symbols bytes elf symbols strings release
    merge_tables bytes elf tables release'

  -- What the symbols of an ELF file say.
  unfoldable pub merge_elf : Bytes → Option Elf → Result ReleaseError (Option Bytes)
  unfolding merge_sections merge_tables
  merge_elf bytes none = err malformed
  merge_elf bytes (some elf) = do
    release ← merge_sections bytes elf (section_headers elf) none
    merge_tables bytes elf (symbol_tables elf) release

  -- The byte before a window: none at the start.
  abbrev pub starts_text : Option ℕ → Bool
  starts_text none = true
  starts_text (some b) = b == 0

  abbrev pub is_banner : Option ℕ → Bytes → Bool
  is_banner prev bytes = starts_text prev && not (is_none (strip_prefix prefix bytes))

  unfoldable pub merge_here : Option ℕ → Bytes → Option Bytes → Result ReleaseError (Option Bytes)
  unfolding parse_banner merge
  merge_here prev bytes release =
      if is_banner prev bytes
      then (do candidate ← parse_banner is_utf8 bytes; merge release candidate)
      else ok release

  -- The windows of the prefix's length, from the front.
  unfoldable pub merge_banners :
      Option ℕ → Bytes → Option Bytes → Result ReleaseError (Option Bytes)
  unfolding merge_here
  merge_banners prev [] release = ok release
  merge_banners prev (b ∷ bytes) release = do
    release' ← merge_here prev (b ∷ bytes) release
    merge_banners (some b) bytes release'

  unfoldable pub detect : Bytes → Result ReleaseError Bytes
  unfolding merge_elf merge_banners
  detect bytes = do
    release ←
        (if is_none (strip_prefix (0x7F ∷ codes "ELF") bytes)
          then ok none
          else merge_elf bytes (g.parse bytes))
    found ← merge_banners none bytes release
    ok_or missing found
