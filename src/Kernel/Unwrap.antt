-- ===== src/Kernel/Unwrap.antt =====
-- The wrappers of a kernel (src/kernel.rs: unwrap_uki, unwrap_zboot, extract_vmlinux,
-- scan_decompress).
pub mod Found
pub mod Scan
use arma.Base.{
  ℕ, zero, suc, ◌+◌, ◌-◌, ◌<◌, min, Bool, true, false, not, ◌&&◌, ◌||◌, Option, none, some, List,
  [], ◌∷◌, ◌++◌, ltb, leb, ◌==◌, if◌then◌else◌, take, drop, keep, length, Result, ok, err, ok_or,
  refuse_if, ◌>>=◌, ◌>>◌,
}
use arma.Base.Slice.{le}
use arma.Base.Text.{Bytes, codes, bytes_eq, before, strip_prefix}
use arma.Kernel.{
  KernelError, uki_malformed, zboot_malformed, zboot_compression, zboot_decompress, no_vmlinux,
  exhausted, parse_failed, duplicate_linux, linux_not_backed, linux_bounds, PeSection, Reader,
  get_range, elf_magic,
}
use arma.Kernel.Span.{word}

unfoldable pub has_magic : Bytes → Bytes → Bool
has_magic magic input = elim (strip_prefix magic input) [ none ↦ false | some rest ↦ true ]

-- `get(at..at + 4) == Some(..)`
abbrev pub has_at : Bytes → ℕ → Bytes → Bool
has_at input at value = elim (get_range input at (at + 4)) [
  | none ↦ false
  | some found ↦ bytes_eq found value
]

abbrev pub is_linux : PeSection → Bool
is_linux s = bytes_eq s.name (codes ".linux" ++ (0 ∷ 0 ∷ []))

-- The payload of a section.
unfoldable pub section_payload : Bytes → PeSection → Result KernelError Bytes
section_payload input section = do
  refuse_if (section.virtual_size == 0 || ltb section.size_of_raw_data section.virtual_size)
      (uki_malformed linux_not_backed)
  ok_or (uki_malformed linux_bounds) (
      get_range input section.pointer_to_raw_data
        (section.pointer_to_raw_data + section.virtual_size))

unfoldable pub linux_payload : Bytes → List PeSection → Result KernelError Bytes
unfolding section_payload
linux_payload input [] = ok input
linux_payload input (section ∷ []) = section_payload input section
linux_payload input (section ∷ next ∷ sections) = err (uki_malformed duplicate_linux)

unfoldable pub unwrap_uki : Reader → Bytes → Result KernelError Bytes
unfolding linux_payload has_magic
unwrap_uki r input =
    if not (has_magic (codes "MZ") input)
      || has_at input 4 (codes "zimg")
      || has_at input 56 (le 4 0x644D5241)
    then ok input
    else (do
      sections ← ok_or (uki_malformed parse_failed) (r.pe_parse input)
      linux_payload input (keep is_linux sections))

unfoldable pub is_zboot : Bytes → Bool
unfolding has_magic
is_zboot input =
    leb 56 (length input)
    && has_magic (codes "MZ") input
    && bytes_eq (take 4 (drop 4 input)) (codes "zimg")

-- The name of the compression, up to a NUL.
abbrev pub compression : Bytes → Bytes
compression input = before 0 (take 32 (drop 24 input))

abbrev pub decompress_as : Reader → Bytes → Bytes → Result KernelError Bytes
decompress_as r comp payload =
    if bytes_eq comp (codes "gzip")
    then ok_or zboot_decompress (r.gzip payload)
    else if bytes_eq comp (codes "zstd")
    then ok_or zboot_decompress (r.zstd payload)
    else err (zboot_compression comp)

unfoldable pub unwrap_zboot : Reader → Bytes → Result KernelError Bytes
unfolding is_zboot
unwrap_zboot r input = if not (is_zboot input) then ok input else (do
  let offset = word input 8 4
  let size = word input 12 4
  payload ←
      ok_or (zboot_malformed offset size (length input)) (get_range input offset (offset + size))
  decompress_as r (compression input) payload)

-- The bytes from the first place that starts with the magic.
unfoldable pub find_magic : Bytes → Bytes → Option Bytes
unfolding has_magic
find_magic magic [] = none
find_magic magic (b ∷ bs) =
    let rest = find_magic magic bs in if has_magic magic (b ∷ bs) then some (b ∷ bs) else rest

unfoldable pub accepted : Option Bytes → Option Bytes
accepted none = none
accepted (some out) =
    if leb 4 (length out) && bytes_eq (take 4 out) elf_magic then some out else none

-- The scan from a place of the input, for at most `fuel` rounds.
unfoldable pub scan_from :
    ℕ → Bytes → (Bytes → Option Bytes) → Bytes → Result KernelError (Option Bytes)
unfolding find_magic accepted
scan_from zero magic decompress input = err exhausted
scan_from (suc fuel) magic decompress input = elim (find_magic magic input) [
  | none ↦ ok none
  | some at ↦ elim (accepted (decompress at)) [
    | some out ↦ ok (some out)
    | none ↦ scan_from fuel magic decompress (drop 1 at)
  ]
]

unfoldable pub scan_decompress :
    Bytes → Bytes → (Bytes → Option Bytes) → Result KernelError (Option Bytes)
unfolding scan_from
scan_decompress input magic decompress = scan_from (suc (length input)) magic decompress input

abbrev pub is_bzimage : Bytes → Bool
is_bzimage input = leb (0x202 + 4) (length input) && word input 0x202 4 == 0x53726448

abbrev pub gzip_magic : Bytes
gzip_magic = 0x1f ∷ 0x8b ∷ 0x08 ∷ []

abbrev pub zstd_magic : Bytes
zstd_magic = 0x28 ∷ 0xb5 ∷ 0x2f ∷ 0xfd ∷ []

unfoldable pub or_zstd : Reader → Bytes → Option Bytes → Result KernelError Bytes
unfolding scan_decompress
or_zstd r input (some elf) = ok elf
or_zstd r input none = do found ← scan_decompress input zstd_magic r.zstd; ok_or no_vmlinux found

unfoldable pub extract_vmlinux : Reader → Bytes → Result KernelError Bytes
unfolding scan_decompress or_zstd
extract_vmlinux r input =
    if not (is_bzimage input)
    then ok input
    else (do found ← scan_decompress input gzip_magic r.gzip; or_zstd r input found)
