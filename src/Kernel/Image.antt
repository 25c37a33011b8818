-- ===== src/Kernel/Image.antt =====
-- The flat image of an ELF kernel (src/kernel.rs: elf_load_image).
pub mod Trimmed
use arma.Base.{
  ℕ, zero, suc, ◌+◌, ◌-◌, ◌<◌, min, Bool, true, false, not, ◌&&◌, ◌||◌, Option, none, some, List,
  [], ◌∷◌, ltb, leb, ◌==◌, if◌then◌else◌, take, drop, replicate, length, Result, ok, err, ok_or,
  refuse_if, ◌>>=◌, ◌>>◌,
}
use arma.Base.Align.{up}
use arma.Base.Bits.{checked_add}
use arma.Base.Slice.{splice}
use arma.Base.Text.{Bytes}
use arma.Kernel.{
  KernelError, elf_malformed, parse_failed, segment_bounds, panics, ProgramHeader, Elf, Reader,
  pt_load, get_range,
}
use arma.Kernel.Span.{ElfSpan, elf_span}

abbrev pub is_copied : ProgramHeader → Bool
is_copied p = not (not (p.p_type == pt_load) || p.p_filesz == 0)

-- `src_end <= bytes.len()`, and the bytes.
abbrev pub segment_bytes : Bytes → ProgramHeader → Option Bytes
segment_bytes bytes p = elim (checked_add p.p_offset p.p_filesz) [
  | none ↦ none
  | some end ↦ get_range bytes p.p_offset end
]

-- One segment: a place below the span, or past the image, panics.
unfoldable pub copy_segment : Bytes → ElfSpan → ProgramHeader → Bytes → Result KernelError Bytes
unfolding splice
copy_segment bytes span p image = do
  refuse_if (ltb p.p_paddr span.min_paddr) panics
  contents ← ok_or (elf_malformed segment_bounds) (segment_bytes bytes p)
  ok_or panics (splice (p.p_paddr - span.min_paddr) contents image)

unfoldable pub copy_segments :
    Bytes → ElfSpan → List ProgramHeader → Bytes → Result KernelError Bytes
unfolding copy_segment
copy_segments bytes span [] image = ok image
copy_segments bytes span (p ∷ headers) image = do
  image' ← (if is_copied p then copy_segment bytes span p image else ok image)
  copy_segments bytes span headers image'

-- `rposition(|&b| b != 0).map_or(0, |i| i + 1)`
abbrev pub content_end : Bytes → ℕ
content_end [] = 0
content_end (b ∷ bs) =
    let rest = content_end bs in if rest == 0 then (if b == 0 then 0 else 1) else suc rest

abbrev pub kept : Bytes → ℕ
kept image = min (up (content_end image) 0x1000) (length image)

-- `truncate(keep)`
unfoldable pub trim : Bytes → Bytes
trim image = take (kept image) image

-- The image before it is trimmed.
unfoldable pub flat_image : Elf → Bytes → Result KernelError Bytes
unfolding elf_span copy_segments
flat_image elf bytes = do
  span ← elf_span elf
  copy_segments bytes span elf.program_headers (replicate (span.max_file_end - span.min_paddr) 0)

unfoldable pub elf_load_image : Reader → Bytes → Result KernelError Bytes
unfolding flat_image trim
elf_load_image r bytes = do
  elf ← ok_or (elf_malformed parse_failed) (r.elf_parse bytes)
  image ← flat_image elf bytes
  ok (trim image)
