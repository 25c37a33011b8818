-- ===== src/Kernel/Appended.antt =====
-- The relocations behind the image of a stock kernel (src/kernel.rs: extract_appended_relocs).
pub mod Decoded
use arma.Base.{
  ℕ, zero, suc, ◌+◌, ◌-◌, ◌*◌, ◌^◌, ◌<◌, min, max, Bool, true, false, not, ◌&&◌, ◌||◌, Option, none,
  some, List, [], ◌∷◌, ◌++◌, ltb, leb, ◌==◌, if◌then◌else◌, take, drop, find, length, Result, ok,
  err, ok_or, refuse_if, ◌>>=◌, ◌>>◌,
}
use arma.Base.Bits.{u64_max}
use arma.Base.Slice.{from_le}
use arma.Base.Text.{Bytes}
use arma.Kernel.{
  KernelError, elf_malformed, no_load_at_min, appended_outside, appended_lists, exhausted,
  ProgramHeader, SectionHeader, Elf, pt_load,
}
use arma.Kernel.Span.{ElfSpan, elf_span}
use arma.Kernel.Relocs.{Relocs, no_relocs}

-- The first load segment at the base of the image.
abbrev pub base_segment : Elf → ElfSpan → Option ProgramHeader
base_segment elf span =
    find (λ p. p.p_type == pt_load && not (p.p_memsz == 0) && p.p_paddr == span.min_paddr)
      elf.program_headers

unfoldable pub text_base : Elf → ElfSpan → Result KernelError ℕ
text_base elf span = do
  p ← ok_or (elf_malformed no_load_at_min) (base_segment elf span)
  ok p.p_vaddr

-- `saturating_add`, `saturating_mul`
abbrev pub saturating : ℕ → ℕ
saturating n = min n u64_max

abbrev pub past_segments : List ProgramHeader → ℕ → ℕ
past_segments [] start = start
past_segments (p ∷ headers) start =
    past_segments headers (max start (saturating (p.p_offset + p.p_filesz)))

abbrev pub past_sections : List SectionHeader → ℕ → ℕ
past_sections [] start = start
past_sections (s ∷ headers) start =
    past_sections headers
      (if not (s.sh_type == 8) then max start (saturating (s.sh_offset + s.sh_size)) else start)

-- The end of the last structure of the file.
unfoldable pub table_start : Elf → ℕ
table_start elf = past_sections elf.section_headers (
    past_segments elf.program_headers
      (saturating (elf.e_shoff + saturating (elf.e_shnum * elf.e_shentsize))))

-- `i64::from(v) as u64`, of the bits of an i32.
abbrev pub sign_extend : ℕ → ℕ
sign_extend v = if ltb v (2 ^ 31) then v else v + (2 ^ 64 - 2 ^ 32)

-- `checked_sub`, `filter` and `u32::try_from`
unfoldable pub site_of : ℕ → ℕ → ℕ → Result KernelError ℕ
site_of text_vaddr image_size v =
    if leb text_vaddr (sign_extend v)
      && ltb (sign_extend v - text_vaddr) image_size
      && ltb (sign_extend v - text_vaddr) (2 ^ 32)
    then ok (sign_extend v - text_vaddr)
    else err (elf_malformed appended_outside)

-- The words before `pos`, from the back: the lists so far, and the current one.
unfoldable pub read_back :
    ℕ → Bytes → ℕ → ℕ → ℕ → ℕ → List (List ℕ) → List ℕ → Result KernelError (List (List ℕ))
unfolding site_of
read_back zero bytes text_vaddr image_size start pos lists cur = err exhausted
read_back (suc fuel) bytes text_vaddr image_size start pos lists cur =
    if ltb pos (start + 4) then ok lists else elim (from_le (take 4 (drop (pos - 4) bytes))) [
      | zero ↦ read_back fuel bytes text_vaddr image_size start (pos - 4) (lists ++ (cur ∷ [])) []
      | suc v ↦ do
        off ← site_of text_vaddr image_size (suc v)
        read_back fuel bytes text_vaddr image_size start (pos - 4) lists (cur ++ (off ∷ []))
    ]

-- Two lists, or three.
abbrev pub of_lists : List (List ℕ) → Result KernelError Relocs
of_lists [] = err (elf_malformed appended_lists)
of_lists (a ∷ []) = err (elf_malformed appended_lists)
of_lists (a ∷ b ∷ []) = ok (record { relocs32 = a; relocs32neg = []; relocs64 = b })
of_lists (a ∷ b ∷ c ∷ []) = ok (record { relocs32 = a; relocs32neg = b; relocs64 = c })
of_lists (a ∷ b ∷ c ∷ d ∷ lists) = err (elf_malformed appended_lists)

-- The table behind `start`.
unfoldable pub read_table : Bytes → ℕ → ℕ → ℕ → Result KernelError Relocs
unfolding read_back
read_table bytes text_vaddr image_size start =
    if leb (length bytes) start then ok no_relocs else (do
      lists ← read_back (suc (length bytes)) bytes text_vaddr image_size start (length bytes) [] []
      of_lists lists)

unfoldable pub extract_appended_relocs : Elf → Bytes → Result KernelError Relocs
unfolding elf_span text_base table_start read_table
extract_appended_relocs elf bytes = do
  span ← elf_span elf
  text_vaddr ← text_base elf span
  read_table bytes text_vaddr (span.max_mem_end - span.min_paddr) (table_start elf)
