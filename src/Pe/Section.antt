-- ===== src/Pe/Section.antt =====
-- Sections, alignments and sizes of the PE writer (src/pe.rs).
use arma.Base.{
  ℕ, zero, suc, ◌+◌, ◌-◌, ◌*◌, ◌/◌, ◌%◌, ◌^◌, min, max, bit_and, Bool, true, false, not, ◌&&◌,
  Option, none, some, List, [], ◌∷◌, ◌++◌, ltb, leb, ◌==◌, if◌then◌else◌, length, replicate, Result,
  ok, err, ok_or, refuse_if, ◌>>=◌, ◌>>◌,
}
use arma.Base.Bits.{u64_max, and_not}
use arma.Base.Text.{Bytes, contains}
use mathlib.Core.Option

pub record Section : Type 0 where
  pub name : Bytes
  pub vaddr : ℕ
  pub virtual_size : ℕ
  pub contents : Bytes
  pub characteristics : ℕ
  pub non_loaded : Bool

pub data PeError : Type 0 where
  too_many_sections : ℕ → PeError
  overflow : PeError
  nul_in_name : Bytes → PeError
  string_table_offset_too_large : ℕ → PeError

-- An error that the writer returns, or a slice out of bounds.
pub data Fault : Type 0 where
  pe_error : PeError → Fault
  panic : Fault

abbrev pub file_alignment : ℕ
file_alignment = 0x1000

abbrev pub section_alignment : ℕ
section_alignment = 0x1000

abbrev pub large_threshold : ℕ
large_threshold = 2 * 1024 * 1024

abbrev pub large_alignment : ℕ
large_alignment = 2 * 1024 * 1024

abbrev pub is_zero_shape : Section → Bool
is_zero_shape s = length s.contents == 0

unfoldable pub is_large_payload : Section → Bool
is_large_payload s =
    not s.non_loaded
    && not (is_zero_shape s)
    && leb large_threshold (max s.virtual_size (length s.contents))

unfoldable pub alignment_for : Section → ℕ
unfolding is_large_payload
alignment_for s = if is_large_payload s then large_alignment else file_alignment

-- `u32::checked_add`
abbrev pub checked_add_u32 : ℕ → ℕ → Option ℕ
checked_add_u32 a b = if ltb (a + b) (2 ^ 32) then some (a + b) else none

-- `u32::try_from(..)` on a u64 or usize
abbrev pub to_u32 : ℕ → Result Fault ℕ
to_u32 n = if ltb n (2 ^ 32) then ok n else err (pe_error overflow)

unfoldable pub align_up_u32 : ℕ → ℕ → Option ℕ
align_up_u32 v a = Option.map (λ x. and_not 32 x (a - 1)) (checked_add_u32 v (a - 1))

-- `u64::saturating_add`
abbrev pub saturating_add : ℕ → ℕ → ℕ
saturating_add a b = min (a + b) u64_max

unfoldable pub align_up_u64 : ℕ → ℕ → ℕ
align_up_u64 v a = and_not 64 (saturating_add v (a - 1)) (a - 1)

abbrev pub or_overflow : Option ℕ → Result Fault ℕ
or_overflow o = ok_or (pe_error overflow) o

-- `SizeOfImage`: the highest loaded end, capped to a u32.
unfoldable pub image_end : List Section → ℕ → ℕ
unfolding align_up_u64
image_end [] acc = acc
image_end (s ∷ ss) acc =
    let end = saturating_add s.vaddr (align_up_u64 s.virtual_size section_alignment) in
    image_end ss (if not s.non_loaded && ltb acc end then end else acc)

unfoldable pub size_of_image : List Section → ℕ → ℕ
unfolding image_end
size_of_image ss size_of_headers =
    min (align_up_u64 (image_end ss size_of_headers) section_alignment) (2 ^ 32 - 1)

-- The three size sums of the optional header.
pub record Sizes : Type 0 where
  pub code : ℕ
  pub init_data : ℕ
  pub uninit_data : ℕ

unfoldable pub aligned_data_size : Section → Result Fault ℕ
unfolding alignment_for align_up_u32
aligned_data_size s = do
  len ← to_u32 (length s.contents)
  or_overflow (align_up_u32 len (alignment_for s))

unfoldable pub virtual_size_up : Section → Result Fault ℕ
unfolding align_up_u32
virtual_size_up s = do vsz ← to_u32 s.virtual_size; or_overflow (align_up_u32 vsz section_alignment)

-- `if s.characteristics & flag != 0 { acc = acc.checked_add(size)? }`
abbrev pub add_if : Bool → ℕ → Result Fault ℕ → Result Fault ℕ
add_if true acc size = size >>= λ n. or_overflow (checked_add_u32 acc n)
add_if false acc size = ok acc

abbrev pub has_flag : Section → ℕ → Bool
has_flag s flag = not (bit_and s.characteristics flag == 0)

unfoldable pub sum_sizes : List Section → Sizes → Result Fault Sizes
unfolding aligned_data_size virtual_size_up
sum_sizes [] z = ok z
sum_sizes (s ∷ ss) z = do
  code ← add_if (has_flag s 0x20) z.code (aligned_data_size s)
  init ← add_if (has_flag s 0x40) z.init_data (aligned_data_size s)
  uninit ← add_if (has_flag s 0x80) z.uninit_data (virtual_size_up s)
  sum_sizes ss (record { code = code; init_data = init; uninit_data = uninit })

-- The first loop: no name holds a NUL.
unfoldable pub check_names : List Section → Result Fault (Unit {0})
check_names [] = ok tt
check_names (s ∷ ss) = do
  refuse_if (contains 0 s.name) (pe_error (nul_in_name s.name))
  check_names ss

-- The decimal digits of `format!`, for a usize.
unfoldable pub decimal : ℕ → ℕ → Bytes
decimal zero n = []
decimal (suc f) n =
    let rest = decimal f (n / 10) in
    if ltb n 10 then (b'0' + n) ∷ [] else rest ++ (b'0' + n % 10) ∷ []

-- `[0u8; 8]` with a prefix written over it.
abbrev pub pad8 : Bytes → Bytes
pad8 bs = bs ++ replicate (8 - length bs) 0

-- One name: inline, or in the string table with its offset in the field.
unfoldable pub name_field : Bytes → Bytes → Result Fault (Bytes × Bytes)
unfolding decimal
name_field strtab n = if leb (length n) 8 then ok (pad8 n, strtab) else (do
  let field = b'/' ∷ decimal 20 (length strtab)
  refuse_if (ltb 8 (length field)) (pe_error (string_table_offset_too_large (length strtab)))
  ok (pad8 field, strtab ++ (n ++ 0 ∷ [])))

unfoldable pub name_fields : List Section → Bytes → Result Fault (List Bytes × Bytes)
unfolding name_field
name_fields [] strtab = ok ([], strtab)
name_fields (s ∷ ss) strtab = do
  (field, strtab') ← name_field strtab s.name
  (fields, strtab'') ← name_fields ss strtab'
  ok (field ∷ fields, strtab'')
