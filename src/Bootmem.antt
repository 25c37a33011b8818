-- ===== src/Bootmem.antt =====
-- The boot tables of the x86 stub (deps/tatu/src/bootmem.rs: write_u64, identity_map_4gib,
-- gdt_page). An array of bytes is a function of the offset. The base of the tables, which
-- deps/tatu/src/sections.rs computes from the section sizes, is an argument.
pub mod Entries
mod Tests
use Prim.Native.Nat.{bit_or}
use arma.Base.{
  ℕ, zero, suc, ◌+◌, ◌-◌, ◌*◌, ◌^◌, Bool, true, false, ◌&&◌, List, [], ◌∷◌, ltb, leb, ◌==◌,
  if◌then◌else◌,
}
use arma.Base.Text.{Bytes}
use arma.Base.Slice.{le}

abbrev pub Array : Type 0
Array = ℕ → ℕ

abbrev pub empty : Array
empty = λ p. 0

abbrev pub byte_at : ℕ → Bytes → ℕ
byte_at k [] = 0
byte_at zero (b ∷ bs) = b
byte_at (suc k) (b ∷ bs) = byte_at k bs

-- Eight little-endian bytes at an offset.
unfoldable pub write_u64 : Array → ℕ → ℕ → Array
write_u64 out off val =
    λ p. if leb off p && ltb p (off + 8) then byte_at (p - off) (le 8 val) else out p

abbrev pub pdpt_off : ℕ
pdpt_off = 4096

abbrev pub pd_base_off : ℕ
pd_base_off = 8192

-- Present, writable, and the 2 MiB page size.
abbrev pub table_entry : ℕ → ℕ
table_entry gpa = bit_or (bit_or gpa 1) 2

abbrev pub page_entry : ℕ → ℕ → ℕ
page_entry i j = bit_or (bit_or (bit_or (i * 2 ^ 30 + j * 2 ^ 21) 1) 2) 0x80

-- The entries of the page-directory pointers, `n` of them from the `i`-th.
unfoldable pub fill_pdpt : ℕ → ℕ → ℕ → Array → Array
unfolding write_u64
fill_pdpt base zero i out = out
fill_pdpt base (suc n) i out =
    fill_pdpt base n (suc i)
      (write_u64 out (pdpt_off + i * 8) (table_entry (base + pd_base_off + i * 4096)))

-- The pages of the `i`-th directory, `n` of them from the `j`-th.
unfoldable pub fill_pd : ℕ → ℕ → ℕ → Array → Array
unfolding write_u64
fill_pd i zero j out = out
fill_pd i (suc n) j out =
    fill_pd i n (suc j) (write_u64 out (pd_base_off + i * 4096 + j * 8) (page_entry i j))

unfoldable pub fill_pds : ℕ → ℕ → Array → Array
unfolding fill_pd
fill_pds zero i out = out
fill_pds (suc n) i out = fill_pds n (suc i) (fill_pd i 512 0 out)

unfoldable pub identity_map_4gib : ℕ → Array
unfolding fill_pdpt fill_pds
identity_map_4gib base =
    fill_pds 4 0 (fill_pdpt base 4 0 (write_u64 empty 0 (table_entry (base + pdpt_off))))

abbrev pub set : ℕ → ℕ → Array → Array
set off val out = λ p. if p == off then val else out p

-- The descriptors of code (offset 8) and data (offset 16).
unfoldable pub gdt_page : Array
gdt_page = set 22 0xCF (
    set 21 0x93
      (set 17 0xFF (set 16 0xFF (set 14 0xAF (set 13 0x9B (set 9 0xFF (set 8 0xFF empty)))))))
