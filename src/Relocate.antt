-- ===== src/Relocate.antt =====
-- Virtual KASLR in the boot stub (deps/tatu/src/arch_x86_64.rs: apply_kaslr), over the memory and
-- the random word.
pub mod Window
pub mod Sites
pub mod Handoff
mod Tests
use arma.Base.{
  ℕ, zero, suc, ◌+◌, ◌-◌, ◌*◌, ◌/◌, ◌%◌, ◌^◌, Bool, true, false, not, ◌&&◌, Option, none, some,
  List, [], ◌∷◌, ◌++◌, leb, ◌==◌, if◌then◌else◌, take, drop, length,
}
use arma.Base.Slice.{le, from_le}
use arma.Base.Text.{Bytes}
use arma.Bootinfo.{TatuBootInfo}
use arma.Bootinfo.Regions.{relocs_words}

abbrev pub load_physical_addr : ℕ
load_physical_addr = 0x1000000

abbrev pub kernel_image_size : ℕ
kernel_image_size = 0x40000000

abbrev pub kaslr_align : ℕ
kaslr_align = 0x200000

-- Subtraction on ℕ saturates.
unfoldable pub choose_delta : ℕ → ℕ → ℕ
choose_delta kernel_alloc_size random =
    let headroom = kernel_image_size - kernel_alloc_size - load_physical_addr in
    let slots = headroom / kaslr_align + 1 in random % slots * kaslr_align

-- `get_mut(o..o + n)`, and the word written back.
unfoldable pub patch : ℕ → (ℕ → ℕ) → ℕ → Bytes → Bytes
patch n f o img =
    if leb (o + n) (length img)
    then take o img ++ (le n (f (from_le (take n (drop o img)))) ++ drop (o + n) img)
    else img

unfoldable pub patch_all : ℕ → (ℕ → ℕ) → List ℕ → Bytes → Bytes
unfolding patch
patch_all n f [] img = img
patch_all n f (o ∷ os) img = patch_all n f os (patch n f o img)

-- `wrapping_add` and `wrapping_sub`, on the bits of a word.
abbrev pub add64 : ℕ → ℕ → ℕ
add64 delta v = (v + delta) % 2 ^ 64

abbrev pub sub32 : ℕ → ℕ → ℕ
sub32 delta v = (v + (2 ^ 32 - delta % 2 ^ 32)) % 2 ^ 32

abbrev pub add32 : ℕ → ℕ → ℕ
add32 delta v = (v + delta) % 2 ^ 32

-- The three tables.
unfoldable pub patch_tables : ℕ → List ℕ → List ℕ → List ℕ → Bytes → Bytes
unfolding patch_all
patch_tables delta relocs64 relocs32neg relocs32 img =
    patch_all 4 (add32 delta) relocs32
      (patch_all 4 (sub32 delta) relocs32neg (patch_all 8 (add64 delta) relocs64 img))

-- The words of the section, as the counts divide them.
unfoldable pub apply_words : TatuBootInfo → ℕ → List ℕ → Bytes → Bytes
unfolding patch_tables
apply_words info delta words img =
    let c64 = info.relocs64_count in
    let c32n = info.relocs32neg_count in
    if length words == 0
    then img
    else if not (c64 + c32n + info.relocs32_count == length words)
    then img
    else if delta == 0
    then img
    else patch_tables delta (take c64 words) (take c32n (drop c64 words)) (drop (c64 + c32n) words)
        img

unfoldable pub apply_kaslr : (ℕ → ℕ) → TatuBootInfo → ℕ → Bytes → Bytes
unfolding choose_delta apply_words relocs_words
apply_kaslr memory info random img =
    apply_words info (choose_delta info.kernel_alloc_size random) (relocs_words memory info) img
