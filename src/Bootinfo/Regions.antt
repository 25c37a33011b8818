-- ===== src/Bootinfo/Regions.antt =====
-- The regions that the stub borrows (deps/tatu/src/bootinfo.rs: region, base_dtb_bytes,
-- host_dtbo_bytes, kernel_bytes, relocs_words), from a memory that is a function of the address.
use arma.Base.{ℕ, zero, suc, ◌+◌, List, [], ◌∷◌, ◌==◌, if◌then◌else◌}
use arma.Base.Text.{Bytes}
use arma.Base.Slice.{from_le}
use arma.Bootinfo.{TatuBootInfo}

module _ (memory : ℕ → ℕ) where
  unfoldable pub region : ℕ → ℕ → Bytes
  region gpa zero = []
  region gpa (suc size) = memory gpa ∷ region (suc gpa) size

  unfoldable pub base_dtb_bytes : TatuBootInfo → Bytes
  unfolding region
  base_dtb_bytes info = region info.base_dtb_gpa info.base_dtb_size

  unfoldable pub host_dtbo_bytes : TatuBootInfo → Bytes
  unfolding region
  host_dtbo_bytes info = region info.host_dtbo_gpa info.host_dtbo_size

  unfoldable pub kernel_bytes : TatuBootInfo → Bytes
  unfolding region
  kernel_bytes info = region info.kernel_gpa info.kernel_size

  abbrev pub relocs_count : TatuBootInfo → ℕ
  relocs_count info = info.relocs64_count + info.relocs32neg_count + info.relocs32_count

  unfoldable pub word_at : ℕ → ℕ
  unfolding region
  word_at gpa = from_le (region gpa 4)

  unfoldable pub words : ℕ → ℕ → List ℕ
  unfolding word_at
  words gpa zero = []
  words gpa (suc n) = word_at gpa ∷ words (gpa + 4) n

  unfoldable pub relocs_words : TatuBootInfo → List ℕ
  unfolding words
  relocs_words info =
      if relocs_count info == 0 then [] else words info.relocs_gpa (relocs_count info)
