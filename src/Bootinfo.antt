-- ===== src/Bootinfo.antt =====
-- The header that arma writes for the boot stub, and the stub's view of it (src/bootinfo.rs:
-- TatuBootInfo, RelocsHeader, new, to_section_bytes; deps/tatu/src/bootinfo.rs: TatuBootInfo).
pub mod Regions
mod Tests
use arma.Base.{
  ℕ, zero, suc, ◌+◌, ◌-◌, ◌*◌, ◌^◌, ◌≤◌, ◌<◌, ◌≡◌, refl, arith, List, [], ◌∷◌, ◌++◌, take, drop,
  length, replicate,
}
use arma.Base.Text.{Bytes, codes}
use arma.Base.Slice.{le, from_le, from_le-le}

abbrev pub magic_bytes : Bytes
magic_bytes = codes "TATUBOOT"

abbrev pub header_size : ℕ
header_size = 76

abbrev pub section_size : ℕ
section_size = 4096

pub record TatuBootInfo : Type 0 where
  pub magic : Bytes
  pub base_dtb_gpa : ℕ
  pub host_dtbo_gpa : ℕ
  pub kernel_gpa : ℕ
  pub kernel_entry_gpa : ℕ
  pub relocs_gpa : ℕ
  pub base_dtb_size : ℕ
  pub host_dtbo_size : ℕ
  pub kernel_size : ℕ
  pub kernel_alloc_size : ℕ
  pub relocs64_count : ℕ
  pub relocs32neg_count : ℕ
  pub relocs32_count : ℕ

pub record RelocsHeader : Type 0 where
  pub gpa : ℕ
  pub relocs64_count : ℕ
  pub relocs32neg_count : ℕ
  pub relocs32_count : ℕ

-- `TatuBootInfo::new`, with the arguments in the order of the source.
unfoldable pub new_info : ℕ → ℕ → ℕ → ℕ → ℕ → ℕ → ℕ → ℕ → RelocsHeader → TatuBootInfo
new_info base base_size dtbo dtbo_size kernel kernel_size entry alloc relocs = record {
  magic = magic_bytes;
  base_dtb_gpa = base;
  host_dtbo_gpa = dtbo;
  kernel_gpa = kernel;
  kernel_entry_gpa = entry;
  relocs_gpa = relocs.gpa;
  base_dtb_size = base_size;
  host_dtbo_size = dtbo_size;
  kernel_size = kernel_size;
  kernel_alloc_size = alloc;
  relocs64_count = relocs.relocs64_count;
  relocs32neg_count = relocs.relocs32neg_count;
  relocs32_count = relocs.relocs32_count;
}

-- `as_bytes` of the packed struct.
abbrev pub header_bytes : TatuBootInfo → Bytes
header_bytes i =
    i.magic
    ++ (le 8 i.base_dtb_gpa
        ++ (le 8 i.host_dtbo_gpa
            ++ (le 8 i.kernel_gpa
                ++ (le 8 i.kernel_entry_gpa
                    ++ (le 8 i.relocs_gpa
                        ++ (le 4 i.base_dtb_size
                            ++ (le 4 i.host_dtbo_size
                                ++ (le 4 i.kernel_size
                                    ++ (le 4 i.kernel_alloc_size
                                        ++ (le 4 i.relocs64_count
                                            ++ (le 4 i.relocs32neg_count
                                                ++ le 4 i.relocs32_count)))))))))))

-- `vec![0u8; n]`
unfoldable pub zeroed : ℕ → Bytes
zeroed n = replicate n 0

-- A zeroed page with the header over its first bytes.
unfoldable pub to_section_bytes : TatuBootInfo → Bytes
to_section_bytes i = header_bytes i ++ drop header_size (zeroed section_size)

abbrev pub u64_at : ℕ → Bytes → ℕ
u64_at offset page = from_le (take 8 (drop offset page))

abbrev pub u32_at : ℕ → Bytes → ℕ
u32_at offset page = from_le (take 4 (drop offset page))

-- The stub's view of the page: the same fields at their C offsets.
unfoldable pub read_page : Bytes → TatuBootInfo
read_page page = record {
  magic = take 8 page;
  base_dtb_gpa = u64_at 8 page;
  host_dtbo_gpa = u64_at 16 page;
  kernel_gpa = u64_at 24 page;
  kernel_entry_gpa = u64_at 32 page;
  relocs_gpa = u64_at 40 page;
  base_dtb_size = u32_at 48 page;
  host_dtbo_size = u32_at 52 page;
  kernel_size = u32_at 56 page;
  kernel_alloc_size = u32_at 60 page;
  relocs64_count = u32_at 64 page;
  relocs32neg_count = u32_at 68 page;
  relocs32_count = u32_at 72 page;
}

-- Every argument of `new` is a word of its type.
pub record IsWords (base base_size dtbo dtbo_size kernel kernel_size entry alloc : ℕ)
    (relocs : RelocsHeader) : Type 0 where
  pub base_fits : base < 2 ^ 64
  pub base_size_fits : base_size < 2 ^ 32
  pub dtbo_fits : dtbo < 2 ^ 64
  pub dtbo_size_fits : dtbo_size < 2 ^ 32
  pub kernel_fits : kernel < 2 ^ 64
  pub kernel_size_fits : kernel_size < 2 ^ 32
  pub entry_fits : entry < 2 ^ 64
  pub alloc_fits : alloc < 2 ^ 32
  pub relocs_fits : relocs.gpa < 2 ^ 64
  pub relocs64_fits : relocs.relocs64_count < 2 ^ 32
  pub relocs32neg_fits : relocs.relocs32neg_count < 2 ^ 32
  pub relocs32_fits : relocs.relocs32_count < 2 ^ 32

module _ (base base_size dtbo dtbo_size kernel kernel_size entry alloc : ℕ)
    (relocs : RelocsHeader) where
  -- The stub reads from the page that arma writes exactly the header that `new` built, for
  -- arguments that fit their types.
  pub read_page-to_section_bytes :
      IsWords base base_size dtbo dtbo_size kernel kernel_size entry alloc relocs
      → read_page (
          to_section_bytes
            (new_info base base_size dtbo dtbo_size kernel kernel_size entry alloc relocs))
        ≡ new_info base base_size dtbo dtbo_size kernel kernel_size entry alloc relocs
  unfolding read_page to_section_bytes new_info
  read_page-to_section_bytes h =
      let e0 : from_le (le 8 base) ≡ base = from_le-le 8 base h.base_fits in
      let e1 : from_le (le 8 dtbo) ≡ dtbo = from_le-le 8 dtbo h.dtbo_fits in
      let e2 : from_le (le 8 kernel) ≡ kernel = from_le-le 8 kernel h.kernel_fits in
      let e3 : from_le (le 8 entry) ≡ entry = from_le-le 8 entry h.entry_fits in
      let e4 : from_le (le 8 relocs.gpa) ≡ relocs.gpa = from_le-le 8 relocs.gpa h.relocs_fits in
      let e5 : from_le (le 4 base_size) ≡ base_size = from_le-le 4 base_size h.base_size_fits in
      let e6 : from_le (le 4 dtbo_size) ≡ dtbo_size = from_le-le 4 dtbo_size h.dtbo_size_fits in
      let e7 : from_le (le 4 kernel_size) ≡ kernel_size =
        from_le-le 4 kernel_size h.kernel_size_fits in
      let e8 : from_le (le 4 alloc) ≡ alloc = from_le-le 4 alloc h.alloc_fits in
      let e9 : from_le (le 4 relocs.relocs64_count) ≡ relocs.relocs64_count =
        from_le-le 4 relocs.relocs64_count h.relocs64_fits in
      let f0 : from_le (le 4 relocs.relocs32neg_count) ≡ relocs.relocs32neg_count =
        from_le-le 4 relocs.relocs32neg_count h.relocs32neg_fits in
      let f1 : from_le (le 4 relocs.relocs32_count) ≡ relocs.relocs32_count =
        from_le-le 4 relocs.relocs32_count h.relocs32_fits in
      cc
