-- ===== src/Bootinfo/Tests.antt =====
-- The boot-stub header at one set of values (src/bootinfo.rs).
use arma.Base.{◌≡◌, arith}
use arma.Bootinfo.{
  RelocsHeader, new_info, to_section_bytes, read_page, IsWords, read_page-to_section_bytes,
}

abbrev sample_relocs : RelocsHeader
sample_relocs = record {
  gpa = 0xA0_0000;
  relocs64_count = 3;
  relocs32neg_count = 1;
  relocs32_count = 2;
}

sample_fits : IsWords 0x1000 0x100 0x2000 0x200 0x20_0000 0x400 0x20_0200 0x800 sample_relocs
sample_fits = record {
  base_fits = omega arith;
  base_size_fits = omega arith;
  dtbo_fits = omega arith;
  dtbo_size_fits = omega arith;
  kernel_fits = omega arith;
  kernel_size_fits = omega arith;
  entry_fits = omega arith;
  alloc_fits = omega arith;
  relocs_fits = omega arith;
  relocs64_fits = omega arith;
  relocs32neg_fits = omega arith;
  relocs32_fits = omega arith;
}

read_page-to_section_bytes_example :
    read_page (
      to_section_bytes
        (new_info 0x1000 0x100 0x2000 0x200 0x20_0000 0x400 0x20_0200 0x800 sample_relocs))
    ≡ new_info 0x1000 0x100 0x2000 0x200 0x20_0000 0x400 0x20_0200 0x800 sample_relocs
read_page-to_section_bytes_example =
    read_page-to_section_bytes 0x1000 0x100 0x2000 0x200 0x20_0000 0x400 0x20_0200 0x800
      sample_relocs sample_fits
