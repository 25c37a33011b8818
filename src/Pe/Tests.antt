-- ===== src/Pe/Tests.antt =====
-- The PE writer at small sections (src/pe.rs).
use arma.Base.{◌≡◌, ◌≢◌, refl, false, List, [], ◌∷◌, ok, err}
use arma.Base.Text.{codes}
use arma.Pe.Section.{Section, panic, decimal, align_up_u32, alignment_for}
use arma.Pe.Place.{Raw, place_raws, Laid, place_raws-Laid}
use arma.Pe.Write.{build_pe}
use arma.Pe.Fill.{build_pe-never_panics}

abbrev text_section : Section
text_section = record {
  name = codes ".text";
  vaddr = 0x20_0000;
  virtual_size = 3;
  contents = 1 ∷ 2 ∷ 3 ∷ [];
  characteristics = 0x2000_0020;
  non_loaded = false;
}

abbrev stack_section : Section
stack_section = record {
  name = codes ".tatu.bss";
  vaddr = 0x30_0000;
  virtual_size = 0x1000;
  contents = [];
  characteristics = 0x80;
  non_loaded = false;
}

-- A Padded section of 2 MiB: its payload starts on a 2 MiB boundary.
abbrev large_section : Section
large_section = record {
  name = codes ".linux";
  vaddr = 0x40_0000;
  virtual_size = 0x20_0000;
  contents = 7 ∷ [];
  characteristics = 0x40;
  non_loaded = false;
}

abbrev three_sections : List Section
three_sections = text_section ∷ stack_section ∷ large_section ∷ []

abbrev three_raws : List Raw
three_raws =
    record { offset = 0x1000; size = 0x1000 }
    ∷ record { offset = 0; size = 0 }
    ∷ record { offset = 0x20_0000; size = 0x1000 }
    ∷ []

three_placed : place_raws three_sections 0x1000 ≡ ok (three_raws, 0x20_1000)
unfolding place_raws align_up_u32 alignment_for
three_placed = refl

place_raws-Laid_example : Laid three_sections 0x1000 three_raws 0x20_1000
place_raws-Laid_example = place_raws-Laid three_sections 0x1000 three_raws 0x20_1000 three_placed

decimal_of_4 : decimal 20 1234 ≡ codes "1234"
unfolding decimal
decimal_of_4 = refl

build_pe-never_panics_example : build_pe 0x8664 three_sections ≢ err panic
build_pe-never_panics_example = build_pe-never_panics 0x8664 three_sections
