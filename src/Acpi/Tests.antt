-- ===== src/Acpi/Tests.antt =====
-- Small tables (deps/tatu/deps/dtb2acpi/src).
use arma.Base.{
  ℕ, ◌%◌, ◌≡◌, refl, arith, true, false, none, some, [], ◌∷◌, ◌++◌, replicate, length, ok, err,
}
use arma.Base.Text.{Bytes}
use arma.Acpi.{internal}
use arma.Acpi.Layout.{Slot, Counts, Offsets, layout, slots, gpa, carve_in}
use arma.Acpi.Layout.Gapless.{Adjacent, layout-Adjacent}
use arma.Acpi.Aml.{write_byte_buffer, write_device_header, pkg_bytes}
use arma.Acpi.Aml.Appends.{Appends, pkg_value, write_byte_buffer-Appends}
use arma.Acpi.Checksum.{set_sdt_checksum, sum, set_sdt_checksum-sum}

-- Two processors, a serial port, and two memory regions without distances.
abbrev machine : Counts
machine = record {
  vcpu_entries_bytes = 16;
  cpu_entries_bytes = 32;
  ioapic_count = 1;
  ecam_count = 0;
  pci_dsdt_bytes = 0;
  motherboard_dsdt_bytes = 0;
  serial_dsdt_bytes = 60;
  virtio_mmio_dsdt_bytes = 0;
  has_serial = true;
  has_numa = true;
  memory_region_count = 2;
  has_distances = false;
}

abbrev slot : ℕ → ℕ → Slot
slot at n = record { offset = at; len = n }

abbrev placed : Offsets
placed = record {
  rsdp = slot 0 36;
  dsdt = slot 36 109;
  fadt = slot 145 276;
  madt = slot 421 72;
  mcfg = none;
  spcr = some (slot 493 80);
  srat = some (slot 573 160);
  slit = none;
  xsdt = slot 733 68;
  total = 801;
}

machine-layout : layout machine 1 ≡ ok placed
unfolding layout
machine-layout = refl

madt_address : gpa (slot 421 72) 0x1000 ≡ ok 0x11A5
unfolding gpa
madt_address = refl

past_end : carve_in (slot 4 4) (replicate 7 0) ≡ err internal
unfolding carve_in
past_end = refl

layout-Adjacent_example : Adjacent 0 (slots placed) 801
layout-Adjacent_example = layout-Adjacent machine 1 placed machine-layout

set_sdt_checksum-sum_example :
    (out : Bytes) × (set_sdt_checksum (replicate 12 7) ≡ ok out)
    × (sum out % 256 ≡ 0)
    × (length out ≡ 12)
set_sdt_checksum-sum_example = set_sdt_checksum-sum (replicate 12 7) (omega arith)

buffer_of_two :
    write_byte_buffer (replicate 9 7) 1 (5 ∷ 6 ∷ [])
    ≡ ok (7 ∷ 0x11 ∷ 0x46 ∷ 0 ∷ 0x0A ∷ 2 ∷ 5 ∷ 6 ∷ 7 ∷ [], 8)
unfolding write_byte_buffer
buffer_of_two = refl

no_room : write_byte_buffer (replicate 7 7) 1 (5 ∷ 6 ∷ []) ≡ err internal
unfolding write_byte_buffer
no_room = refl

device :
    write_device_header (replicate 9 7) 0 (1 ∷ 2 ∷ 3 ∷ 4 ∷ []) 0x25
    ≡ ok (0x5B ∷ 0x82 ∷ 0x43 ∷ 2 ∷ 1 ∷ 2 ∷ 3 ∷ 4 ∷ 7 ∷ [], 8)
unfolding write_device_header
device = refl

write_byte_buffer-Appends_example :
    Appends
      (λ s p. write_byte_buffer s p (5 ∷ 6 ∷ []))
      ((0x11 ∷ []) ++ (pkg_bytes 6 ++ ((0x0A ∷ 2 ∷ []) ++ (5 ∷ 6 ∷ []))))
    × (pkg_value (pkg_bytes 6) ≡ length (pkg_bytes 6 ++ ((0x0A ∷ 2 ∷ []) ++ (5 ∷ 6 ∷ []))))
write_byte_buffer-Appends_example = write_byte_buffer-Appends (5 ∷ 6 ∷ []) (omega arith)
