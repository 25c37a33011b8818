-- ===== src/Acpi/Layout.antt =====
-- The slots of the tables (src/count.rs: Slot, Offsets; the total_size functions of src/emit).
pub mod Gapless
use arma.Base.{
  ℕ, zero, suc, ◌+◌, ◌-◌, ◌*◌, ◌≤◌, ◌<◌, ◌≡◌, refl, sym, ap, ◌∙◌, subst, arith, Bool, true, false,
  ◌&&◌, Option, none, some, List, [], ◌∷◌, ◌++◌, ltb, leb, if◌then◌else◌, take, drop, length,
  Result, ok, err, ok_or, bind-eq-ok, ok-injective, some_of_ok_or, ◌>>=◌, ◌>>◌,
}
use arma.Base.Bits.{checked_add, checked_add-some, u64_mod}
use arma.Base.Text.{Bytes}
use arma.Acpi.{DtbError, internal, add}

pub record Slot : Type 0 where
  pub offset : ℕ
  pub len : ℕ

unfoldable pub gpa : Slot → ℕ → Result DtbError ℕ
gpa slot base_gpa = add base_gpa slot.offset

-- The slot, and the cursor behind it.
unfoldable pub carve : ℕ → ℕ → Result DtbError (Slot × ℕ)
carve cur n = do next ← add cur n; ok (record { offset = cur; len = n }, next)

-- `get_mut(offset..end)`
unfoldable pub carve_in : Slot → Bytes → Result DtbError Bytes
carve_in slot buf = do
  end ← add slot.offset slot.len
  (if leb slot.offset end && leb end (length buf)
      then ok (take (end - slot.offset) (drop slot.offset buf))
      else err internal)

pub record Counts : Type 0 where
  pub vcpu_entries_bytes : ℕ
  pub cpu_entries_bytes : ℕ
  pub ioapic_count : ℕ
  pub ecam_count : ℕ
  pub pci_dsdt_bytes : ℕ
  pub motherboard_dsdt_bytes : ℕ
  pub serial_dsdt_bytes : ℕ
  pub virtio_mmio_dsdt_bytes : ℕ
  pub has_serial : Bool
  pub has_numa : Bool
  pub memory_region_count : ℕ
  pub has_distances : Bool

pub record Offsets : Type 0 where
  pub rsdp : Slot
  pub dsdt : Slot
  pub fadt : Slot
  pub madt : Slot
  pub mcfg : Option Slot
  pub spcr : Option Slot
  pub srat : Option Slot
  pub slit : Option Slot
  pub xsdt : Slot
  pub total : ℕ

-- `checked_mul`
abbrev pub mul : ℕ → ℕ → Result DtbError ℕ
mul a b = if ltb (a * b) u64_mod then ok (a * b) else err internal

-- The sizes of the tables with a list of entries.
unfoldable pub madt_size : ℕ → ℕ → Result DtbError ℕ
madt_size ioapic_count vcpu_entries_bytes = do
  ioapics ← mul ioapic_count 12
  s ← add 44 vcpu_entries_bytes
  add s ioapics

unfoldable pub mcfg_size : ℕ → Result DtbError ℕ
mcfg_size ecam_count = mul ecam_count 16 >>= λ regions. add 44 regions

unfoldable pub srat_size : ℕ → ℕ → Result DtbError ℕ
srat_size memory_region_count cpu_entries_bytes = do
  mem ← mul memory_region_count 40
  s ← add 48 cpu_entries_bytes
  add s mem

unfoldable pub slit_size : ℕ → Result DtbError ℕ
slit_size n = mul n n >>= λ matrix. add 44 matrix

unfoldable pub xsdt_size : ℕ → Result DtbError ℕ
xsdt_size n_entries = mul n_entries 8 >>= λ entries. add 36 entries

unfoldable pub dsdt_size : Counts → Result DtbError ℕ
dsdt_size c = do
  a ← add 36 13
  b ← add a c.motherboard_dsdt_bytes
  d ← add b c.pci_dsdt_bytes
  e ← add d c.serial_dsdt_bytes
  add e c.virtio_mmio_dsdt_bytes

-- A slot of a computed size.
unfoldable pub carve_sized : ℕ → Result DtbError ℕ → Result DtbError (Slot × ℕ)
unfolding carve
carve_sized cur size = size >>= λ n. carve cur n

-- A slot for a table that may be absent.
unfoldable pub carve_if : Bool → ℕ → Result DtbError ℕ → Result DtbError (Option Slot × ℕ)
unfolding carve_sized
carve_if present cur size =
    if present then (carve_sized cur size >>= λ s. ok (some (s.0), s.1)) else ok (none, cur)

abbrev pub one_if : Option Slot → ℕ
one_if none = 0
one_if (some s) = 1

-- The tables from a place of the buffer on.
unfoldable pub layout_from : ℕ → Counts → ℕ → Result DtbError Offsets
unfolding carve carve_sized carve_if dsdt_size madt_size mcfg_size srat_size slit_size xsdt_size
layout_from start c n_domains = do
  (rsdp, at1) ← carve start 36
  (dsdt, at2) ← carve_sized at1 (dsdt_size c)
  (fadt, at3) ← carve at2 276
  (madt, at4) ← carve_sized at3 (madt_size c.ioapic_count c.vcpu_entries_bytes)
  (mcfg, at5) ← carve_if (ltb 0 c.ecam_count) at4 (mcfg_size c.ecam_count)
  (spcr, at6) ← carve_if c.has_serial at5 (ok 80)
  (srat, at7) ← carve_if c.has_numa at6 (srat_size c.memory_region_count c.cpu_entries_bytes)
  (slit, at8) ← carve_if (c.has_numa && c.has_distances) at7 (slit_size n_domains)
  let entries = 2 + (one_if mcfg + (one_if spcr + (one_if srat + one_if slit)))
  (xsdt, at9) ← carve_sized at8 (xsdt_size entries)
  ok (record {
    rsdp = rsdp;
    dsdt = dsdt;
    fadt = fadt;
    madt = madt;
    mcfg = mcfg;
    spcr = spcr;
    srat = srat;
    slit = slit;
    xsdt = xsdt;
    total = at9;
  })

-- `Offsets::new`
unfoldable pub layout : Counts → ℕ → Result DtbError Offsets
unfolding layout_from
layout c n_domains = layout_from 0 c n_domains

abbrev pub present : Option Slot → List Slot
present none = []
present (some s) = s ∷ []

-- `xsdt_targets`
unfoldable pub xsdt_targets : Offsets → List Slot
xsdt_targets o =
    o.fadt ∷ o.madt ∷ (present o.mcfg ++ (present o.spcr ++ (present o.srat ++ present o.slit)))

-- Every slot, in the order of the buffer.
abbrev pub slots : Offsets → List Slot
slots o =
    o.rsdp
    ∷ o.dsdt
    ∷ o.fadt
    ∷ o.madt
    ∷ (present o.mcfg ++ (present o.spcr ++ (present o.srat ++ (present o.slit ++ (o.xsdt ∷ [])))))
