-- ===== src/Planner/Tests.antt =====
-- Runs of the planner at small inputs, after the unit tests of src/planner.rs, and its theorems
-- at them.
use arma.Base.{
  ℕ, ◌-◌, ◌*◌, ◌+◌, ◌%◌, ◌^◌, ◌≤◌, ◌<◌, ◌≡◌, ◌≢◌, refl, arith, Bool, true, false, some, List, [],
  ◌∷◌, ◌++◌, map, ok, err, max, All, inr, if◌then◌else◌, ltb,
}
use arma.Base.Bits.{u64_mod}
use arma.Base.Align.{up}
use arma.Planner.Fit.{
  Range, panic, out_of_fuel, plan_error, window_too_large, gran, round_out, first_fit,
}
use arma.Planner.Fit.Align.{outward}
use arma.Planner.Fit.Search.{Apart}
use arma.Planner.Fit.Slot.{IsFree}
use arma.Planner.Fit.Least.{first_fit-IsFree, first_fit_lowest, first_fit_ends}
use arma.Planner.Plan.{Planner, ArgsSpec, Layout, plan, plan_window}
use arma.Planner.Plan.Whole.{Stacked}
use arma.Planner.Plan.Window.{window_of, plan_window_lem}
use arma.Planner.Plan.Separation.{
  IsInput, fixed, payloads, plan-Stacked, plan_linux_fits, plan_initrd_extent,
}
use arma.Planner.Plan.Band.{Consecutive, devices_of, plan_devices}

abbrev tatu_low : List Range
tatu_low = record { start = 0; end = 0x20_0000 } ∷ []

abbrev board : Bool → ℕ → ℕ → ArgsSpec
board serial mmio pci = record {
  serial = serial;
  mmio_slots = mmio;
  pci_slots = pci;
  window_bits = 37;
  addr_space_bits = 39;
}

-- A board with every kind of region.
abbrev full : Planner
full = record {
  args = board true 1 1;
  reserved = tatu_low;
  kernel = record { size = 4 * 1024 * 1024; align = 2 * 1024 * 1024; min_gpa = 0 };
  initrd_size = some 1;
  bootconfig = true;
  relocs_size = some 4096;
}

abbrev mib : ℕ → ℕ
mib n = n * 1024 * 1024

abbrev full_layout : Layout
full_layout = record {
  serial = some (record { start = 2 ^ 38 - mib 2; end = 2 ^ 38 - mib 2 + 0x1000 });
  virtio = record { start = 2 ^ 38 - mib 2 + 0x1000; end = 2 ^ 38 - mib 2 + 0x1200 } ∷ [];
  ecam = some (record { start = 2 ^ 38 - mib 18; end = 2 ^ 38 - mib 2 });
  pci_window = some (record { start = 2 ^ 38; end = 2 ^ 38 + 2 ^ 37 });
  linux = record { start = mib 2; end = mib 6 };
  initrd = some (record { start = mib 6; end = mib 8 });
  bootconfig = some (record { start = mib 8; end = mib 10 });
  relocs = some (record { start = mib 10; end = mib 10 + 4096 });
}

full-plan : plan full ≡ ok full_layout
unfolding plan round_out first_fit
full-plan = refl

abbrev full-IsInput : IsInput full
full-IsInput = record {
  starts = (omega arith, tt);
  exponent = 21;
  small = omega arith;
  power = refl;
}

-- The gap below a high kernel is taken by a region that fits, and passed by one that does not.
abbrev gap : List Range
gap = record { start = 0; end = mib 2 } ∷ record { start = mib 8; end = mib 12 } ∷ []

gap_taken : first_fit 0 (mib 6) (2 ^ 21) gap "initrd" ≡ ok (record { start = mib 2; end = mib 8 })
unfolding first_fit
gap_taken = refl

gap_passed :
    first_fit 0 (mib 7) (2 ^ 21) gap "initrd" ≡ ok (record { start = mib 12; end = mib 19 })
unfolding first_fit
gap_passed = refl

first_fit-IsFree_example :
    IsFree 0 (mib 7) (2 ^ 21) gap (mib 12) × ◌≡◌ {A = ℕ} (mib 19) (mib 12 + mib 7)
first_fit-IsFree_example =
    first_fit-IsFree 20 0 (mib 7) gap "initrd" (omega arith)
      (record { start = mib 12; end = mib 19 }) gap_passed

high-IsFree : IsFree 0 (mib 7) (2 ^ 21) gap (mib 14)
high-IsFree = record {
  above = omega arith;
  aligned = refl;
  inside = omega arith;
  apart = (inr (inr (omega arith)), (inr (inr (omega arith)), tt));
}

first_fit_lowest_example :
    (r : Range) × (first_fit 0 (mib 7) (2 ^ 21) gap "initrd" ≡ ok r) × (r.start ≤ mib 14)
first_fit_lowest_example =
    first_fit_lowest 20 0 (mib 7) gap "initrd" (omega arith) (mib 14) high-IsFree

first_fit_ends_example :
    (first_fit 0 (mib 7) (2 ^ 21) gap "initrd" ≢ err panic)
    × (first_fit 0 (mib 7) (2 ^ 21) gap "initrd" ≢ err out_of_fuel)
first_fit_ends_example = first_fit_ends 20 0 (mib 7) gap "initrd" (omega arith)

plan-Stacked_example :
    Stacked (map outward (fixed full full_layout)) (map outward (payloads full_layout))
plan-Stacked_example = plan-Stacked full full_layout full-IsInput full-plan

plan_linux_fits_example :
    (0 ≤ mib 2)
    × (mib 2 % max (2 * 1024 * 1024) gran ≡ 0)
    × (◌≡◌ {A = ℕ} (mib 6) (mib 2 + 4 * 1024 * 1024))
    × (mib 6 < u64_mod)
plan_linux_fits_example = plan_linux_fits full full_layout full-IsInput full-plan

plan_initrd_extent_example :
    (g : ℕ) × (g % gran ≡ 0)
    × (full_layout.initrd ≡ some (record { start = g; end = g + up 1 gran }))
    × (full_layout.bootconfig ≡ some (record { start = g + up 1 gran; end = g + up 1 gran + gran }))
plan_initrd_extent_example =
    plan_initrd_extent full full_layout 1 full-IsInput refl (omega arith) full-plan

plan_devices_example :
    (base last : ℕ) × Consecutive base
      (devices_of full_layout.ecam full_layout.serial full_layout.virtio)
      last
    × (last ≤ 2 ^ 38)
    × All
        (λ d.
          All
            (Apart d)
            (map outward (fixed full full_layout) ++ map outward (payloads full_layout)))
        (devices_of full_layout.ecam full_layout.serial full_layout.virtio)
plan_devices_example = plan_devices full full_layout full-IsInput (omega arith) full-plan

abbrev narrow : ArgsSpec
narrow = record {
  serial = false;
  mmio_slots = 0;
  pci_slots = 1;
  window_bits = 35;
  addr_space_bits = 36;
}

plan_window_example : plan_window narrow tatu_low ≡ (
    if ltb 36 37
    then err (plan_error (window_too_large 35 36))
    else ok (some (window_of narrow), tatu_low ++ outward (window_of narrow) ∷ []))
plan_window_example = plan_window_lem narrow tatu_low (omega arith) (omega arith) (omega arith)
