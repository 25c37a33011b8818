-- ===== src/Planner/Plan.antt =====
pub mod Whole
pub mod Trace
pub mod Stages
pub mod Initrd
pub mod Window
pub mod Apart
pub mod Separation
pub mod Band
-- The layout of one image (src/planner.rs: Planner::plan, band_geometry, carve_band). The
-- stages stand in the order of the code, and hand on the list of occupied ranges.
use Prim.Native.String.{String}
use arma.Base.{
  ℕ, zero, suc, ◌+◌, ◌-◌, ◌*◌, ◌^◌, max, Bool, true, false, ◌&&◌, Option, none, some, List, [], ◌∷◌,
  ◌++◌, ltb, leb, ◌==◌, if◌then◌else◌, any, Result, ok, err, ok_or, refuse_if, ◌>>=◌, ◌>>◌,
}
use arma.Base.Bits.{checked_add, and_not}
use arma.Planner.Fit.{
  Range, PlanError, does_not_fit, window_too_large, overflow, Fault, plan_error, panic, gran,
  align_up, add_u64, round_out, first_fit,
}

abbrev pub serial_size : ℕ
serial_size = 0x1000

abbrev pub virtio_size : ℕ
virtio_size = 0x200

abbrev pub ecam_size : ℕ
ecam_size = 16 * 0x10_0000

pub record ArgsSpec : Type 0 where
  pub serial : Bool
  pub mmio_slots : ℕ
  pub pci_slots : ℕ
  pub window_bits : ℕ
  pub addr_space_bits : ℕ

pub record KernelSpec : Type 0 where
  pub size : ℕ
  pub align : ℕ
  pub min_gpa : ℕ

pub record Planner : Type 0 where
  pub args : ArgsSpec
  pub reserved : List Range
  pub kernel : KernelSpec
  pub initrd_size : Option ℕ
  pub bootconfig : Bool
  pub relocs_size : Option ℕ

pub record Layout : Type 0 where
  pub serial : Option Range
  pub virtio : List Range
  pub ecam : Option Range
  pub pci_window : Option Range
  pub linux : Range
  pub initrd : Option Range
  pub bootconfig : Option Range
  pub relocs : Option Range

-- `1u64 << n`: a shift by 64 or more panics.
abbrev pub shl_one : ℕ → Result Fault ℕ
shl_one n = if ltb n 64 then ok (2 ^ n) else err panic

-- `n - 1` on an unsigned integer.
abbrev pub minus_one : ℕ → Result Fault ℕ
minus_one n = if n == 0 then err panic else ok (n - 1)

-- `b + 2` on u32.
abbrev pub add_u32 : ℕ → ℕ → Result Fault ℕ
add_u32 a b = if ltb (a + b) (2 ^ 32) then ok (a + b) else err panic

unfoldable pub round_all : List Range → Result Fault (List Range)
round_all [] = ok []
round_all (r ∷ rs) = do o ← round_out r; os ← round_all rs; ok (o ∷ os)

-- `occupied.push(round_out(&r))`
unfoldable pub occupy : Range → List Range → Result Fault (List Range)
occupy r occupied = do o ← round_out r; ok (occupied ++ o ∷ [])

-- 1. the PCI window, with the ranges occupied after it
unfoldable pub place_window : ArgsSpec → List Range → Result Fault (Option Range × List Range)
place_window args occupied = do
  needed ← add_u32 args.window_bits 2
  refuse_if (ltb args.addr_space_bits needed)
      (plan_error (window_too_large args.window_bits args.addr_space_bits))
  top ← minus_one args.addr_space_bits
  base ← shl_one top
  size ← shl_one args.window_bits
  end ← add_u64 base size
  let w : Range = record { start = base; end = end }
  occupied' ← occupy w occupied
  ok (some w, occupied')

unfoldable pub plan_window : ArgsSpec → List Range → Result Fault (Option Range × List Range)
unfolding place_window
plan_window args occupied =
    if ltb 0 args.pci_slots then place_window args occupied else ok (none, occupied)

-- 2. the kernel
unfoldable pub plan_linux : KernelSpec → List Range → Result Fault (Range × List Range)
plan_linux kernel occupied = do
  linux ← first_fit kernel.min_gpa kernel.size (max kernel.align gran) occupied "kernel"
  occupied' ← occupy linux occupied
  ok (linux, occupied')

-- 3. the archive and the bootconfig fill, placed together
unfoldable pub place_initrd :
    ℕ → Bool → List Range → Result Fault (Option Range × Option Range × List Range)
place_initrd sz bootconfig occupied = do
  archive_size ← ok_or (plan_error overflow) (align_up sz gran)
  total ← ok_or (plan_error overflow) (checked_add archive_size (if bootconfig then gran else 0))
  r ← first_fit 0 total gran occupied "initrd + bootconfig"
  occupied' ← occupy r occupied
  archive_end ← add_u64 r.start archive_size
  ok (
    some (record { start = r.start; end = archive_end }),
    (if bootconfig then some (record { start = archive_end; end = r.end }) else none),
    occupied',
  )

unfoldable pub plan_initrd :
    Option ℕ → Bool → List Range → Result Fault (Option Range × Option Range × List Range)
unfolding place_initrd
plan_initrd none bootconfig occupied = ok (none, none, occupied)
plan_initrd (some sz) bootconfig occupied =
    if ltb 0 sz then place_initrd sz bootconfig occupied else ok (none, none, occupied)

-- 3b. the relocation table
unfoldable pub place_relocs : ℕ → List Range → Result Fault (Option Range × List Range)
place_relocs sz occupied = do
  r ← first_fit 0 sz gran occupied "relocs"
  occupied' ← occupy r occupied
  ok (some r, occupied')

unfoldable pub plan_relocs : Option ℕ → List Range → Result Fault (Option Range × List Range)
unfolding place_relocs
plan_relocs none occupied = ok (none, occupied)
plan_relocs (some sz) occupied = if ltb 0 sz then place_relocs sz occupied else ok (none, occupied)

-- Sums of at most 2^24 + 2^12 + 2^32 * 2^9 stay far below 2^64.
unfoldable pub band_content : ArgsSpec → ℕ
band_content args =
    (if ltb 0 args.pci_slots then ecam_size else 0)
    + (if args.serial then serial_size else 0)
    + args.mmio_slots * virtio_size

-- `round_up`
unfoldable pub round_up : ℕ → ℕ → ℕ
round_up v a = and_not 64 (v + (a - 1)) (a - 1)

-- The size of `band_geometry`; its alignment is `gran`, and the caller drops it.
unfoldable pub band_geometry : ArgsSpec → ℕ
unfolding band_content round_up
band_geometry args = if band_content args == 0 then 0 else round_up (band_content args) gran

unfoldable pub carve_virtio : ℕ → ℕ → List Range
carve_virtio zero cur = []
carve_virtio (suc n) cur =
    record { start = cur; end = cur + virtio_size } ∷ carve_virtio n (cur + virtio_size)

-- `(serial, virtio, ecam)`
pub record Devices : Type 0 where
  pub serial : Option Range
  pub virtio : List Range
  pub ecam : Option Range

unfoldable pub carve_band : ArgsSpec → ℕ → Devices
unfolding carve_virtio
carve_band args base =
    let after_ecam = if ltb 0 args.pci_slots then base + ecam_size else base in
    let after_serial = if args.serial then after_ecam + serial_size else after_ecam in
    record {
      serial =
          if args.serial
          then some (record { start = after_ecam; end = after_ecam + serial_size })
          else none;
      virtio = carve_virtio args.mmio_slots after_serial;
      ecam =
          if ltb 0 args.pci_slots
          then some (record { start = base; end = base + ecam_size })
          else none;
    }

abbrev pub overlaps : Range → Range → Bool
overlaps band r = ltb r.start band.end && ltb band.start r.end

-- 4. the device band, below `2 ^ (addr_space_bits - 1)`
unfoldable pub place_band : ArgsSpec → ℕ → List Range → Result Fault Devices
unfolding carve_band
place_band args band_size occupied = do
  top ← minus_one args.addr_space_bits
  high_floor ← shl_one top
  refuse_if (ltb high_floor band_size) (plan_error overflow)
  let band : Range = record { start = high_floor - band_size; end = high_floor }
  refuse_if (any (overlaps band) occupied) (plan_error (does_not_fit "device band" band_size))
  ok (carve_band args band.start)

unfoldable pub plan_band : ArgsSpec → List Range → Result Fault Devices
unfolding band_geometry place_band
plan_band args occupied =
    if ltb 0 (band_geometry args)
    then place_band args (band_geometry args) occupied
    else ok (record { serial = none; virtio = []; ecam = none })

unfoldable pub plan : Planner → Result Fault Layout
unfolding round_all occupy plan_window plan_linux plan_initrd plan_relocs plan_band
plan p = do
  reserved ← round_all p.reserved
  (pci_window, with_window) ← plan_window p.args reserved
  (linux, with_linux) ← plan_linux p.kernel with_window
  (initrd, bootconfig, with_initrd) ← plan_initrd p.initrd_size p.bootconfig with_linux
  (relocs, with_relocs) ← plan_relocs p.relocs_size with_initrd
  devices ← plan_band p.args with_relocs
  ok (record {
    serial = devices.serial;
    virtio = devices.virtio;
    ecam = devices.ecam;
    pci_window = pci_window;
    linux = linux;
    initrd = initrd;
    bootconfig = bootconfig;
    relocs = relocs;
  })
