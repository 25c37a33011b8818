-- ===== src/Planner/Plan/Band.antt =====
-- The device band of src/planner.rs: band_geometry, carve_band and stage 4 of Planner::plan.
use arma.Base.{
  ℕ, zero, suc, ◌+◌, ◌-◌, ◌*◌, ◌^◌, ◌≤◌, ◌<◌, ◌≡◌, refl, sym, subst, ap, ◌∙◌, arith, Bool, true,
  false, Bool-cases, inl, inr, Option, none, some, List, [], ◌∷◌, ◌++◌, map, ltb, ◌==◌, All,
  All-map, any, refuse_if-ok, if◌then◌else◌, ok, bind-eq-ok, ok-injective, refuse_if,
}
use arma.Base.Bits.{u64_mod, and_not-pow}
use arma.Base.Align.{le-up}
use arma.Planner.Fit.{Range, gran}
use arma.Planner.Fit.Search.{Apart}
use arma.Planner.Fit.Align.{outward}
use arma.Planner.Plan.{
  Planner, Layout, ArgsSpec, Devices, band_content, round_up, band_geometry, carve_virtio,
  carve_band, place_band, plan_band, plan, minus_one, shl_one, overlaps, virtio_size, serial_size,
  ecam_size,
}
use arma.Planner.Plan.Whole.{any-Apart, All-part}
use arma.Planner.Plan.Window.{shl_one-eq, minus_one-eq}
use arma.Planner.Plan.Trace.{plan-Trace}
use arma.Planner.Plan.Stages.{opt}
use arma.Planner.Plan.Separation.{IsInput, fixed, payloads, layout-Placed}

-- The ranges follow one another from `cur` to `last`, with no gap.
abbrev pub Consecutive : ℕ → List Range → ℕ → Type 0
Consecutive cur [] last = cur ≡ last
Consecutive cur (r ∷ rs) last = (r.start ≡ cur) × (r.start < r.end) × Consecutive r.end rs last

-- The devices of a layout, in the order in which the band is carved.
abbrev pub devices_of : Option Range → Option Range → List Range → List Range
devices_of ecam serial virtio = opt ecam ++ (opt serial ++ virtio)

carve_virtio-Consecutive :
    (n cur : ℕ) → Consecutive cur (carve_virtio n cur) (cur + n * virtio_size)
unfolding carve_virtio
carve_virtio-Consecutive zero cur = omega arith
carve_virtio-Consecutive (suc n) cur = (
  refl,
  omega arith,
  subst (Consecutive (cur + virtio_size) (carve_virtio n (cur + virtio_size))) (omega arith)
      (carve_virtio-Consecutive n (cur + virtio_size)),
)

virtio_from :
    (n cur last : ℕ) → cur + n * virtio_size ≡ last → Consecutive cur (carve_virtio n cur) last
virtio_from n cur last e =
    subst (Consecutive cur (carve_virtio n cur)) e (carve_virtio-Consecutive n cur)

-- The four boards, with or without PCI slots and serial port.
carve_cases :
    (pci serial : Bool) (n base : ℕ)
    → let after_ecam = if pci then base + ecam_size else base in
      let after_serial = if serial then after_ecam + serial_size else after_ecam in
      Consecutive base
        (devices_of
          (if pci then some (record { start = base; end = base + ecam_size }) else none)
          (if serial
            then some (record { start = after_ecam; end = after_ecam + serial_size })
            else none)
          (carve_virtio n after_serial))
        (base
          + ((if pci then ecam_size else 0)
              + (if serial then serial_size else 0)
              + n * virtio_size))
carve_cases true true n base =
    (refl, omega arith, (refl, omega arith, virtio_from n _ _ (omega arith)))
carve_cases true false n base = (refl, omega arith, virtio_from n _ _ (omega arith))
carve_cases false true n base = (refl, omega arith, virtio_from n _ _ (omega arith))
carve_cases false false n base = virtio_from n _ _ (omega arith)

carve_band-Consecutive :
    (args : ArgsSpec) (base : ℕ)
    → Consecutive base
        (devices_of
          (carve_band args base).ecam
          (carve_band args base).serial
          (carve_band args base).virtio)
        (base + band_content args)
unfolding carve_band band_content
carve_band-Consecutive args base =
    carve_cases (ltb 0 args.pci_slots) args.serial args.mmio_slots base

band_content_fits :
    (args : ArgsSpec) → args.mmio_slots < 2 ^ 32 → band_content args + (gran - 1) < u64_mod
unfolding band_content
band_content_fits args h = ground arith

-- The band holds what is carved from it.
content-le-geometry :
    (args : ArgsSpec) → args.mmio_slots < 2 ^ 32 → band_content args ≤ band_geometry args
unfolding band_geometry round_up
content-le-geometry args h = elim (Bool-cases (band_content args == 0)) [
  | inl e ↦ rw e (ground arith)
  | inr e ↦
      rw
        (
          e,
          and_not-pow 64 21 (band_content args + (gran - 1)) (omega arith)
              (band_content_fits args h),
        )
        (le-up (band_content args) gran (omega arith))
]

-- A chain of ranges lies between its ends.
Consecutive-le : (cur : ℕ) (rs : List Range) (last : ℕ) → Consecutive cur rs last → cur ≤ last
Consecutive-le cur [] last h = omega arith
Consecutive-le cur (r ∷ rs) last h = omega (arith, Consecutive-le r.end rs last h.2)

Consecutive-inside :
    (cur : ℕ) (rs : List Range) (last : ℕ)
    → Consecutive cur rs last
    → All (λ r. (cur ≤ r.start) × (r.end ≤ last)) rs
Consecutive-inside cur [] last h = tt
Consecutive-inside cur (r ∷ rs) last h = (
  (omega arith, Consecutive-le r.end rs last h.2),
  All-map (λ x. (r.end ≤ x.start) × (x.end ≤ last)) (λ x. (cur ≤ x.start) × (x.end ≤ last))
      (λ x k. (omega arith, k.1)) rs (Consecutive-inside r.end rs last h.2),
)

-- The band that a run places: chained devices below 2^(A-1), apart from what was occupied.
pub record BandPlaced (args : ArgsSpec) (os : List Range) (d : Devices) : Type 0 where
  pub base : ℕ
  pub last : ℕ
  pub chained : Consecutive base (devices_of d.ecam d.serial d.virtio) last
  pub below : last ≤ 2 ^ (args.addr_space_bits - 1)
  pub apart : All (λ r. All (Apart r) os) (devices_of d.ecam d.serial d.virtio)

carved :
    (args : ArgsSpec) (os : List Range) (floor : ℕ)
    → args.mmio_slots < 2 ^ 32
    → floor ≡ 2 ^ (args.addr_space_bits - 1)
    → band_geometry args ≤ floor
    → any (overlaps (record { start = floor - band_geometry args; end = floor })) os ≡ false
    → BandPlaced args os (carve_band args (floor - band_geometry args))
carved args os floor slots floor_eq fits clear =
    let base = floor - band_geometry args in
    let band : Range = record { start = base; end = floor } in
    let d = carve_band args base in
    let chain = carve_band-Consecutive args base in
    let within : base + band_content args ≤ floor = omega (arith, content-le-geometry args slots) in
    record {
      base = base;
      last = base + band_content args;
      chained = chain;
      below = rw (← floor_eq) within;
      apart =
          All-map (λ x. (base ≤ x.start) × (x.end ≤ base + band_content args))
            (λ x. All (Apart x) os)
            (λ x k. All-part x band os k.0 (omega arith) (any-Apart band os clear))
            (devices_of d.ecam d.serial d.virtio)
            (Consecutive-inside base (devices_of d.ecam d.serial d.virtio)
              (base + band_content args) chain);
    }

place_band_stage :
    (args : ArgsSpec) (os : List Range) (d : Devices)
    → args.mmio_slots < 2 ^ 32
    → place_band args (band_geometry args) os ≡ ok d
    → BandPlaced args os d
unfolding place_band
place_band_stage args os d slots h =
    let (top, e0, h0) = bind-eq-ok (minus_one args.addr_space_bits) _ h in
    let (floor, e1, h1) = bind-eq-ok (shl_one top) _ h0 in
    let (u, e2, h2) = bind-eq-ok (refuse_if (ltb floor (band_geometry args)) _) _ h1 in
    let (v, e3, h3) = bind-eq-ok (refuse_if (any _ os) _) _ h2 in
    let fits : ltb floor (band_geometry args) ≡ false = refuse_if-ok _ _ e2 in
    let floor_eq =
      (shl_one-eq top floor e1).1 ∙ ap (λ t. 2 ^ t) (minus_one-eq args.addr_space_bits top e0) in
    subst (BandPlaced args os) (ok-injective _ _ h3)
      (carved args os floor slots floor_eq (ground arith) (refuse_if-ok _ _ e3))

plan_band_stage :
    (args : ArgsSpec) (os : List Range) (d : Devices)
    → args.mmio_slots < 2 ^ 32
    → plan_band args os ≡ ok d
    → BandPlaced args os d
unfolding plan_band
plan_band_stage args os d slots h = elim (Bool-cases (ltb 0 (band_geometry args))) [
  | inl e ↦ place_band_stage args os d slots (rw e at h)
  | inr e ↦
      subst (BandPlaced args os) (ok-injective _ _ (rw e at h))
        (record { base = 0; last = 0; chained = refl; below = omega arith; apart = tt })
]

-- In a layout that `plan` returns for a valid input with a u32 number of virtio slots, the ECAM
-- window, the serial port and the virtio transports follow one another with no gap, end at or
-- below 2^(A-1), and keep apart from the reserved ranges, the PCI window, the kernel, the
-- archive, the fill and the relocation table, each of these rounded out to 2 MiB units.
pub plan_devices :
    (p : Planner) (lay : Layout)
    → IsInput p
    → p.args.mmio_slots < 2 ^ 32
    → plan p ≡ ok lay
    → (base last : ℕ) × Consecutive base (devices_of lay.ecam lay.serial lay.virtio) last
      × (last ≤ 2 ^ (p.args.addr_space_bits - 1))
      × All
          (λ d. All (Apart d) (map outward (fixed p lay) ++ map outward (payloads lay)))
          (devices_of lay.ecam lay.serial lay.virtio)
plan_devices p lay input slots h =
    let t = plan-Trace p lay h in
    let b = plan_band_stage p.args t.with_relocs t.devices slots t.band_eq in
    let same : devices_of t.devices.ecam t.devices.serial t.devices.virtio
        ≡ devices_of lay.ecam lay.serial lay.virtio =
      λ i. devices_of (sym t.ecam_eq i) (sym t.serial_eq i) (sym t.virtio_eq i) in
    let all = map outward (fixed p lay) ++ map outward (payloads lay) in
    (
      b.base,
      b.last,
      subst (λ ds. Consecutive b.base ds b.last) same b.chained,
      b.below,
      subst (λ ds. All (λ d. All (Apart d) all) ds) same
          (All-map (λ d. All (Apart d) t.with_relocs) (λ d. All (Apart d) all)
            (λ d k. (layout-Placed p input lay t).covers d k)
            (devices_of t.devices.ecam t.devices.serial t.devices.virtio) b.apart),
    )
