-- ===== src/Planner/Plan/Trace.antt =====
-- The values that a successful run of `plan` (src/planner.rs) passes through.
use arma.Base.{◌≡◌, refl, subst, List, ok, bind-eq-ok, ok-injective}
use arma.Planner.Fit.{Range}
use arma.Planner.Plan.{
  Planner, Layout, Devices, round_all, plan_window, plan_linux, plan_initrd, plan_relocs, plan_band,
  plan,
}

pub record Trace (p : Planner) (lay : Layout) : Type 0 where
  pub reserved : List Range
  pub with_window : List Range
  pub with_linux : List Range
  pub with_initrd : List Range
  pub with_relocs : List Range
  pub devices : Devices
  pub reserved_eq : round_all p.reserved ≡ ok reserved
  pub window_eq : plan_window p.args reserved ≡ ok (lay.pci_window, with_window)
  pub linux_eq : plan_linux p.kernel with_window ≡ ok (lay.linux, with_linux)
  pub initrd_eq :
      plan_initrd p.initrd_size p.bootconfig with_linux
      ≡ ok (lay.initrd, lay.bootconfig, with_initrd)
  pub relocs_eq : plan_relocs p.relocs_size with_initrd ≡ ok (lay.relocs, with_relocs)
  pub band_eq : plan_band p.args with_relocs ≡ ok devices
  pub serial_eq : lay.serial ≡ devices.serial
  pub virtio_eq : lay.virtio ≡ devices.virtio
  pub ecam_eq : lay.ecam ≡ devices.ecam

pub plan-Trace : (p : Planner) (lay : Layout) → plan p ≡ ok lay → Trace p lay
unfolding plan
plan-Trace p lay h =
    let (reserved, e0, h0) = bind-eq-ok (round_all p.reserved) _ h in
    let (w, e1, h1) = bind-eq-ok (plan_window p.args reserved) _ h0 in
    let (l, e2, h2) = bind-eq-ok (plan_linux p.kernel w.1) _ h1 in
    let (i, e3, h3) = bind-eq-ok (plan_initrd p.initrd_size p.bootconfig l.1) _ h2 in
    let (r, e4, h4) = bind-eq-ok (plan_relocs p.relocs_size i.2) _ h3 in
    let (d, e5, h5) = bind-eq-ok (plan_band p.args r.1) _ h4 in
    subst (Trace p) (ok-injective _ _ h5) (record {
      reserved = reserved;
      with_window = w.1;
      with_linux = l.1;
      with_initrd = i.2;
      with_relocs = r.1;
      devices = d;
      reserved_eq = e0;
      window_eq = e1;
      linux_eq = e2;
      initrd_eq = e3;
      relocs_eq = e4;
      band_eq = e5;
      serial_eq = refl;
      virtio_eq = refl;
      ecam_eq = refl;
    })
