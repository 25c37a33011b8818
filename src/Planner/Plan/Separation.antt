-- ===== src/Planner/Plan/Separation.antt =====
-- The separation of a layout (src/planner.rs: Planner::plan), from its stages.
use mathlib.Core.List.{map-append}
use arma.Base.{
  ℕ, ◌+◌, ◌%◌, ◌^◌, ◌≤◌, ◌<◌, ◌≡◌, refl, sym, subst, ap, ◌∙◌, arith, Option, none, some, List, [],
  ◌∷◌, ◌++◌, map, max, All, ok, if◌then◌else◌, Bool, true, false, lt→ltb,
}
use arma.Base.Bits.{u64_mod}
use arma.Base.Align.{up}
use arma.Planner.Fit.{Range, gran}
use arma.Planner.Fit.Align.{outward}
use arma.Planner.Plan.{Planner, Layout, plan, plan_initrd}
use arma.Planner.Plan.Whole.{IsWhole, Stacked, All-IsWhole, round_all-eq}
use arma.Planner.Plan.Trace.{Trace, plan-Trace}
use arma.Planner.Plan.Stages.{opt, Placed, Fitted, linux_stage}
use arma.Planner.Plan.Initrd.{fill_size, place_initrd_stage}
use arma.Planner.Plan.Window.{window_stage}
use arma.Planner.Plan.Apart.{Placed-trans, plan_relocs-Placed, plan_initrd-Placed}

-- What the planner is called with: u64 starts, and an alignment that is a power of two.
pub record IsInput (p : Planner) : Type 0 where
  pub starts : All (λ r. r.start < u64_mod) p.reserved
  pub exponent : ℕ
  pub small : exponent ≤ 63
  pub power : p.kernel.align ≡ 2 ^ exponent

-- The ranges that `plan` does not search for.
abbrev pub fixed : Planner → Layout → List Range
fixed p lay = p.reserved ++ opt lay.pci_window

-- The regions in guest memory, in the order in which they are placed.
abbrev pub payloads : Layout → List Range
payloads lay = (lay.linux ∷ []) ++ (opt lay.initrd ++ opt lay.bootconfig) ++ opt lay.relocs

module _ (p : Planner) (input : IsInput p) (lay : Layout) (t : Trace p lay) where
  start_eq : map outward (fixed p lay) ≡ t.with_window
  start_eq =
      map-append outward p.reserved (opt lay.pci_window)
      ∙ ap (λ r. r ++ map outward (opt lay.pci_window))
          (sym (round_all-eq p.reserved t.reserved input.starts t.reserved_eq))
      ∙ sym (window_stage p.args t.reserved lay.pci_window t.with_window t.window_eq)

  window-IsWhole : All IsWhole t.with_window
  window-IsWhole = subst (λ os. All IsWhole os) start_eq (All-IsWhole (fixed p lay))

  pub linux-Fitted :
      Fitted p.kernel.min_gpa p.kernel.size
        (max p.kernel.align gran)
        t.with_window
        lay.linux
        t.with_linux
  linux-Fitted =
      linux_stage input.exponent p.kernel t.with_window lay.linux t.with_linux input.small
        input.power window-IsWhole t.linux_eq

  pub layout-Placed : Placed (map outward (fixed p lay)) t.with_relocs (payloads lay)
  layout-Placed =
      let linux = linux-Fitted.placed in
      let initrd =
        plan_initrd-Placed p.initrd_size p.bootconfig t.with_linux lay.initrd lay.bootconfig
          t.with_initrd linux.whole t.initrd_eq in
      let relocs =
        plan_relocs-Placed p.relocs_size t.with_initrd lay.relocs t.with_relocs initrd.whole
          t.relocs_eq in
      subst (λ os. Placed os t.with_relocs (payloads lay)) (sym start_eq)
        (Placed-trans t.with_window t.with_initrd t.with_relocs
          ((lay.linux ∷ []) ++ (opt lay.initrd ++ opt lay.bootconfig)) (opt lay.relocs)
          (Placed-trans t.with_window t.with_linux t.with_initrd (lay.linux ∷ [])
            (opt lay.initrd ++ opt lay.bootconfig) linux initrd)
          relocs)

-- In a layout that `plan` returns for an input with u64 starts and a power of two as alignment,
-- the kernel, the archive, the bootconfig fill and the relocation table, rounded out to 2 MiB
-- units, keep apart from one another, from every reserved range rounded out and from the PCI
-- window rounded out.
pub plan-Stacked :
    (p : Planner) (lay : Layout)
    → IsInput p
    → plan p ≡ ok lay
    → Stacked (map outward (fixed p lay)) (map outward (payloads lay))
plan-Stacked p lay input h = (layout-Placed p input lay (plan-Trace p lay h)).stacked

-- In such a layout the kernel starts at or above its minimum address, on a multiple of its
-- alignment and of 2 MiB, whichever is larger, and takes its size, inside the u64 addresses.
pub plan_linux_fits :
    (p : Planner) (lay : Layout)
    → IsInput p
    → plan p ≡ ok lay
    → (p.kernel.min_gpa ≤ lay.linux.start)
      × (lay.linux.start % max p.kernel.align gran ≡ 0)
      × (lay.linux.end ≡ lay.linux.start + p.kernel.size)
      × (lay.linux.end < u64_mod)
plan_linux_fits p lay input h =
    let f = linux-Fitted p input lay (plan-Trace p lay h) in
    (f.free.above, f.free.aligned, f.extent, rw f.extent f.free.inside)

fill_extent :
    (b : Bool) (s u e : ℕ)
    → e ≡ s + (u + fill_size b)
    → ◌≡◌ {A = Option Range}
        (if b then some (record { start = s + u; end = e }) else none)
        (if b then some (record { start = s + u; end = s + u + gran }) else none)
fill_extent true s u e h = ap (λ t. some (record { start = s + u; end = t })) (omega arith)
fill_extent false s u e h = refl

-- For an archive of `sz` bytes, `sz` positive, the layout has it on a 2 MiB boundary, padded to
-- whole 2 MiB units; if bootconfig is requested, its fill starts where the padding ends and
-- takes 2 MiB, and otherwise there is none.
pub plan_initrd_extent :
    (p : Planner) (lay : Layout) (sz : ℕ)
    → IsInput p
    → p.initrd_size ≡ some sz
    → 0 < sz
    → plan p ≡ ok lay
    → (g : ℕ) × (g % gran ≡ 0)
      × (lay.initrd ≡ some (record { start = g; end = g + up sz gran }))
      × (lay.bootconfig ≡ (
          if p.bootconfig
          then some (record { start = g + up sz gran; end = g + up sz gran + gran })
          else none))
unfolding plan_initrd
plan_initrd_extent p lay sz input size pos h =
    let t = plan-Trace p lay h in
    let linux = (linux-Fitted p input lay t).placed in
    let e : plan_initrd (some sz) p.bootconfig t.with_linux
        ≡ ok (lay.initrd, lay.bootconfig, t.with_initrd) =
      rw size at t.initrd_eq in
    let v =
      place_initrd_stage sz p.bootconfig t.with_linux lay.initrd lay.bootconfig t.with_initrd
        linux.whole (rw (lt→ltb 0 sz pos) at e) in
    (
      v.span.start,
      v.fitted.free.aligned,
      v.archive,
      v.filled ∙ fill_extent p.bootconfig v.span.start (up sz gran) v.span.end v.fitted.extent,
    )
