-- ===== src/Planner/Plan/Initrd.antt =====
-- The initrd stage of `plan` (src/planner.rs): the padded archive and the bootconfig fill behind
-- it, placed as one span.
use mathlib.Core.Path.{subst₂}
use arma.Base.{
  ℕ, ◌+◌, ◌%◌, ◌≤◌, ◌≡◌, inr, refl, sym, subst, ap, ◌∙◌, arith, Bool, true, false, Option, none,
  some, List, [], ◌∷◌, ◌++◌, All, All-append, All-of_append, if◌then◌else◌, ok, ok_or, bind-eq-ok,
  ok-injective, some_of_ok_or,
}
use arma.Base.Bits.{checked_add, checked_add-some}
use arma.Base.Align.{up, down, up-mod, up-least, multiple_le, down-mod, lt-down}
use arma.Planner.Fit.{Range, plan_error, overflow, gran, align_up, add_u64, first_fit}
use arma.Planner.Fit.Align.{outward, align_up-some}
use arma.Planner.Fit.Search.{Apart}
use arma.Planner.Plan.{occupy, place_initrd}
use arma.Planner.Plan.Whole.{IsWhole, outward_mono, All-part, Apart-of_part}
use arma.Planner.Plan.Stages.{opt, Placed, Fitted, fit_stage}

-- The bytes of the fill.
abbrev pub fill_size : Bool → ℕ
fill_size bootconfig = if bootconfig then gran else 0

-- The padded archive in a span, and the fill behind it.
abbrev pub archive_of : Range → ℕ → Range
archive_of span sz = record { start = span.start; end = span.start + up sz gran }

abbrev pub fill_of : Range → ℕ → Range
fill_of span sz = record { start = span.start + up sz gran; end = span.end }

-- What `place_initrd` leaves: one free span, cut into the archive and the fill.
pub record InitrdFitted (sz : ℕ) (bootconfig : Bool) (os : List Range) (initrd fill : Option Range)
    (os' : List Range) : Type 0 where
  pub span : Range
  pub fitted : Fitted 0 (up sz gran + fill_size bootconfig) gran os span os'
  pub archive : initrd ≡ some (archive_of span sz)
  pub filled : fill ≡ (if bootconfig then some (fill_of span sz) else none)

abbrev Cut : Type 0
Cut = Option Range × Option Range × List Range

pub place_initrd_stage :
    (sz : ℕ) (bootconfig : Bool) (os : List Range) (initrd fill : Option Range) (os' : List Range)
    → All IsWhole os
    → place_initrd sz bootconfig os ≡ ok (initrd, fill, os')
    → InitrdFitted sz bootconfig os initrd fill os'
unfolding place_initrd
place_initrd_stage sz bootconfig os initrd fill os' w h =
    let (padded, e0, h0) = bind-eq-ok (ok_or (plan_error overflow) (align_up sz gran)) _ h in
    let (total, e1, h1) =
      bind-eq-ok (ok_or (plan_error overflow) (checked_add padded (fill_size bootconfig))) _ h0 in
    let (r, e2, h2) = bind-eq-ok (first_fit 0 total gran os "initrd + bootconfig") _ h1 in
    let (os1, e3, h3) = bind-eq-ok (occupy r os) _ h2 in
    let (end, e4, h4) = bind-eq-ok (add_u64 r.start padded) _ h3 in
    let fit = fit_stage 20 0 total gran (omega arith) refl "initrd + bootconfig" os r os1 w e2 e3 in
    let up_eq : padded ≡ up sz gran =
      (align_up-some 21 (omega arith) sz padded (some_of_ok_or _ _ e0)).0 in
    let total_eq : total ≡ padded + fill_size bootconfig =
      checked_add-some _ _ (some_of_ok_or _ _ e1) in
    let end_eq : end ≡ r.start + padded = checked_add-some _ _ (some_of_ok_or _ _ e4) in
    subst (λ (t : Cut). InitrdFitted sz bootconfig os t.0 t.1 t.2) (ok-injective _ _ h4)
      (record {
        span = r;
        fitted =
            subst (λ t. Fitted 0 t gran os r os1)
              (total_eq ∙ ap (λ t. t + fill_size bootconfig) up_eq) fit;
        archive =
            ap (λ t. some (record { start = r.start; end = t }))
              (end_eq ∙ ap (λ t. r.start + t) up_eq);
        filled =
            ap (λ (t : ℕ). if bootconfig then some (record { start = t; end = r.end }) else none)
              (end_eq ∙ ap (λ t. r.start + t) up_eq);
      })

-- The archive and the fill lie in the span, so they keep apart from what the span keeps apart
-- from; and the fill starts on the unit where the archive ends.
module _ (sz : ℕ) (bootconfig : Bool) (os os' : List Range) (span : Range)
    (fit : Fitted 0 (up sz gran + fill_size bootconfig) gran os span os') where
  archive_in : (archive_of span sz).end ≤ span.end
  archive_in = omega (arith, fit.extent)

  archive_whole : (span.start + up sz gran) % gran ≡ 0
  archive_whole = omega (arith, fit.free.aligned, up-mod sz gran (omega arith))

  fill_behind : Apart (outward (fill_of span sz)) (outward (archive_of span sz))
  fill_behind =
      let joint = span.start + up sz gran in
      inr (
        inr (
          omega (
            arith,
            up-least joint gran joint (omega arith) archive_whole (omega arith),
            multiple_le gran joint (down joint gran) (omega arith) archive_whole
                (down-mod joint gran (omega arith)) (lt-down joint gran (omega arith)),
          )))

  span-Apart : All (Apart (outward span)) os
  span-Apart = fit.placed.stacked.0

  part-Apart : (x : Range) → span.start ≤ x.start → x.end ≤ span.end → All (Apart (outward x)) os
  part-Apart x lo hi =
      let (lo', hi') = outward_mono x span lo hi in
      All-part (outward x) (outward span) os lo' hi' span-Apart

  covers_part :
      (x y : Range)
      → span.start ≤ x.start
      → x.end ≤ span.end
      → All (Apart y) (os ++ outward span ∷ [])
      → Apart y (outward x)
  covers_part x y lo hi h =
      let (lo', hi') = outward_mono x span lo hi in
      Apart-of_part y (outward span) (outward x) lo' hi'
        (All-of_append (Apart y) os (outward span ∷ []) h).1.0

  covers_rest : (y : Range) → All (Apart y) (os ++ outward span ∷ []) → All (Apart y) os
  covers_rest y h = (All-of_append (Apart y) os (outward span ∷ []) h).0

parts-Placed :
    (sz : ℕ) (bootconfig : Bool) (os os' : List Range) (span : Range)
    → Fitted 0 (up sz gran + fill_size bootconfig) gran os span os'
    → Placed os os' (archive_of span sz ∷ opt (if bootconfig then some (fill_of span sz) else none))
parts-Placed sz true os os' span fit =
    let archive = archive_of span sz in
    let fill = fill_of span sz in
    let inside = archive_in sz true os os' span fit in
    record {
      stacked = (
        part-Apart sz true os os' span fit archive (omega arith) inside,
        (
          All-append (Apart (outward fill)) os (outward archive ∷ [])
              (part-Apart sz true os os' span fit fill (omega arith) (omega arith))
              (fill_behind sz true os os' span fit, tt),
          tt,
        ),
      );
      covers = λ y h.
          let h' = subst (All (Apart y)) fit.grown h in
          All-append (Apart y) os (outward archive ∷ outward fill ∷ [])
            (covers_rest sz true os os' span fit y h')
            (
              covers_part sz true os os' span fit archive y (omega arith) inside h',
              (covers_part sz true os os' span fit fill y (omega arith) (omega arith) h', tt),
            );
      whole = fit.placed.whole;
    }
parts-Placed sz false os os' span fit =
    let archive = archive_of span sz in
    let inside = archive_in sz false os os' span fit in
    record {
      stacked = (part-Apart sz false os os' span fit archive (omega arith) inside, tt);
      covers = λ y h.
          let h' = subst (All (Apart y)) fit.grown h in
          All-append (Apart y) os (outward archive ∷ []) (covers_rest sz false os os' span fit y h')
            (covers_part sz false os os' span fit archive y (omega arith) inside h', tt);
      whole = fit.placed.whole;
    }

pub initrd-Placed :
    (sz : ℕ) (bootconfig : Bool) (os : List Range) (initrd fill : Option Range) (os' : List Range)
    → InitrdFitted sz bootconfig os initrd fill os'
    → Placed os os' (opt initrd ++ opt fill)
initrd-Placed sz bootconfig os initrd fill os' v =
    subst₂ (λ a f. Placed os os' (opt a ++ opt f)) (sym v.archive) (sym v.filled)
      (parts-Placed sz bootconfig os os' v.span v.fitted)
