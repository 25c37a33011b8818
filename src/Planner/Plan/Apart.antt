-- ===== src/Planner/Plan/Apart.antt =====
-- No two regions of a layout share a 2 MiB unit (src/planner.rs: Planner::plan).
use mathlib.Core.List.{append_assoc, append-nil, map-append}
use arma.Base.{
  ℕ, ◌≡◌, inl, inr, sym, subst, Bool, Bool-cases, Option, none, some, List, [], ◌∷◌, ◌++◌, map, ltb,
  All, All-append, All-of_append, Result, ok, ok-injective,
}
use arma.Planner.Fit.{Range, Fault}
use arma.Planner.Fit.Align.{outward}
use arma.Planner.Fit.Search.{Apart}
use arma.Planner.Plan.{plan_initrd, plan_relocs}
use arma.Planner.Plan.Whole.{IsWhole, Stacked}
use arma.Planner.Plan.Stages.{opt, Placed, Placed-none, place_relocs_stage, RelocsFitted}
use arma.Planner.Plan.Initrd.{place_initrd_stage, initrd-Placed}

Stacked-append :
    (os xs ys : List Range) → Stacked os xs → Stacked (os ++ xs) ys → Stacked os (xs ++ ys)
Stacked-append os [] ys h k = subst (λ t. Stacked t ys) (append-nil os) k
Stacked-append os (x ∷ xs) ys h k = (
  h.0,
  Stacked-append (os ++ x ∷ []) xs ys h.1
      (subst (λ t. Stacked t ys) (sym (append_assoc os (x ∷ []) xs)) k),
)

-- What keeps apart from `os` keeps apart from `os'`.
Stacked-cover :
    (os os' ys : List Range)
    → ((y : Range) → All (Apart y) os → All (Apart y) os')
    → Stacked os ys
    → Stacked os' ys
Stacked-cover os os' [] f h = tt
Stacked-cover os os' (x ∷ xs) f h = (
  f x h.0,
  Stacked-cover (os ++ x ∷ []) (os' ++ x ∷ []) xs
      (λ y k.
        let (l, r) = All-of_append (Apart y) os (x ∷ []) k in
        All-append (Apart y) os' (x ∷ []) (f y l) r)
      h.1,
)

-- Two stages one after the other.
pub Placed-trans :
    (os os1 os2 xs ys : List Range)
    → Placed os os1 xs
    → Placed os1 os2 ys
    → Placed os os2 (xs ++ ys)
Placed-trans os os1 os2 xs ys a b =
    let xs' = map outward xs in
    let ys' = map outward ys in
    record {
      stacked =
          subst (λ t. Stacked os t) (sym (map-append outward xs ys))
            (Stacked-append os xs' ys' a.stacked
              (Stacked-cover os1 (os ++ xs') ys' a.covers b.stacked));
      covers = λ y h.
          let (l, r) = All-of_append (Apart y) os1 ys' (b.covers y h) in
          subst (λ t. All (Apart y) (os ++ t)) (sym (map-append outward xs ys))
            (subst (λ t. All (Apart y) t) (append_assoc os xs' ys')
              (All-append (Apart y) (os ++ xs') ys' (a.covers y l) r));
      whole = b.whole;
    }

relocs-Placed :
    (sz : ℕ) (os : List Range) (relocs : Option Range) (os' : List Range)
    → RelocsFitted sz os relocs os'
    → Placed os os' (opt relocs)
relocs-Placed sz os none os' v = absurd v
relocs-Placed sz os (some r) os' v = v.placed

-- A stage that places nothing.
skipped :
    (os : List Range) (relocs : Option Range) (os' : List Range)
    → All IsWhole os
    → ◌≡◌ {A = Result Fault (Option Range × List Range)} (ok (none, os)) (ok (relocs, os'))
    → Placed os os' (opt relocs)
skipped os relocs os' w h =
    subst (λ (t : Option Range × List Range). Placed os t.1 (opt t.0)) (ok-injective _ _ h)
      (Placed-none os w)

pub plan_relocs-Placed :
    (sz : Option ℕ) (os : List Range) (relocs : Option Range) (os' : List Range)
    → All IsWhole os
    → plan_relocs sz os ≡ ok (relocs, os')
    → Placed os os' (opt relocs)
unfolding plan_relocs
plan_relocs-Placed none os relocs os' w h = skipped os relocs os' w h
plan_relocs-Placed (some sz) os relocs os' w h = elim (Bool-cases (ltb 0 sz)) [
  | inl e ↦ relocs-Placed sz os relocs os' (place_relocs_stage sz os relocs os' w (rw e at h))
  | inr e ↦ skipped os relocs os' w (rw e at h)
]

no_initrd :
    (os : List Range) (initrd fill : Option Range) (os' : List Range)
    → All IsWhole os
    → ◌≡◌ {A = Result Fault (Option Range × Option Range × List Range)}
        (ok (none, none, os))
        (ok (initrd, fill, os'))
    → Placed os os' (opt initrd ++ opt fill)
no_initrd os initrd fill os' w h =
    subst (λ (t : Option Range × Option Range × List Range). Placed os t.2 (opt t.0 ++ opt t.1))
      (ok-injective _ _ h) (Placed-none os w)

pub plan_initrd-Placed :
    (sz : Option ℕ) (bootconfig : Bool) (os : List Range) (initrd fill : Option Range)
    (os' : List Range)
    → All IsWhole os
    → plan_initrd sz bootconfig os ≡ ok (initrd, fill, os')
    → Placed os os' (opt initrd ++ opt fill)
unfolding plan_initrd
plan_initrd-Placed none bootconfig os initrd fill os' w h = no_initrd os initrd fill os' w h
plan_initrd-Placed (some sz) bootconfig os initrd fill os' w h = elim (Bool-cases (ltb 0 sz)) [
  | inl e ↦
      initrd-Placed sz bootconfig os initrd fill os'
        (place_initrd_stage sz bootconfig os initrd fill os' w (rw e at h))
  | inr e ↦ no_initrd os initrd fill os' w (rw e at h)
]
