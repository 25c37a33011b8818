-- ===== src/Planner/Plan/Stages.antt =====
-- Each stage of `plan` (src/planner.rs) places its regions apart from whatever was occupied.
use Prim.Native.String.{String}
use arma.Base.{
  ℕ, suc, ◌+◌, ◌^◌, ◌≤◌, ◌≡◌, refl, sym, subst, ap, ◌∙◌, arith, max, Option, none, some, List, [],
  ◌∷◌, ◌++◌, map, All, All-append, ok, bind-eq-ok, ok-injective,
}
use arma.Planner.Fit.{Range, gran, first_fit}
use arma.Planner.Fit.Align.{outward}
use arma.Planner.Fit.Search.{Apart}
use arma.Planner.Fit.Slot.{IsFree}
use arma.Planner.Fit.Least.{first_fit-IsFree}
use arma.Planner.Plan.{KernelSpec, occupy, plan_linux, place_relocs}
use arma.Planner.Plan.Whole.{IsWhole, Stacked, outward-IsWhole, All-outward, occupy-eq, max_pow}

abbrev pub opt {ℓ} : {A : Type ℓ} → Option A → List A
opt none = []
opt (some a) = a ∷ []

-- The regions `xs` were placed on top of `os`, and `os'` covers both.
pub record Placed (os os' xs : List Range) : Type 0 where
  pub stacked : Stacked os (map outward xs)
  pub covers : (y : Range) → All (Apart y) os' → All (Apart y) (os ++ map outward xs)
  pub whole : All IsWhole os'

pub Placed-none : (os : List Range) → All IsWhole os → Placed os os []
Placed-none os w = record {
  stacked = tt;
  covers = λ y h. All-append (Apart y) os [] h tt;
  whole = w;
}

-- A range found free, and rounded out on top of the list.
Placed-one :
    (os : List Range) (r : Range)
    → All IsWhole os
    → All (Apart r) os
    → Placed os (os ++ outward r ∷ []) (r ∷ [])
Placed-one os r w apart = record {
  stacked = (All-outward r os w apart, tt);
  covers = λ y h. h;
  whole = All-append IsWhole os (outward r ∷ []) w (outward-IsWhole r, tt);
}

-- A region that `first_fit` found, and its place in the list.
pub record Fitted (start size align : ℕ) (os : List Range) (r : Range) (os' : List Range)
    : Type 0 where
  pub free : IsFree start size align os r.start
  pub extent : r.end ≡ r.start + size
  pub grown : os' ≡ os ++ outward r ∷ []
  pub placed : Placed os os' (r ∷ [])

module _ (j start size align : ℕ) (small : suc j ≤ 63) (pow : align ≡ 2 ^ suc j)
    (region : String) where
  pub fit_stage :
      (os : List Range) (r : Range) (os' : List Range)
      → All IsWhole os
      → first_fit start size align os region ≡ ok r
      → occupy r os ≡ ok os'
      → Fitted start size align os r os'
  fit_stage os r os' w h o =
      let (free, extent) = first_fit-IsFree j start size os region small r (rw pow at h) in
      let apart =
        subst (λ t. All (Apart (record { start = r.start; end = t })) os) (sym extent) free.apart in
      let grown = occupy-eq r os os' (omega (arith, free.inside)) o in
      record {
        free = rw pow free;
        extent = extent;
        grown = grown;
        placed = subst (λ t. Placed os t (r ∷ [])) (sym grown) (Placed-one os r w apart);
      }

pub linux_stage :
    (e : ℕ) (k : KernelSpec) (os : List Range) (linux : Range) (os' : List Range)
    → e ≤ 63
    → k.align ≡ 2 ^ e
    → All IsWhole os
    → plan_linux k os ≡ ok (linux, os')
    → Fitted k.min_gpa k.size (max k.align gran) os linux os'
unfolding plan_linux
linux_stage e k os linux os' small pow w h =
    let (j, fits, same) = max_pow e small in
    let width : max k.align gran ≡ 2 ^ suc j = ap (λ t. max t gran) pow ∙ same in
    let (r, e0, h0) = bind-eq-ok (first_fit k.min_gpa k.size (max k.align gran) os "kernel") _ h in
    let (os1, e1, h1) = bind-eq-ok (occupy r os) _ h0 in
    subst (λ (t : Range × List Range). Fitted k.min_gpa k.size (max k.align gran) os t.0 t.1)
      (ok-injective _ _ h1)
      (fit_stage j k.min_gpa k.size (max k.align gran) fits width "kernel" os r os1 w e0 e1)

-- The relocation table, if there is one.
abbrev pub RelocsFitted : ℕ → List Range → Option Range → List Range → Type 0
RelocsFitted sz os none os' = ⊥
RelocsFitted sz os (some r) os' = Fitted 0 sz gran os r os'

pub place_relocs_stage :
    (sz : ℕ) (os : List Range) (relocs : Option Range) (os' : List Range)
    → All IsWhole os
    → place_relocs sz os ≡ ok (relocs, os')
    → RelocsFitted sz os relocs os'
unfolding place_relocs
place_relocs_stage sz os relocs os' w h =
    let (r, e0, h0) = bind-eq-ok (first_fit 0 sz gran os "relocs") _ h in
    let (os1, e1, h1) = bind-eq-ok (occupy r os) _ h0 in
    subst (λ (t : Option Range × List Range). RelocsFitted sz os t.0 t.1) (ok-injective _ _ h1)
      (fit_stage 20 0 sz gran (omega arith) refl "relocs" os r os1 w e0 e1)
