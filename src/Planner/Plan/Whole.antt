-- ===== src/Planner/Plan/Whole.antt =====
-- Ranges of whole 2 MiB units, and how keeping apart carries over to them (src/planner.rs: the
-- rounding of every carve-out).
use native.Mathlib.Nat.{pow-le-pow_right}
use native.Mathlib.Decide.{dec_le}
use mathlib.Core.Path.{ap₂}
use arma.Base.{
  ℕ, zero, suc, ◌+◌, ◌-◌, ◌%◌, ◌^◌, ◌≤◌, ◌<◌, ◌≡◌, inl, inr, refl, sym, ap, ◌∙◌, arith, max, false,
  Bool-cases, List, [], ◌∷◌, ◌++◌, map, ltb, All, ◌&&◌, any, ok, bind-eq-ok, ok-injective, ◌>>=◌,
}
use arma.Base.Align.{up, down, le-up, up-mod, up-least, lt-down, down-le, down-mod, multiple_le}
use arma.Base.Bits.{u64_mod}
use arma.Planner.Fit.{Range, gran, round_out}
use arma.Planner.Fit.Align.{outward, round_out-fits}
use arma.Planner.Fit.Search.{Apart}
use arma.Planner.Plan.{round_all, occupy}

-- The range is made of whole units.
abbrev pub IsWhole : Range → Type 0
IsWhole r = (r.start % gran ≡ 0) × (r.end % gran ≡ 0)

pub outward-IsWhole : (r : Range) → IsWhole (outward r)
outward-IsWhole r = (down-mod r.start gran (omega arith), up-mod r.end gran (omega arith))

-- A range that keeps apart from whole units also does when it is itself rounded out.
pub Apart-outward : (s o : Range) → IsWhole o → Apart s o → Apart (outward s) o
Apart-outward s o w (inl empty) = inl empty
Apart-outward s o w (inr (inl before)) =
    inr (inl (up-least s.end gran o.start (omega arith) w.0 before))
Apart-outward s o w (inr (inr behind)) = inr (
    inr (
      multiple_le gran o.end (down s.start gran) (omega arith) w.1
        (down-mod s.start gran (omega arith)) (omega (arith, lt-down s.start gran (omega arith)))))

pub Apart-part : (x s o : Range) → s.start ≤ x.start → x.end ≤ s.end → Apart s o → Apart x o
Apart-part x s o lo hi h = ground arith

pub Apart-of_part : (y s x : Range) → s.start ≤ x.start → x.end ≤ s.end → Apart y s → Apart y x
Apart-of_part y s x lo hi h = ground arith

-- Rounding out keeps one range inside another.
pub outward_mono :
    (x s : Range)
    → s.start ≤ x.start
    → x.end ≤ s.end
    → ((outward s).start ≤ (outward x).start) × ((outward x).end ≤ (outward s).end)
outward_mono x s lo hi = (
  multiple_le gran (down s.start gran) (down x.start gran) (omega arith)
      (down-mod s.start gran (omega arith)) (down-mod x.start gran (omega arith))
      (omega (arith, down-le s.start gran (omega arith), lt-down x.start gran (omega arith))),
  up-least x.end gran (up s.end gran) (omega arith) (up-mod s.end gran (omega arith))
      (omega (arith, le-up s.end gran (omega arith))),
)

pub All-outward :
    (s : Range) (os : List Range) → All IsWhole os → All (Apart s) os → All (Apart (outward s)) os
All-outward s [] w h = tt
All-outward s (o ∷ os) w h = (Apart-outward s o w.0 h.0, All-outward s os w.1 h.1)

pub All-part :
    (x s : Range) (os : List Range)
    → s.start ≤ x.start
    → x.end ≤ s.end
    → All (Apart s) os
    → All (Apart x) os
All-part x s [] lo hi h = tt
All-part x s (o ∷ os) lo hi h = (Apart-part x s o lo hi h.0, All-part x s os lo hi h.1)

round_out_top : (r o : Range) → round_out r ≡ ok o → r.end + (gran - 1) < u64_mod
unfolding round_out
round_out_top r o h = ground arith

pub round_out-eq : (r o : Range) → r.start < u64_mod → round_out r ≡ ok o → o ≡ outward r
round_out-eq r o lt h =
    ok-injective o (outward r) (sym h ∙ round_out-fits r lt (round_out_top r o h))

pub occupy-eq :
    (r : Range) (os os' : List Range)
    → r.start < u64_mod
    → occupy r os ≡ ok os'
    → os' ≡ os ++ outward r ∷ []
unfolding occupy
occupy-eq r os os' lt h =
    let (o, e, f) = bind-eq-ok (round_out r) (λ o. ok (os ++ o ∷ [])) h in
    sym (ok-injective _ _ f) ∙ ap (λ t. os ++ t ∷ []) (round_out-eq r o lt e)

pub round_all-eq :
    (rs os : List Range)
    → All (λ r. r.start < u64_mod) rs
    → round_all rs ≡ ok os
    → os ≡ map outward rs
unfolding round_all
round_all-eq [] os b h = cc
round_all-eq (r ∷ rs) os b h =
    let (o, e, f) = bind-eq-ok (round_out r) (λ o. do os ← round_all rs; ok (o ∷ os)) h in
    let (tail, e', f') = bind-eq-ok (round_all rs) (λ os. ok (o ∷ os)) f in
    sym (ok-injective _ _ f')
    ∙ ap₂ (λ x xs. x ∷ xs) (round_out-eq r o b.0 e) (round_all-eq rs tail b.1 e')

pub All-IsWhole : (rs : List Range) → All IsWhole (map outward rs)
All-IsWhole [] = tt
All-IsWhole (r ∷ rs) = (outward-IsWhole r, All-IsWhole rs)

-- Each range keeps apart from those before it in the list, and from a given list.
abbrev pub Stacked : List Range → List Range → Type 0
Stacked before [] = Unit
Stacked before (x ∷ xs) = All (Apart x) before × Stacked (before ++ x ∷ []) xs

pub any-Apart :
    (y : Range) (os : List Range)
    → any (λ r. ltb r.start y.end && ltb y.start r.end) os ≡ false
    → All (Apart y) os
any-Apart y [] h = tt
any-Apart y (o ∷ os) h = elim (Bool-cases (ltb o.start y.end && ltb y.start o.end)) [
  | inl e ↦ cc (rw e at h)
  | inr e ↦ (ground arith, any-Apart y os (rw e at h))
]

-- The alignment of the kernel is a power of two again.
pub max_pow : (k : ℕ) → k ≤ 63 → (j : ℕ) × (suc j ≤ 63) × (max (2 ^ k) gran ≡ 2 ^ suc j)
max_pow zero h = (20, omega arith, refl)
max_pow (suc j) h = elim (dec_le j 20) [
  | yes small ↦ (
    20,
    omega arith,
    omega (arith, pow-le-pow_right {n = 2} (omega arith) {i = suc j} {j = 21} (omega arith)),
  )
  | no large ↦ (
    j,
    h,
    omega (arith, pow-le-pow_right {n = 2} (omega arith) {i = 21} {j = suc j} (omega arith)),
  )
]
