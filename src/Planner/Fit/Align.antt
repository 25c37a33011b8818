-- ===== src/Planner/Fit/Align.antt =====
-- The alignment masks of the planner round to multiples (src/planner.rs: align_up, round_out).
use mathlib.Core.Option.{some-injective}
use arma.Base.{ℕ, ◌+◌, ◌-◌, ◌%◌, ◌^◌, ◌≤◌, ◌<◌, ◌≡◌, sym, ◌∙◌, arith, none, some, ok, lt→ltb}
use arma.Base.Align.{up, down, up-mod, up-least, lt-down, down-le, multiple_le}
use arma.Base.Bits.{u64_mod, and_not-pow, two_pow_mod, two_pow_pos}
use arma.Planner.Fit.{Range, gran, align_up, round_out}

module _ (k : ℕ) (small : k ≤ 64) (v : ℕ) where
  pub align_up-fits : v + (2 ^ k - 1) < u64_mod → align_up v (2 ^ k) ≡ some (up v (2 ^ k))
  unfolding align_up
  align_up-fits h = rw (lt→ltb _ _ h, and_not-pow 64 k (v + (2 ^ k - 1)) small h)

  pub align_up-none : align_up v (2 ^ k) ≡ none → u64_mod ≤ v + (2 ^ k - 1)
  unfolding align_up
  align_up-none h = ground arith

  align_up-some_fits : (w : ℕ) → align_up v (2 ^ k) ≡ some w → v + (2 ^ k - 1) < u64_mod
  unfolding align_up
  align_up-some_fits w h = ground arith

  -- A result of `align_up` is the least multiple at or above, and is a u64.
  pub align_up-some : (w : ℕ) → align_up v (2 ^ k) ≡ some w → (w ≡ up v (2 ^ k)) × (w < u64_mod)
  align_up-some w h =
      let fits = align_up-some_fits w h in
      let e : up v (2 ^ k) ≡ w = some-injective _ _ (sym (align_up-fits fits) ∙ h) in
      (sym e, omega (arith, down-le (v + (2 ^ k - 1)) (2 ^ k) (two_pow_pos k)))

  -- Where `align_up` overflows, no multiple at or above is a u64.
  pub align_up_overflow : align_up v (2 ^ k) ≡ none → (g : ℕ) → v ≤ g → g % 2 ^ k ≡ 0 → u64_mod ≤ g
  align_up_overflow h g le hg =
      let above : u64_mod < up v (2 ^ k) + 2 ^ k =
        omega (arith, align_up-none h, lt-down (v + (2 ^ k - 1)) (2 ^ k) (two_pow_pos k)) in
      omega (
        arith,
        multiple_le (2 ^ k) u64_mod (up v (2 ^ k)) (two_pow_pos k) (two_pow_mod k 64 small)
            (up-mod v (2 ^ k) (two_pow_pos k)) above,
        up-least v (2 ^ k) g (two_pow_pos k) hg le,
      )

-- `round_out` gives the least range of whole 2 MiB units around a range.
abbrev pub outward : Range → Range
outward r = record { start = down r.start gran; end = up r.end gran }

pub round_out-fits :
    (r : Range) → r.start < u64_mod → r.end + (gran - 1) < u64_mod → round_out r ≡ ok (outward r)
unfolding round_out
round_out-fits r hs he = rw (
  lt→ltb _ _ he,
  and_not-pow 64 21 r.start (omega arith) hs,
  and_not-pow 64 21 (r.end + (gran - 1)) (omega arith) he,
)
