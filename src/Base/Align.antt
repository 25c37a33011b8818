-- ===== src/Base/Align.antt =====
-- Rounding to multiples of a positive number, the arithmetic behind the alignment masks.
use Prim.Native.Nat.{ℕ, ◌+◌, ◌-◌, ◌*◌, ◌/◌, ◌%◌, ◌≤◌, ◌<◌}
use mathlib.Core.Path.{◌≡◌}
use native.Mathlib.Omega.{arith}
use native.Mathlib.Nat.{
  mod-lt, div-add-mod', mul-mod_left, div-mul-le_self, mul-le-mul_right, lt_of_mul-lt-mul_right,
}

-- The multiple of `a` at or below `v`, and the one at or above it.
abbrev pub down : ℕ → ℕ → ℕ
down v a = v / a * a

abbrev pub up : ℕ → ℕ → ℕ
up v a = down (v + (a - 1)) a

module _ (v a : ℕ) (pos : 0 < a) where
  pub down-le : down v a ≤ v
  down-le = div-mul-le_self v a

  pub lt-down : v < down v a + a
  lt-down = omega (arith, mod-lt v pos, div-add-mod' v a)

  pub down-mod : down v a % a ≡ 0
  down-mod = mul-mod_left (v / a) a

module _ (v a : ℕ) (pos : 0 < a) where
  pub le-up : v ≤ up v a
  le-up = omega (arith, lt-down (v + (a - 1)) a pos)

  pub up-lt : up v a < v + a
  up-lt = omega (arith, down-le (v + (a - 1)) a pos)

  pub up-mod : up v a % a ≡ 0
  up-mod = down-mod (v + (a - 1)) a pos

-- A multiple below the next one is at most the first.
pub multiple_le : (a x g : ℕ) → 0 < a → x % a ≡ 0 → g % a ≡ 0 → x < g + a → x ≤ g
multiple_le a x g pos hx hg h =
    let ex : x / a * a ≡ x = omega (arith, div-add-mod' x a) in
    let eg : g / a * a ≡ g = omega (arith, div-add-mod' g a) in
    let scaled : x / a * a < (g / a + 1) * a = omega arith in
    let q : x / a < g / a + 1 = lt_of_mul-lt-mul_right a scaled in
    omega (arith, mul-le-mul_right {m = x / a} {n = g / a} a (omega arith))

-- Rounding up is the least multiple at or above.
pub up-least : (v a g : ℕ) → 0 < a → g % a ≡ 0 → v ≤ g → up v a ≤ g
up-least v a g pos hg h =
    multiple_le a (up v a) g pos (up-mod v a pos) hg (omega (arith, up-lt v a pos))
