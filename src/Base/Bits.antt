-- ===== src/Base/Bits.antt =====
-- 64-bit words: the modulus, checked addition, and clearing the low bits by a mask.
use Prim.Native.Nat.{
  ℕ, zero, suc, ◌+◌, ◌-◌, ◌*◌, ◌/◌, ◌%◌, ◌^◌, ◌≤◌, ◌<◌, min, bit_and, digits, bit_and-bitwise,
}
use mathlib.Core.Path.{◌≡◌, ap, subst, ◌∙◌}
use mathlib.Core.Option.{Option, none, some}
use native.Mathlib.Omega.{arith}
use native.Mathlib.Nat.{pow-suc, one-le-pow, div-div-eq-div-mul, mul-mod_right, zero-div}
use arma.Base.Tests.{ltb, if◌then◌else◌}

abbrev pub u64_mod : ℕ
u64_mod = 2 ^ 64

-- `u64::MAX`
abbrev pub u64_max : ℕ
u64_max = 2 ^ 64 - 1

-- `u64::checked_add`
abbrev pub checked_add : ℕ → ℕ → Option ℕ
checked_add a b = if ltb (a + b) u64_mod then some (a + b) else none

-- `x & !mask` on a word of `w` bits.
abbrev pub and_not : ℕ → ℕ → ℕ → ℕ
and_not w x mask = bit_and x (2 ^ w - 1 - mask)

pub two_pow_pos : (k : ℕ) → 1 ≤ 2 ^ k
two_pow_pos k = one-le-pow k 2 (omega arith)

-- Keeping the digits of a `w`-bit word from the `k`-th up rounds it down to a multiple of
-- `2 ^ k`, on any count of digits that is enough for the word.
high_digits :
    (count w k x : ℕ)
    → x ≤ count
    → k ≤ w
    → x < 2 ^ w
    → digits (λ b. zero) min count x (2 ^ w - 2 ^ k) ≡ x / 2 ^ k * 2 ^ k
high_digits zero w k zero few h lt = omega (arith, zero-div (2 ^ k))
high_digits zero w k (suc x) few h lt = absurd (omega arith)
high_digits (suc count) w k zero few h lt = omega (arith, zero-div (2 ^ k))
high_digits (suc count) zero k (suc x) few h lt = absurd (omega arith)
high_digits (suc count) (suc w) zero (suc x) few h lt =
    let ones : (2 ^ suc w - 2 ^ 0) / 2 ≡ 2 ^ w - 2 ^ 0 =
      omega (arith, pow-suc 2 w, two_pow_pos w) in
    let rest =
      high_digits count w 0 (suc x / 2) (omega arith) (omega arith) (omega (arith, pow-suc 2 w)) in
    rw ones (omega (arith, rest, pow-suc 2 w, two_pow_pos w))
high_digits (suc count) (suc w) (suc k) (suc x) few h lt =
    let shifted : (2 ^ suc w - 2 ^ suc k) / 2 ≡ 2 ^ w - 2 ^ k =
      omega (arith, pow-suc 2 w, pow-suc 2 k) in
    let lowest : (2 ^ suc w - 2 ^ suc k) % 2 ≡ 0 = omega (arith, pow-suc 2 w, pow-suc 2 k) in
    let rest =
      high_digits count w k (suc x / 2) (omega arith) (omega arith) (omega (arith, pow-suc 2 w)) in
    let double : 2 ^ suc k ≡ 2 * 2 ^ k = omega (arith, pow-suc 2 k) in
    rw (shifted, lowest, rest, double, ← div-div-eq-div-mul (suc x) 2 (2 ^ k)) (omega arith)

pub and_not-pow : (w k x : ℕ) → k ≤ w → x < 2 ^ w → and_not w x (2 ^ k - 1) ≡ x / 2 ^ k * 2 ^ k
and_not-pow w k x h lt =
    let e : 2 ^ w - 1 - (2 ^ k - 1) ≡ 2 ^ w - 2 ^ k = omega (arith, two_pow_pos k, two_pow_pos w) in
    rw e (bit_and-bitwise x (2 ^ w - 2 ^ k) ∙ high_digits x w k x (omega arith) h lt)

-- The power of a sum, and the divisibility that follows.
pub two_pow_add : (k d : ℕ) → 2 ^ (k + d) ≡ 2 ^ k * 2 ^ d
two_pow_add k zero = let e : k + 0 ≡ k = omega arith in rw e (omega arith)
two_pow_add k (suc d) =
    let e : k + suc d ≡ suc (k + d) = omega arith in
    rw e
      (omega (arith, pow-suc 2 (k + d), ap (λ (t : ℕ). 2 ^ k * t) (pow-suc 2 d), two_pow_add k d))

pub two_pow_mod : (k w : ℕ) → k ≤ w → 2 ^ w % 2 ^ k ≡ 0
two_pow_mod k w h =
    let e : k + (w - k) ≡ w = omega arith in
    subst (λ t. 2 ^ t % 2 ^ k ≡ 0) e
      (rw (two_pow_add k (w - k)) (mul-mod_right (2 ^ k) (2 ^ (w - k))))

pub checked_add-some : (a b : ℕ) {c : ℕ} → checked_add a b ≡ some c → c ≡ a + b
checked_add-some a b h = ground arith
