-- ===== src/Base/Slice.antt =====
-- Slices of a buffer written in place: `buf[off..off + n].copy_from_slice(..)`, `to_le_bytes`.
use native.Mathlib.Nat.{pow-suc}
use Prim.Native.Nat.{ℕ, zero, suc, ◌+◌, ◌-◌, ◌*◌, ◌^◌, ◌<◌, ◌/◌, ◌%◌, ◌≤◌}
use mathlib.Core.Path.{◌≡◌, refl, ap}
use mathlib.Core.Bool.{true}
use mathlib.Core.List.{List, [], ◌∷◌, ◌++◌}
use mathlib.Core.Option.{Option, none, some}
use native.Mathlib.Omega.{arith}
use arma.Base.Tests.{if◌then◌else◌, leb}
use arma.Base.Text.{Bytes}
use arma.Base.Lists.{length, take, drop, length-append, length-take}

-- `to_le_bytes` of an `n`-byte word.
abbrev pub le : ℕ → ℕ → Bytes
le zero v = []
le (suc n) v = v % 256 ∷ le n (v / 256)

pub length-le : (n v : ℕ) → length (le n v) ≡ n
length-le zero v = refl
length-le (suc n) v = ap suc (length-le n (v / 256))

-- The buffer with `bs` written at `off`: nothing where they do not fit.
unfoldable pub splice : ℕ → Bytes → Bytes → Option Bytes
splice off bs buf =
    if leb (off + length bs) (length buf)
    then some (take off buf ++ (bs ++ drop (off + length bs) buf))
    else none

pub length-drop {ℓ} : {A : Type ℓ} (n : ℕ) (xs : List A) → length (drop n xs) ≡ length xs - n
length-drop zero xs = omega arith
length-drop (suc n) [] = omega arith
length-drop (suc n) (x ∷ xs) = omega (arith, length-drop n xs)

pub splice-fits :
    (off : ℕ) (bs buf : Bytes)
    → off + length bs ≤ length buf
    → (out : Bytes) × (splice off bs buf ≡ some out) × (length out ≡ length buf)
unfolding splice
splice-fits off bs buf h =
    let fits : leb (off + length bs) (length buf) ≡ true = ground arith in
    let rest = drop (off + length bs) buf in
    (
      take off buf ++ (bs ++ rest),
      rw fits refl,
      omega (
        arith,
        length-append (take off buf) (bs ++ rest),
        length-append bs rest,
        length-take off buf,
        length-drop (off + length bs) buf,
      ),
    )

-- `from_le_bytes`.
abbrev pub from_le : Bytes → ℕ
from_le [] = 0
from_le (b ∷ bs) = b + 256 * from_le bs

-- A word that fits its bytes is read back.
pub from_le-le : (n v : ℕ) → v < 256 ^ n → from_le (le n v) ≡ v
from_le-le zero v h = omega arith
from_le-le (suc n) v h = omega (arith, from_le-le n (v / 256) (omega (arith, pow-suc 256 n)))

module _ {ℓ} {A : Type ℓ} where
  pub take-append : (xs ys : List A) → take (length xs) (xs ++ ys) ≡ xs
  take-append [] ys = refl
  take-append (x ∷ xs) ys = ap (λ t. x ∷ t) (take-append xs ys)

  pub drop-append : (xs ys : List A) → drop (length xs) (xs ++ ys) ≡ ys
  drop-append [] ys = refl
  drop-append (x ∷ xs) ys = drop-append xs ys

  pub drop-append_two : (xs ys zs : List A) → drop (length xs + length ys) (xs ++ (ys ++ zs)) ≡ zs
  drop-append_two [] ys zs =
      let e : 0 + length ys ≡ length ys = omega arith in rw e (drop-append ys zs)
  drop-append_two (x ∷ xs) ys zs =
      let e : suc (length xs) + length ys ≡ suc (length xs + length ys) = omega arith in
      rw e (drop-append_two xs ys zs)

-- Writing over a part of the same length replaces that part.
pub splice-append :
    (pre old new post : Bytes)
    → length new ≡ length old
    → splice (length pre) new (pre ++ (old ++ post)) ≡ some (pre ++ (new ++ post))
unfolding splice
splice-append pre old new post same =
    let fits : leb (length pre + length new) (length (pre ++ (old ++ post))) ≡ true =
      ground (arith, length-append pre (old ++ post), length-append old post) in
    rw (fits, same, take-append pre (old ++ post), drop-append_two pre old post) refl
