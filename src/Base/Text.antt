-- ===== src/Base/Text.antt =====
-- Byte strings: the bytes of a text literal, equality, and the `str` operations that the code
-- calls on node names and paths.
use Prim.Native.Char.{code}
use Prim.Native.String.{String}
use Prim.Native.Nat.{ℕ, ◌+◌, ◌*◌}
use mathlib.Core.Path.{◌≡◌, refl}
use mathlib.Core.Bool.{Bool, true, false, ◌&&◌}
use mathlib.Core.Option.{Option, none, some, some-injective}
use mathlib.Core.List.{List, [], ◌∷◌, ◌++◌}
use native.Mathlib.Omega.{arith}
use arma.Base.Tests.{◌==◌, ==_iff, if◌then◌else◌}

abbrev pub Bytes : Type 0
Bytes = List ℕ

-- The bytes of an ASCII text.
abbrev pub codes : String → Bytes
codes String.[] = []
codes (String.◌∷◌ c s) = code c ∷ codes s

abbrev pub bytes_eq : Bytes → Bytes → Bool
bytes_eq [] [] = true
bytes_eq [] (y ∷ ys) = false
bytes_eq (x ∷ xs) [] = false
bytes_eq (x ∷ xs) (y ∷ ys) = x == y && bytes_eq xs ys

pub bytes_eq_sound : (xs ys : Bytes) → bytes_eq xs ys ≡ true → xs ≡ ys
bytes_eq_sound [] [] h = refl
bytes_eq_sound [] (y ∷ ys) h = cc
bytes_eq_sound (x ∷ xs) [] h = cc
bytes_eq_sound (x ∷ xs) (y ∷ ys) h = ground (arith, ==_iff x y, bytes_eq_sound xs ys)

pub bytes_eq_refl : (xs : Bytes) → bytes_eq xs xs ≡ true
bytes_eq_refl [] = refl
bytes_eq_refl (x ∷ xs) = ground (arith, bytes_eq_refl xs)

-- The part before the first `sep`: the whole text where there is none.
abbrev pub before : ℕ → Bytes → Bytes
before sep [] = []
before sep (x ∷ xs) = if x == sep then [] else x ∷ before sep xs

-- `contains(char)`
abbrev pub contains : ℕ → Bytes → Bool
contains c [] = false
contains c (x ∷ xs) = if x == c then true else contains c xs

-- `starts_with(char)`
abbrev pub starts_with : ℕ → Bytes → Bool
starts_with c [] = false
starts_with c (x ∷ xs) = x == c

-- `strip_prefix`
abbrev pub strip_prefix : Bytes → Bytes → Option Bytes
strip_prefix [] ys = some ys
strip_prefix (x ∷ xs) [] = none
strip_prefix (x ∷ xs) (y ∷ ys) = if x == y then strip_prefix xs ys else none

pub strip_prefix-append : (xs ys rest : Bytes) → strip_prefix xs ys ≡ some rest → ys ≡ xs ++ rest
strip_prefix-append [] ys rest h = some-injective _ _ h
strip_prefix-append (x ∷ xs) [] rest h = cc
strip_prefix-append (x ∷ xs) (y ∷ ys) rest h =
    ground (arith, ==_iff x y, strip_prefix-append xs ys rest)

pub strip_prefix_lem : (xs rest : Bytes) → strip_prefix xs (xs ++ rest) ≡ some rest
strip_prefix_lem [] rest = refl
strip_prefix_lem (x ∷ xs) rest = ground (arith, ==_iff x x, strip_prefix_lem xs rest)

-- `trim_end_matches(char)`
abbrev pub trim_end : ℕ → Bytes → Bytes
trim_end c [] = []
trim_end c (x ∷ xs) = elim (trim_end c xs) [
  | [] ↦ if x == c then [] else x ∷ []
  | y ∷ ys ↦ x ∷ y ∷ ys
]

-- Big-endian: `from_be_bytes`.
abbrev pub be_from : ℕ → Bytes → ℕ
be_from acc [] = acc
be_from acc (b ∷ bs) = be_from (acc * 256 + b) bs

abbrev pub from_be_bytes : Bytes → ℕ
from_be_bytes = be_from 0
