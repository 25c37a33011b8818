-- ===== src/Kernel/Unwrap/Scan.antt =====
-- The scan for a kernel, round by round, takes the first place that it accepts (src/kernel.rs:
-- scan_decompress).
use arma.Base.{
  ℕ, zero, suc, ◌<◌, ◌≡◌, refl, arith, Bool, true, false, Option, none, some, [], ◌∷◌,
  if◌then◌else◌, drop, length, Result, ok,
}
use arma.Base.Text.{Bytes}
use arma.Kernel.{KernelError}
use arma.Kernel.Unwrap.{has_magic, find_magic, accepted, scan_from, scan_decompress}

-- A place that starts with the magic and holds a kernel, or else what the rest has.
abbrev pub chosen : Bool → Option Bytes → Option Bytes → Option Bytes
chosen true (some out) rest = some out
chosen true none rest = rest
chosen false o rest = rest

-- The kernel of the first place of the input that holds one.
unfoldable pub first_kernel : Bytes → (Bytes → Option Bytes) → Bytes → Option Bytes
first_kernel magic decompress [] = none
first_kernel magic decompress (b ∷ bs) =
    chosen (has_magic magic (b ∷ bs)) (accepted (decompress (b ∷ bs)))
      (first_kernel magic decompress bs)

module _ (magic : Bytes) (decompress : Bytes → Option Bytes) where
  -- The rest of the scan, from what is found.
  abbrev onward : ℕ → Option Bytes → Result KernelError (Option Bytes)
  onward fuel none = ok none
  onward fuel (some at) = elim (accepted (decompress at)) [
    | some out ↦ ok (some out)
    | none ↦ scan_from fuel magic decompress (drop 1 at)
  ]

  onward-some :
      (fuel b : ℕ) (bs : Bytes) (o : Option Bytes) (rest : Option Bytes)
      → scan_from fuel magic decompress bs ≡ ok rest
      → elim o [ some out ↦ ok (some out) | none ↦ scan_from fuel magic decompress bs ]
        ≡ ok (chosen true o rest)
  onward-some fuel b bs none rest k = k
  onward-some fuel b bs (some out) rest k = refl

  onward-step :
      (fuel b : ℕ) (bs : Bytes) (t : Bool) (rest : Option Bytes)
      → scan_from fuel magic decompress bs ≡ ok rest
      → onward fuel (find_magic magic bs) ≡ ok rest
      → onward fuel (if t then some (b ∷ bs) else find_magic magic bs)
        ≡ ok (chosen t (accepted (decompress (b ∷ bs))) rest)
  onward-step fuel b bs true rest k l =
      onward-some fuel b bs (accepted (decompress (b ∷ bs))) rest k
  onward-step fuel b bs false rest k l = l

  onward-first :
      (fuel : ℕ) (input : Bytes)
      → ((rest : Bytes)
          → length rest < length input
          → scan_from fuel magic decompress rest ≡ ok (first_kernel magic decompress rest))
      → onward fuel (find_magic magic input) ≡ ok (first_kernel magic decompress input)
  unfolding find_magic first_kernel
  onward-first fuel [] ih = refl
  onward-first fuel (b ∷ bs) ih =
      onward-step fuel b bs (has_magic magic (b ∷ bs)) (first_kernel magic decompress bs)
        (ih bs (omega arith)) (onward-first fuel bs (λ rest h. ih rest (omega arith)))

  scan_from-first :
      (fuel : ℕ) (input : Bytes)
      → length input < fuel
      → scan_from fuel magic decompress input ≡ ok (first_kernel magic decompress input)
  unfolding scan_from
  scan_from-first zero input h = absurd (omega arith)
  scan_from-first (suc fuel) input h =
      onward-first fuel input (λ rest less. scan_from-first fuel rest (omega arith))

  pub scan_decompress-first :
      (input : Bytes)
      → scan_decompress input magic decompress ≡ ok (first_kernel magic decompress input)
  unfolding scan_decompress
  scan_decompress-first input = scan_from-first (suc (length input)) input (omega arith)
