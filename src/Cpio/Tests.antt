-- ===== src/Cpio/Tests.antt =====
-- A small archive (src/initrd.rs).
use arma.Base.{◌%◌, ◌≡◌, refl, arith, Bool, true, none, some, [], ◌∷◌, length, ok}
use arma.Base.Text.{codes}
use arma.Cpio.{hex08, entry_header, cpio_entry, wrap_as_cpio, checked_entry_size, validate_cpio}
use arma.Cpio.Size.{IsEntry, checked_entry_size_exact}
use arma.Cpio.Scan.{validate_cpio_ends}

upper_case : hex08 0x81ED ≡ codes "000081ED"
unfolding hex08
upper_case = refl

-- The archive that wraps an executable of three bytes is accepted.
wrapped_accepted : validate_cpio (wrap_as_cpio (1 ∷ 2 ∷ 3 ∷ [])) ≡ some true
unfolding validate_cpio wrap_as_cpio cpio_entry entry_header hex08
wrapped_accepted = refl

init_size : checked_entry_size 4 4 3 ≡ ok 120
unfolding checked_entry_size
init_size = refl

init_fits : IsEntry 4 0x81ED 1 none
init_fits = record {
  ino_fits = omega arith;
  mode_fits = omega arith;
  nlink_fits = omega arith;
  major_fits = omega arith;
  minor_fits = omega arith;
}

checked_entry_size_exact_example :
    (length (cpio_entry (codes "head") 4 0x81ED 1 (codes "init") (1 ∷ 2 ∷ 3 ∷ []) none) ≡ 124)
    × (length (cpio_entry (codes "head") 4 0x81ED 1 (codes "init") (1 ∷ 2 ∷ 3 ∷ []) none) % 4 ≡ 0)
checked_entry_size_exact_example =
    checked_entry_size_exact (codes "head") 4 0x81ED 1 (codes "init") (1 ∷ 2 ∷ 3 ∷ []) none 120
      init_fits init_size

validate_cpio_ends_example : (b : Bool) × (validate_cpio (codes "070701") ≡ some b)
validate_cpio_ends_example = validate_cpio_ends (codes "070701")
