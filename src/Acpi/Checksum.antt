-- ===== src/Acpi/Checksum.antt =====
-- The checksum of a table (src/emit/mod.rs: checksum, set_sdt_checksum).
use arma.Base.{
  ℕ, zero, suc, ◌+◌, ◌-◌, ◌%◌, ◌<◌, ◌≡◌, refl, ap, ◌∙◌, arith, Option, none, some, [], ◌∷◌, length,
  Result, ok, ok_or, ◌>>=◌,
}
use native.Mathlib.Nat.{mod-lt}
use arma.Base.Text.{Bytes}
use arma.Acpi.{DtbError, internal}

-- `fold(0, wrapping_add)`
unfoldable pub wrapping_sum : ℕ → Bytes → ℕ
wrapping_sum acc [] = acc
wrapping_sum acc (b ∷ bs) = wrapping_sum ((acc + b) % 256) bs

-- `0.wrapping_sub(sum)`
unfoldable pub checksum : Bytes → ℕ
unfolding wrapping_sum
checksum bytes = (256 - wrapping_sum 0 bytes) % 256

-- `get_mut(i)`, and the byte written.
unfoldable pub set_at : ℕ → ℕ → Bytes → Option Bytes
set_at i v [] = none
set_at zero v (b ∷ bs) = some (v ∷ bs)
set_at (suc i) v (b ∷ bs) = elim (set_at i v bs) [ none ↦ none | some out ↦ some (b ∷ out) ]

unfoldable pub set_sdt_checksum : Bytes → Result DtbError Bytes
unfolding set_at checksum
set_sdt_checksum slot = do
  cleared ← ok_or internal (set_at 9 0 slot)
  ok_or internal (set_at 9 (checksum cleared) cleared)

-- The sum without wrapping.
abbrev pub sum : Bytes → ℕ
sum [] = 0
sum (b ∷ bs) = b + sum bs

wrapping_sum-sum : (acc : ℕ) (bs : Bytes) → acc < 256 → wrapping_sum acc bs ≡ (acc + sum bs) % 256
unfolding wrapping_sum
wrapping_sum-sum acc [] h = omega arith
wrapping_sum-sum acc (b ∷ bs) h =
    wrapping_sum-sum ((acc + b) % 256) bs (mod-lt (acc + b) (omega arith)) ∙ omega arith

-- A table in which one byte is set.
record Set (i v : ℕ) (before after : Bytes) : Type 0 where
  again :
      (w : ℕ)
      → (out : Bytes) × (set_at i w after ≡ some out)
        × (sum out + v ≡ sum after + w)
        × (length out ≡ length before)

set_at-Set :
    (i v : ℕ) (bs : Bytes)
    → i < length bs
    → (after : Bytes) × (set_at i v bs ≡ some after) × Set i v bs after
unfolding set_at
set_at-Set i v [] h = absurd (omega arith)
set_at-Set zero v (b ∷ bs) h =
    (v ∷ bs, refl, record { again = λ w. (w ∷ bs, refl, omega arith, refl) })
set_at-Set (suc i) v (b ∷ bs) h =
    let (after, e, s) = set_at-Set i v bs (omega arith) in
    (
      b ∷ after,
      rw e refl,
      record {
        again = λ w.
            let (out, e', total, long) = s.again w in
            (b ∷ out, rw e' refl, omega arith, ap suc long);
      },
    )

-- A table of ten bytes or more gets its checksum: afterwards it has the same length, and its bytes
-- sum to a multiple of 256.
pub set_sdt_checksum-sum :
    (slot : Bytes)
    → 9 < length slot
    → (out : Bytes) × (set_sdt_checksum slot ≡ ok out)
      × (sum out % 256 ≡ 0)
      × (length out ≡ length slot)
unfolding set_sdt_checksum checksum
set_sdt_checksum-sum slot h =
    let (cleared, e, s) = set_at-Set 9 0 slot h in
    let (out, e', total, long) = s.again ((256 - wrapping_sum 0 cleared) % 256) in
    (out, rw (e, e') refl, omega (arith, wrapping_sum-sum 0 cleared (omega arith)), long)
