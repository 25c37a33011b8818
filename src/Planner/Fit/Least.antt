-- ===== src/Planner/Fit/Least.antt =====
-- The contract of `first_fit` (src/planner.rs), from its verdict.
use Prim.Native.String.{String}
use arma.Base.{ℕ, suc, ◌+◌, ◌^◌, ◌≤◌, ◌≡◌, ◌≢◌, refl, subst, List, Result, ok, err}
use arma.Planner.Fit.{Range, Fault, plan_error, panic, out_of_fuel, first_fit}
use arma.Planner.Fit.Slot.{IsFree, Verdict, first_fit-Verdict}

module _ (j start size : ℕ) (occupied : List Range) (region : String) (small : suc j ≤ 63) where
  Verdict-at :
      (r : Result Fault Range)
      → first_fit start size (2 ^ suc j) occupied region ≡ r
      → Verdict start size (2 ^ suc j) occupied r
  Verdict-at r e =
      subst (Verdict start size (2 ^ suc j) occupied) e
        (first_fit-Verdict j start size occupied region small)

  -- For an alignment of 2 up to 2^63, the range that `first_fit` returns starts at or above
  -- `start`, on a multiple of the alignment, has the size asked for, ends inside the u64
  -- addresses, and keeps apart from every occupied range.
  pub first_fit-IsFree :
      (r : Range)
      → first_fit start size (2 ^ suc j) occupied region ≡ ok r
      → IsFree start size (2 ^ suc j) occupied r.start × (r.end ≡ r.start + size)
  first_fit-IsFree r e = let v = Verdict-at (ok r) e in (v.0, v.1)

  settled :
      (g : ℕ)
      → IsFree start size (2 ^ suc j) occupied g
      → (res : Result Fault Range) → Verdict start size (2 ^ suc j) occupied res
      → (r : Range) × (res ≡ ok r) × (r.start ≤ g)
  settled g free (ok r) v = (r, refl, v.2 g free)
  settled g free (err (plan_error e)) v = absurd (v g free)
  settled g free (err panic) v = absurd v
  settled g free (err out_of_fuel) v = absurd v

  -- For an alignment of 2 up to 2^63, if any slot `g` is free then `first_fit` returns a range,
  -- and it starts at or below `g`: the search is complete, and takes the lowest slot.
  pub first_fit_lowest :
      (g : ℕ)
      → IsFree start size (2 ^ suc j) occupied g
      → (r : Range) × (first_fit start size (2 ^ suc j) occupied region ≡ ok r) × (r.start ≤ g)
  first_fit_lowest g free =
      settled g free (first_fit start size (2 ^ suc j) occupied region)
        (first_fit-Verdict j start size occupied region small)

  refused :
      (res : Result Fault Range)
      → Verdict start size (2 ^ suc j) occupied res
      → (res ≢ err panic) × (res ≢ err out_of_fuel)
  refused (ok r) v = (cc, cc)
  refused (err (plan_error e)) v = (cc, cc)
  refused (err panic) v = absurd v
  refused (err out_of_fuel) v = absurd v

  -- For an alignment of 2 up to 2^63, the loop of `first_fit` ends within its rounds, one more
  -- than there are ranges, and no addition in it panics.
  pub first_fit_ends :
      (first_fit start size (2 ^ suc j) occupied region ≢ err panic)
      × (first_fit start size (2 ^ suc j) occupied region ≢ err out_of_fuel)
  first_fit_ends =
      refused (first_fit start size (2 ^ suc j) occupied region)
        (first_fit-Verdict j start size occupied region small)
