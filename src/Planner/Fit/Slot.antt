-- ===== src/Planner/Fit/Slot.antt =====
-- What `first_fit` of src/planner.rs promises: the lowest free aligned slot, or none is free.
use Prim.Native.String.{String}
use native.Mathlib.Nat.{pow-suc, div-add-mod'}
use arma.Base.{
  ℕ, zero, suc, ◌+◌, ◌*◌, ◌/◌, ◌%◌, ◌^◌, ◌≤◌, ◌<◌, ◌≡◌, inl, inr, refl, ap, arith, some,
  Option-cases, List, true, false, Bool-cases, ltb, ◌==◌, ==_iff, length, keep, find, All, All-map,
  ltb→lt, find-none, find-holds, All-find, Result, ok, err,
}
use arma.Base.Align.{le-up, up-least, up-mod}
use arma.Base.Bits.{u64_mod, u64_max, two_pow_pos}
use arma.Planner.Fit.{
  Range, Fault, plan_error, panic, out_of_fuel, align_up, is_nonempty, sort_by_start, conflicts,
  Round, returns, again, fit_round, fit_loop, first_fit,
}
use arma.Planner.Fit.Align.{align_up-some, align_up_overflow}
use arma.Planner.Fit.Search.{
  Apart, slot, not_conflicts, behind_conflict, remaining, remaining_hop, remaining-le-length,
  All-sort, All-of_sort, Apart-of_keep, Apart-keep, keep-nonempty,
}

-- A slot that a region of `size` bytes may take: at or above `start`, aligned, inside the u64
-- addresses, and apart from every carve-out.
pub record IsFree (start size align : ℕ) (occupied : List Range) (g : ℕ) : Type 0 where
  pub above : start ≤ g
  pub aligned : g % align ≡ 0
  pub inside : g + size < u64_mod
  pub apart : All (Apart (slot g size)) occupied

-- What a search may return: the lowest free slot, or an error where no slot is free.
abbrev pub Verdict : ℕ → ℕ → ℕ → List Range → Result Fault Range → Type 0
Verdict start size align occupied (ok r) =
    IsFree start size align occupied r.start
    × (r.end ≡ r.start + size)
    × ((g : ℕ) → IsFree start size align occupied g → r.start ≤ g)
Verdict start size align occupied (err (plan_error e)) =
    (g : ℕ) → ¬ (IsFree start size align occupied g)
Verdict start size align occupied (err panic) = ⊥
Verdict start size align occupied (err out_of_fuel) = ⊥

module _ (j start size : ℕ) (small : suc j ≤ 63) (rs : List Range) (region : String) where
  abbrev unit : ℕ
  unit = 2 ^ suc j

  -- What holds of the address that a round starts from.
  record Reached (g : ℕ) : Type 0 where
    from_start : start ≤ g
    at_multiple : g % unit ≡ 0
    lowest : (s : ℕ) → IsFree start size unit rs s → g ≤ s

  -- A multiple of an even number is not the greatest u64.
  ne_max : (g : ℕ) → g % unit ≡ 0 → g < u64_mod → (g == u64_max) ≡ false
  ne_max g h lt = elim (Bool-cases (g == u64_max)) [
    | inl e ↦ absurd (
        omega (
          arith,
          (==_iff g u64_max).0 e,
          div-add-mod' g unit,
          ap (λ (t : ℕ). g / unit * t) (pow-suc 2 j),
        ))
    | inr e ↦ e
  ]

  -- A free slot lies behind whatever conflicts at the address reached.
  free_behind :
      (g s : ℕ) (c : Range)
      → Reached g
      → All (λ r. is_nonempty r ≡ true) rs
      → find (conflicts g (g + size)) rs ≡ some c
      → IsFree start size unit rs s
      → c.end ≤ s
  free_behind g s c inv full found free =
      let hit = conflicts g (g + size) in
      behind_conflict g size s c (inv.lowest s free)
        (find-holds hit rs c found, All-find hit (λ r. is_nonempty r ≡ true) rs c full found)
        (All-find hit (Apart (slot s size)) rs c free.apart found)

  hop-Reached :
      (g g' : ℕ) (c : Range)
      → Reached g
      → All (λ r. is_nonempty r ≡ true) rs
      → find (conflicts g (g + size)) rs ≡ some c
      → align_up c.end unit ≡ some g'
      → Reached g' × (remaining g' rs < remaining g rs)
  hop-Reached g g' c inv full found up_eq =
      let (same, fits) = align_up-some (suc j) (omega arith) c.end g' up_eq in
      let clash : conflicts g (g + size) c ≡ true =
        find-holds (conflicts g (g + size)) rs c found in
      let past : c.end ≤ g' = rw same (le-up c.end unit (two_pow_pos (suc j))) in
      let on : g < c.end = ground arith in
      (
        record {
          from_start = omega arith;
          at_multiple = rw same (up-mod c.end unit (two_pow_pos (suc j)));
          lowest = λ s free. rw same (
              up-least c.end unit s (two_pow_pos (suc j)) free.aligned
                (free_behind g s c inv full found free));
        },
        remaining_hop g (g + size) g' rs c found (omega arith) past,
      )

  -- What a round leaves: a verdict, or an address reached with fewer ranges ahead.
  abbrev RoundVerdict : ℕ → Round → Type 0
  RoundVerdict g (returns r) = Verdict start size unit rs r
  RoundVerdict g (again g') = Reached g' × (remaining g' rs < remaining g rs)

  round_verdict :
      (g : ℕ)
      → Reached g
      → All (λ r. is_nonempty r ≡ true) rs
      → RoundVerdict g (fit_round size unit rs region g)
  unfolding fit_round
  round_verdict g inv full = elim (Bool-cases (ltb (g + size) u64_mod)) [
    | inl e ↦ elim (Option-cases (find (conflicts g (g + size)) rs)) [
      | inl free ↦
          rw (e, fit_round, free)
            (
              record {
                above = inv.from_start;
                aligned = inv.at_multiple;
                inside = ltb→lt _ _ e;
                apart =
                    All-map (λ r. conflicts g (g + size) r ≡ false) (Apart (slot g size))
                      (λ r h. not_conflicts g size r h) rs
                      (find-none (conflicts g (g + size)) rs free);
              },
              refl,
              inv.lowest,
            )
      | inr (c, found) ↦ elim (Option-cases (align_up c.end unit)) [
        | inl over ↦
            rw (e, fit_round, found, over)
              (λ s free. absurd (
                omega (
                  arith,
                  free.inside,
                  align_up_overflow (suc j) (omega arith) c.end over s
                      (free_behind g s c inv full found free) free.aligned,
                )))
        | inr (g', up_eq) ↦
            let stays =
              ne_max g' (hop-Reached g g' c inv full found up_eq).0.at_multiple
                (align_up-some (suc j) (omega arith) c.end g' up_eq).1 in
            rw (e, fit_round, found, up_eq, stays) (hop-Reached g g' c inv full found up_eq)
      ]
    ]
    | inr e ↦ rw (e, fit_round) (λ s free. absurd (ground (arith, inv.lowest s free, free.inside)))
  ]

  loop_of_round :
      (fuel g : ℕ) (r : Round)
      → remaining g rs < suc fuel
      → RoundVerdict g r
      → ((g' : ℕ)
          → remaining g' rs < fuel
          → Reached g'
          → Verdict start size unit rs (fit_loop fuel size unit rs region g'))
      → Verdict start size unit rs
          (elim r [ returns result ↦ result | again g' ↦ fit_loop fuel size unit rs region g' ])
  loop_of_round fuel g (returns r) enough v next = v
  loop_of_round fuel g (again g') enough v next = next g' (omega arith) v.0

  fit_loop-Verdict :
      (fuel g : ℕ)
      → All (λ r. is_nonempty r ≡ true) rs
      → remaining g rs < fuel
      → Reached g
      → Verdict start size unit rs (fit_loop fuel size unit rs region g)
  unfolding fit_loop
  fit_loop-Verdict zero g full enough inv = elim enough [ ]
  fit_loop-Verdict (suc fuel) g full enough inv =
      loop_of_round fuel g (fit_round size unit rs region g) enough (round_verdict g inv full)
        (λ g' less inv'. fit_loop-Verdict fuel g' full less inv')

-- The same slots are free of the carve-outs before the filter and the sort.
IsFree-sorted :
    (start size align : ℕ) (occupied : List Range) (g : ℕ)
    → IsFree start size align occupied g
    → IsFree start size align (sort_by_start (keep is_nonempty occupied)) g
IsFree-sorted start size align occupied g free = record {
  above = free.above;
  aligned = free.aligned;
  inside = free.inside;
  apart =
      All-sort (Apart (slot g size)) (keep is_nonempty occupied)
        (Apart-keep (slot g size) occupied free.apart);
}

IsFree-of_sorted :
    (start size align : ℕ) (occupied : List Range) (g : ℕ)
    → IsFree start size align (sort_by_start (keep is_nonempty occupied)) g
    → IsFree start size align occupied g
IsFree-of_sorted start size align occupied g free = record {
  above = free.above;
  aligned = free.aligned;
  inside = free.inside;
  apart =
      Apart-of_keep (slot g size) occupied
        (All-of_sort (Apart (slot g size)) (keep is_nonempty occupied) free.apart);
}

Verdict-of_sorted :
    (start size align : ℕ) (occupied : List Range) (r : Result Fault Range)
    → Verdict start size align (sort_by_start (keep is_nonempty occupied)) r
    → Verdict start size align occupied r
Verdict-of_sorted start size align occupied (ok r) (free, extent, least) = (
  IsFree-of_sorted start size align occupied r.start free,
  extent,
  λ g h. least g (IsFree-sorted start size align occupied g h),
)
Verdict-of_sorted start size align occupied (err (plan_error e)) v =
    λ g h. v g (IsFree-sorted start size align occupied g h)
Verdict-of_sorted start size align occupied (err panic) v = v
Verdict-of_sorted start size align occupied (err out_of_fuel) v = v

-- For an alignment of 2 up to 2^63 the search returns the lowest free slot at or above `start`,
-- of the size asked for; it returns an error only where no slot is free; and its rounds end.
pub first_fit-Verdict :
    (j start size : ℕ) (occupied : List Range) (region : String)
    → suc j ≤ 63
    → Verdict start size (2 ^ suc j) occupied (first_fit start size (2 ^ suc j) occupied region)
unfolding first_fit
first_fit-Verdict j start size occupied region small =
    elim (Option-cases (align_up start (2 ^ suc j))) [
      | inl over ↦
          rw (over, first_fit)
            (λ g free. absurd (
              omega (
                arith,
                free.inside,
                align_up_overflow (suc j) (omega arith) start over g free.above free.aligned,
              )))
      | inr (g, up_eq) ↦
          rw (up_eq, first_fit)
            (let sorted = sort_by_start (keep is_nonempty occupied) in
              let (same, fits) = align_up-some (suc j) (omega arith) start g up_eq in
              Verdict-of_sorted start size (2 ^ suc j) occupied _ (
                fit_loop-Verdict j start size small sorted region (suc (length sorted)) g
                  (All-sort (λ r. is_nonempty r ≡ true) (keep is_nonempty occupied)
                    (keep-nonempty occupied))
                  (omega (arith, remaining-le-length g sorted))
                  (record {
                    from_start = rw same (le-up start (2 ^ suc j) (two_pow_pos (suc j)));
                    at_multiple = rw same (up-mod start (2 ^ suc j) (two_pow_pos (suc j)));
                    lowest = λ s free. rw same (
                        up-least start (2 ^ suc j) s (two_pow_pos (suc j)) free.aligned free.above);
                  })))
    ]
