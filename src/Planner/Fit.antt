-- ===== src/Planner/Fit.antt =====
-- Ranges, alignment and the first-fit search (src/planner.rs: align_up, round_out, first_fit).
pub mod Align
pub mod Search
pub mod Slot
pub mod Least
use Prim.Native.String.{String}
use mathlib.Core.Option
use arma.Base.{
  ℕ, zero, suc, ◌+◌, ◌-◌, ◌*◌, ◌^◌, Bool, true, false, ◌&&◌, Option, none, some, List, [], ◌∷◌, ltb,
  leb, ◌==◌, if◌then◌else◌, length, keep, find, Result, ok, err, ok_or, ◌>>=◌,
}
use arma.Base.Bits.{u64_mod, u64_max, checked_add, and_not}

-- `Range<u64>`
pub record Range : Type 0 where
  pub start : ℕ
  pub end : ℕ

pub data PlanError : Type 0 where
  does_not_fit : String → ℕ → PlanError
  window_too_large : ℕ → ℕ → PlanError
  overflow : PlanError

-- What ends a computation without a value: an error that the code returns, an arithmetic
-- overflow or shift that panics where overflow checks are on, or the model's fuel.
pub data Fault : Type 0 where
  plan_error : PlanError → Fault
  panic : Fault
  out_of_fuel : Fault

-- PMI large-section granularity, 2 MiB.
abbrev pub gran : ℕ
gran = 2 * 1024 * 1024

unfoldable pub align_up : ℕ → ℕ → Option ℕ
align_up v a = Option.map (λ x. and_not 64 x (a - 1)) (checked_add v (a - 1))

-- `a + b` on u64.
abbrev pub add_u64 : ℕ → ℕ → Result Fault ℕ
add_u64 a b = ok_or panic (checked_add a b)

unfoldable pub round_out : Range → Result Fault Range
round_out r = do
  let start = and_not 64 r.start (gran - 1)
  top ← add_u64 r.end (gran - 1)
  ok (record { start = start; end = and_not 64 top (gran - 1) })

-- `r.end > r.start`
abbrev pub is_nonempty : Range → Bool
is_nonempty r = ltb r.start r.end

-- `sort_by_key(|r| r.start)`: stable.
pub insert_by_start : Range → List Range → List Range
insert_by_start x [] = x ∷ []
insert_by_start x (y ∷ ys) = if leb x.start y.start then x ∷ y ∷ ys else y ∷ insert_by_start x ys

pub sort_by_start : List Range → List Range
sort_by_start [] = []
sort_by_start (x ∷ xs) = insert_by_start x (sort_by_start xs)

-- `r.start < end && g < r.end`
abbrev pub conflicts : ℕ → ℕ → Range → Bool
conflicts g end r = ltb r.start end && ltb g r.end

-- One round of the loop: it returns, or goes on from another address.
pub data Round : Type 0 where
  returns : Result Fault Range → Round
  again : ℕ → Round

hop : ℕ → String → ℕ → Option ℕ → Round
hop size region g none = returns (err (plan_error overflow))
hop size region g (some g') =
    if g' == u64_max then returns (err (plan_error (does_not_fit region size))) else again g'

unfoldable pub fit_round : ℕ → ℕ → List Range → String → ℕ → Round
unfolding hop
fit_round size align sorted region g = elim (checked_add g size) [
  | none ↦ returns (err (plan_error overflow))
  | some end ↦ elim (find (conflicts g end) sorted) [
    | none ↦ returns (ok (record { start = g; end = end }))
    | some c ↦ hop size region g (align_up c.end align)
  ]
]

unfoldable pub fit_loop : ℕ → ℕ → ℕ → List Range → String → ℕ → Result Fault Range
fit_loop zero size align sorted region g = err out_of_fuel
fit_loop (suc fuel) size align sorted region g = elim (fit_round size align sorted region g) [
  | returns r ↦ r
  | again g' ↦ fit_loop fuel size align sorted region g'
]

-- A round that goes on passes the end of a range, so one more round than ranges is enough.
unfoldable pub first_fit : ℕ → ℕ → ℕ → List Range → String → Result Fault Range
unfolding align_up fit_loop fit_round insert_by_start sort_by_start
first_fit start size align occupied region = do
  let sorted = sort_by_start (keep is_nonempty occupied)
  g ← ok_or (plan_error overflow) (align_up start align)
  fit_loop (suc (length sorted)) size align sorted region g
