-- ===== src/Planner/Plan/Window.antt =====
-- The PCI window of src/planner.rs: where it lies, and when it is refused.
use mathlib.Core.Path.{ap₂}
use mathlib.Core.List.{append-nil}
use native.Mathlib.Nat.{pow-le-pow_right}
use arma.Base.{
  ℕ, ◌+◌, ◌-◌, ◌^◌, ◌≤◌, ◌<◌, ◌≡◌, inl, inr, refl, sym, subst, ap, ◌∙◌, arith, false, Bool-cases,
  Option, some, List, [], ◌∷◌, ◌++◌, map, ltb, ltb→lt, lt→ltb, ◌==◌, if◌then◌else◌, ok, err,
  bind-eq-ok, ok-injective, refuse_if, some_of_ok_or,
}
use arma.Base.Bits.{u64_mod, checked_add-some}
use arma.Planner.Fit.{Range, gran, add_u64, plan_error, window_too_large}
use arma.Planner.Fit.Align.{outward, round_out-fits}
use arma.Planner.Plan.{ArgsSpec, plan_window, place_window, occupy, shl_one, minus_one, add_u32}
use arma.Planner.Plan.Whole.{occupy-eq}
use arma.Planner.Plan.Stages.{opt}

pub shl_one-eq : (n v : ℕ) → shl_one n ≡ ok v → (n < 64) × (v ≡ 2 ^ n)
shl_one-eq n v h = elim (Bool-cases (ltb n 64)) [
  | inl e ↦ (ltb→lt n 64 e, sym (ok-injective _ _ (rw e at h)))
  | inr e ↦ cc (rw e at h)
]

pub minus_one-eq : (n v : ℕ) → minus_one n ≡ ok v → v ≡ n - 1
minus_one-eq n v h = elim (Bool-cases (n == 0)) [
  | inl e ↦ cc (rw e at h)
  | inr e ↦ sym (ok-injective _ _ (rw e at h))
]

-- The window, if there is one: it lies at 2^(A-1) and takes 2^B bytes.
abbrev WindowPlaced : ArgsSpec → List Range → Option Range × List Range → Type 0
WindowPlaced args os t =
    (t.1 ≡ os ++ map outward (opt t.0))
    × (t.0
        ≡ some (record {
          start = 2 ^ (args.addr_space_bits - 1);
          end = 2 ^ (args.addr_space_bits - 1) + 2 ^ args.window_bits;
        }))

place_window_stage :
    (args : ArgsSpec) (os : List Range) (t : Option Range × List Range)
    → place_window args os ≡ ok t
    → WindowPlaced args os t
unfolding place_window
place_window_stage args os t h =
    let (needed, e0, h0) = bind-eq-ok (add_u32 args.window_bits 2) _ h in
    let (u, e1, h1) = bind-eq-ok (refuse_if (ltb args.addr_space_bits needed) _) _ h0 in
    let (top, e2, h2) = bind-eq-ok (minus_one args.addr_space_bits) _ h1 in
    let (base, e3, h3) = bind-eq-ok (shl_one top) _ h2 in
    let (size, e4, h4) = bind-eq-ok (shl_one args.window_bits) _ h3 in
    let (end, e5, h5) = bind-eq-ok (add_u64 base size) _ h4 in
    let w : Range = record { start = base; end = end } in
    let (os1, e6, h6) = bind-eq-ok (occupy w os) _ h5 in
    let (below, base_eq) = shl_one-eq top base e3 in
    let base_fits : base < u64_mod =
      omega (arith, pow-le-pow_right {n = 2} (omega arith) {i = top} {j = 63} (omega arith)) in
    let start_eq : base ≡ 2 ^ (args.addr_space_bits - 1) =
      base_eq ∙ ap (λ t. 2 ^ t) (minus_one-eq _ top e2) in
    let end_eq : end ≡ 2 ^ (args.addr_space_bits - 1) + 2 ^ args.window_bits =
      checked_add-some _ _ (some_of_ok_or _ _ e5)
      ∙ ap₂ (λ x y. x + y) start_eq (shl_one-eq _ size e4).1 in
    subst (WindowPlaced args os) (ok-injective _ _ h6) (
      occupy-eq w os os1 base_fits e6,
      ap₂ (λ x y. some (record { start = x; end = y })) start_eq end_eq,
    )

-- The ranges occupied behind the window are those before it, and the window rounded out.
pub window_stage :
    (args : ArgsSpec) (os : List Range) (window : Option Range) (os' : List Range)
    → plan_window args os ≡ ok (window, os')
    → os' ≡ os ++ map outward (opt window)
unfolding plan_window
window_stage args os window os' h = elim (Bool-cases (ltb 0 args.pci_slots)) [
  | inl e ↦ (place_window_stage args os (window, os') (rw e at h)).0
  | inr e ↦
      subst (λ (t : Option Range × List Range). t.1 ≡ os ++ map outward (opt t.0))
        (ok-injective _ _ (rw e at h)) (sym (append-nil os))
]

-- Where the board has PCI slots, a window that `plan_window` returns lies at 2^(A-1) and takes
-- 2^B bytes.
pub window_extent :
    (args : ArgsSpec) (os : List Range) (window : Option Range) (os' : List Range)
    → 0 < args.pci_slots
    → plan_window args os ≡ ok (window, os')
    → window
      ≡ some (record {
        start = 2 ^ (args.addr_space_bits - 1);
        end = 2 ^ (args.addr_space_bits - 1) + 2 ^ args.window_bits;
      })
unfolding plan_window
window_extent args os window os' slots h =
    (place_window_stage args os (window, os') (rw (lt→ltb 0 args.pci_slots slots) at h)).1

-- The window that the address space and the window bits ask for.
abbrev pub window_of : ArgsSpec → Range
window_of args = record {
  start = 2 ^ (args.addr_space_bits - 1);
  end = 2 ^ (args.addr_space_bits - 1) + 2 ^ args.window_bits;
}

window_end : (a b : ℕ) → a ≤ 64 → b + 2 ≤ a → 2 ^ (a - 1) + 2 ^ b ≤ 2 ^ 63 + 2 ^ 62
window_end a b h k = omega (
  arith,
  pow-le-pow_right {n = 2} (omega arith) {i = a - 1} {j = 63} (omega arith),
  pow-le-pow_right {n = 2} (omega arith) {i = b} {j = 62} (omega arith),
)

occupy_fits :
    (r : Range) (os : List Range)
    → r.start < u64_mod
    → r.end + (gran - 1) < u64_mod
    → occupy r os ≡ ok (os ++ outward r ∷ [])
unfolding occupy
occupy_fits r os hs he = rw (round_out-fits r hs he)

-- With PCI slots and an address space of at most 64 bits, the window stage refuses a window with
-- B + 2 > A as too large, and for every other it returns the window at 2^(A-1) of 2^B bytes and
-- adds it, rounded out, to the occupied ranges.
pub plan_window_lem :
    (args : ArgsSpec) (os : List Range)
    → 0 < args.pci_slots
    → args.addr_space_bits ≤ 64
    → args.window_bits + 2 < 2 ^ 32
    → plan_window args os ≡ (
        if ltb args.addr_space_bits (args.window_bits + 2)
        then err (plan_error (window_too_large args.window_bits args.addr_space_bits))
        else ok (some (window_of args), os ++ outward (window_of args) ∷ []))
unfolding plan_window place_window
plan_window_lem args os slots narrow bits =
    elim (Bool-cases (ltb args.addr_space_bits (args.window_bits + 2))) [
      | inl e ↦ rw (lt→ltb 0 _ slots, lt→ltb _ _ bits, e) refl
      | inr e ↦
          let fits : args.window_bits + 2 ≤ args.addr_space_bits = ground arith in
          let nonzero : (args.addr_space_bits == 0) ≡ false = ground arith in
          let top = window_end args.addr_space_bits args.window_bits narrow fits in
          rw (
            lt→ltb 0 _ slots,
            lt→ltb _ _ bits,
            e,
            nonzero,
            lt→ltb (args.addr_space_bits - 1) 64 (omega arith),
            lt→ltb args.window_bits 64 (omega arith),
            lt→ltb (2 ^ (args.addr_space_bits - 1) + 2 ^ args.window_bits) u64_mod (omega arith),
            occupy_fits (window_of args) os (omega arith) (omega arith),
          )
    ]
