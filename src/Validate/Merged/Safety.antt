-- ===== src/Validate/Merged/Safety.antt =====
-- What an accepted tree guarantees (deps/tatu/src/validate.rs: validate_merged).
use mathlib.Core.Path.{subst₂}
use arma.Base.{
  ℕ, ◌+◌, ◌≤◌, ◌≡◌, ◌⊎◌, inl, inr, subst, arith, Bool, true, false, Bool-cases, not, Option, none,
  some, List, [], ◌∷◌, if◌then◌else◌, ◌||◌, ◌==◌, length, any, All, All-map, ok, bind-eq-ok,
  ok-injective, refuse_if, refuse_if-ok,
}
use arma.Base.Text.{Bytes, codes, from_be_bytes}
use arma.Devtree.{Devtree}
use arma.Validate.Region.{
  Region, IsInRange, validate_region, validate_region_iff, regions_overlap, region_contains,
  memory_overlaps_device, cpu_release_addr_unsafe,
}
use arma.Validate.Merged.{
  nothing, max_cpus, max_memory_regions, max_device_ranges, bytes_of, segment_is, collect,
  semantic_overlap_checks, parse_release_addr, check_release_addr, check_cpu, check_cpus,
  validate_cpu_release_addrs, validate_merged,
}
use arma.Validate.Merged.Collect.{memory_of, devices_of, cpus_of, collect-Gathered}

-- One region ends at or before the other starts.
abbrev pub Clear : Region → Region → Type 0
Clear a b = (a.gpa + a.size ≤ b.gpa) ⊎ (b.gpa + b.size ≤ a.gpa)

-- One region lies within the other.
abbrev pub Within : Region → Region → Type 0
Within inner outer = (outer.gpa ≤ inner.gpa) × (inner.gpa + inner.size ≤ outer.gpa + outer.size)

-- Some element of the list satisfies `P`.
abbrev pub Some {ℓ} : {A : Type ℓ} → (A → Type 0) → List A → Type 0
Some P [] = ⊥
Some P (x ∷ xs) = P x ⊎ Some P xs

any-false {ℓ} :
    {A : Type ℓ} (p : A → Bool) (xs : List A) → any p xs ≡ false → All (λ x. p x ≡ false) xs
any-false p [] h = tt
any-false p (x ∷ xs) h = elim (Bool-cases (p x)) [
  | inl e ↦ cc (rw e at h)
  | inr e ↦ (e, any-false p xs (rw e at h))
]

any-Some {ℓ} :
    {A : Type ℓ} (p : A → Bool) (P : A → Type 0)
    → ((x : A) → p x ≡ true → P x)
    → (xs : List A) → any p xs ≡ true
    → Some P xs
any-Some p P f [] h = cc
any-Some p P f (x ∷ xs) h = elim (Bool-cases (p x)) [
  | inl e ↦ inl (f x e)
  | inr e ↦ inr (any-Some p P f xs (rw e at h))
]

overlap-Clear : (a b : Region) → regions_overlap a b ≡ false → Clear a b
unfolding regions_overlap
overlap-Clear a b h = ground arith

contains-Within : (outer inner : Region) → region_contains outer inner ≡ true → Within inner outer
unfolding region_contains
contains-Within outer inner h = ground arith

overlap_checks-Clear :
    (ms ds : List Region) {u : Unit {0}}
    → semantic_overlap_checks ms ds ≡ ok u
    → All (λ m. All (Clear m) ds) ms
unfolding semantic_overlap_checks
overlap_checks-Clear [] ds h = tt
overlap_checks-Clear (m ∷ ms) ds h =
    let (u, e, h') =
      bind-eq-ok (refuse_if (any (λ d. regions_overlap m d) ds) memory_overlaps_device) _ h in
    (
      All-map (λ d. regions_overlap m d ≡ false) (Clear m) (λ d k. overlap-Clear m d k) ds
          (any-false (λ d. regions_overlap m d) ds (refuse_if-ok _ _ e)),
      overlap_checks-Clear ms ds h',
    )

-- The eight bytes that a release address names.
abbrev pub release_target : Bytes → Region
release_target b = record { gpa = from_be_bytes b; size = 8 }

-- A release address that the kernel may write to: one or two cells, in range, off every device
-- and inside a memory region. A node without one needs nothing.
abbrev pub ReleaseSafe : ℕ → List Region → List Region → Option Bytes → Type 0
ReleaseSafe pa_bits memory devices none = Unit
ReleaseSafe pa_bits memory devices (some b) =
    ((length b ≡ 8) ⊎ (length b ≡ 4))
    × IsInRange pa_bits (release_target b)
    × All (Clear (release_target b)) devices
    × Some (Within (release_target b)) memory

parse-eq :
    (b : Bytes) (addr : ℕ)
    → parse_release_addr b ≡ ok addr
    → ((length b ≡ 8) ⊎ (length b ≡ 4)) × (from_be_bytes b ≡ addr)
unfolding parse_release_addr
parse-eq b addr h = elim (Bool-cases (length b == 8 || length b == 4)) [
  | inl e ↦ (ground arith, ok-injective _ _ (rw e at h))
  | inr e ↦ cc (rw e at h)
]

check_release_addr-ReleaseSafe :
    (b : Bytes) (memory devices : List Region) (pa_bits : ℕ) {u : Unit {0}}
    → check_release_addr b memory devices pa_bits ≡ ok u
    → ReleaseSafe pa_bits memory devices (some b)
unfolding check_release_addr
check_release_addr-ReleaseSafe b memory devices pa_bits h =
    let (addr, e0, h0) = bind-eq-ok (parse_release_addr b) _ h in
    let (shape, same) = parse-eq b addr e0 in
    let target : Region = record { gpa = addr; size = 8 } in
    let (u1, e1, h1) = bind-eq-ok (validate_region target pa_bits) _ h0 in
    let (u2, e2, h2) =
      bind-eq-ok (refuse_if (any (λ d. regions_overlap target d) devices) cpu_release_addr_unsafe) _
        h1 in
    let (u3, e3, h3) =
      bind-eq-ok
        (refuse_if (not (any (λ m. region_contains m target) memory)) cpu_release_addr_unsafe) _
        h2 in
    let found : any (λ m. region_contains m target) memory ≡ true =
      ground (arith, refuse_if-ok _ _ e3) in
    (
      shape,
      rw same (((validate_region_iff target pa_bits).0.0 e1).1),
      rw same (
          All-map (λ d. regions_overlap target d ≡ false) (Clear target)
            (λ d k. overlap-Clear target d k) devices
            (any-false (λ d. regions_overlap target d) devices (refuse_if-ok _ _ e2))),
      rw same (
          any-Some (λ m. region_contains m target) (Within target)
            (λ m k. contains-Within m target k) memory found),
    )

module _ (dt : Devtree) where
  open dt use {Node, Tree, root, children}

  abbrev release_addr : Node → Option Bytes
  release_addr cpu = bytes_of dt cpu (codes "cpu-release-addr")

  -- Every release address below a `/cpus` node is safe.
  abbrev pub CpusSafe : ℕ → List Region → List Region → Bool → Node → Type 0
  CpusSafe pa_bits memory devices true n =
      All (λ cpu. ReleaseSafe pa_bits memory devices (release_addr cpu)) (children n)
  CpusSafe pa_bits memory devices false n = Unit

  module _ (pa_bits : ℕ) (memory devices : List Region) where
    release-ReleaseSafe :
        (o : Option Bytes) {u : Unit {0}}
        → (elim o [ none ↦ ok tt | some b ↦ check_release_addr b memory devices pa_bits ]) ≡ ok u
        → ReleaseSafe pa_bits memory devices o
    release-ReleaseSafe none h = tt
    release-ReleaseSafe (some b) h = check_release_addr-ReleaseSafe b memory devices pa_bits h

    check_cpus-ReleaseSafe :
        (cpus : List Node) {u : Unit {0}}
        → check_cpus dt cpus memory devices pa_bits ≡ ok u
        → All (λ cpu. ReleaseSafe pa_bits memory devices (release_addr cpu)) cpus
    unfolding check_cpus check_cpu
    check_cpus-ReleaseSafe [] h = tt
    check_cpus-ReleaseSafe (cpu ∷ cpus) h =
        let (u, e, h') = bind-eq-ok (check_cpu dt cpu memory devices pa_bits) _ h in
        (release-ReleaseSafe (release_addr cpu) e, check_cpus-ReleaseSafe cpus h')

    kind-CpusSafe :
        (is_cpus : Bool) (n : Node) {u : Unit {0}}
        → (if is_cpus then check_cpus dt (children n) memory devices pa_bits else ok tt) ≡ ok u
        → CpusSafe pa_bits memory devices is_cpus n
    kind-CpusSafe true n h = check_cpus-ReleaseSafe (children n) h
    kind-CpusSafe false n h = tt

    release_addrs-CpusSafe :
        (ns : List Node) {u : Unit {0}}
        → validate_cpu_release_addrs dt ns memory devices pa_bits ≡ ok u
        → All (λ n. CpusSafe pa_bits memory devices (segment_is dt n (codes "cpus")) n) ns
    unfolding validate_cpu_release_addrs
    release_addrs-CpusSafe [] h = tt
    release_addrs-CpusSafe (n ∷ ns) h =
        let is_cpus = segment_is dt n (codes "cpus") in
        let (u, e, h') =
          bind-eq-ok (if is_cpus then check_cpus dt (children n) memory devices pa_bits else ok tt)
            _ h in
        (kind-CpusSafe is_cpus n e, release_addrs-CpusSafe ns h')

  -- The map of a tree that the boot stub may hand on to the kernel.
  pub record IsSafeMap (pa_bits : ℕ) (tree : Tree) : Type 0 where
    pub memory_in_range : All (IsInRange pa_bits) (memory_of dt (children (root tree)))
    pub devices_in_range : All (IsInRange pa_bits) (devices_of dt (children (root tree)))
    pub memory_bound : length (memory_of dt (children (root tree))) ≤ max_memory_regions
    pub devices_bound : length (devices_of dt (children (root tree))) ≤ max_device_ranges
    pub cpus_bound : cpus_of dt (children (root tree)) ≤ max_cpus
    pub apart :
        All
          (λ m. All (Clear m) (devices_of dt (children (root tree))))
          (memory_of dt (children (root tree)))
    pub release :
        All
          (λ n.
            CpusSafe pa_bits
              (memory_of dt (children (root tree)))
              (devices_of dt (children (root tree)))
              (segment_is dt n (codes "cpus"))
              n)
          (children (root tree))

  -- A tree that `validate_merged` accepts declares at most 2048 cpus, 32 memory regions and 64
  -- device regions; every region is not empty and ends within 2^pa_bits; no memory region meets
  -- a device region; and every release address has one or two cells and names eight bytes inside
  -- a memory region and off every device.
  pub validate_merged-IsSafeMap :
      (tree : Tree) (pa_bits : ℕ) → validate_merged dt tree pa_bits ≡ ok tt → IsSafeMap pa_bits tree
  unfolding validate_merged
  validate_merged-IsSafeMap tree pa_bits h =
      let ns = children (root tree) in
      let (c, e0, h0) = bind-eq-ok (collect dt pa_bits ns nothing) _ h in
      let (u1, e1, h1) = bind-eq-ok (semantic_overlap_checks c.memory c.devices) _ h0 in
      let g = collect-Gathered dt pa_bits ns nothing c e0 in
      let memory_eq : c.memory ≡ memory_of dt ns = g.memory.appended in
      let devices_eq : c.devices ≡ devices_of dt ns = g.devices.appended in
      record {
        memory_in_range = g.memory.in_range;
        devices_in_range = g.devices.in_range;
        memory_bound =
            subst (λ t. length t ≤ max_memory_regions) memory_eq (g.memory.capped (omega arith));
        devices_bound =
            subst (λ t. length t ≤ max_device_ranges) devices_eq (g.devices.capped (omega arith));
        cpus_bound = omega (arith, g.cpus, g.capped (omega arith));
        apart =
            subst₂ (λ m d. All (λ r. All (Clear r) d) m) memory_eq devices_eq
              (overlap_checks-Clear c.memory c.devices e1);
        release =
            subst₂ (λ m d. All (λ n. CpusSafe pa_bits m d (segment_is dt n (codes "cpus")) n) ns)
              memory_eq devices_eq (release_addrs-CpusSafe pa_bits c.memory c.devices ns h1);
      }
