-- ===== src/Validate/Merged/Collect.antt =====
-- What the walk of validate_merged gathers (deps/tatu/src/validate.rs): the regions that the
-- tree declares, each in range, within the capacities.
use mathlib.Core.List.{append_assoc, append-nil}
use arma.Base.{
  ℕ, ◌+◌, ◌/◌, ◌≤◌, ◌≡◌, inl, inr, sym, subst, ap, ◌∙◌, arith, Bool, true, false, Bool-cases,
  Option, none, some, List, [], ◌∷◌, ◌++◌, map, ltb, ltb→lt, if◌then◌else◌, length, length-append,
  All, All-append, ok, ok_or, not, ◌==◌, ◌%◌, bind-eq-ok, ok-injective, some_of_ok_or, refuse_if,
  refuse_if-ok, ◌>>=◌,
}
use arma.Base.Bits.{checked_add, checked_add-some}
use arma.Base.Text.{Bytes, codes}
use arma.Devtree.{Devtree}
use arma.Validate.Region.{
  ValidationError, Region, IsInRange, parse_one_region, chunks, validate_region,
  validate_region_iff, too_many_cpus, too_many_memory_regions, too_many_device_ranges,
  bad_property_shape,
}
use arma.Validate.Merged.{
  Collected, max_cpus, max_memory_regions, max_device_ranges, try_push, push_chunks, extract_bytes,
  bytes_of, segment_is, extract_regs, count_cpus, collect_child, collect,
}

-- The regions `rs` were pushed behind `old`: all in range, and the capacity holds.
pub record Pushed (pa_bits cap : ℕ) (old rs out : List Region) : Type 0 where
  pub appended : out ≡ old ++ rs
  pub in_range : All (IsInRange pa_bits) rs
  pub capped : length old ≤ cap → length out ≤ cap

module _ (pa_bits cap : ℕ) (full : ValidationError) where
  try_push-eq :
      (r : Region) (old out : List Region)
      → try_push cap r old full ≡ ok out
      → (out ≡ old ++ r ∷ []) × (length out ≤ cap)
  try_push-eq r old out h = elim (Bool-cases (ltb (length old) cap)) [
    | inl e ↦
        let same : out ≡ old ++ r ∷ [] = sym (ok-injective _ _ (rw e at h)) in
        (same, rw same (omega (arith, length-append old (r ∷ []), ltb→lt (length old) cap e)))
    | inr e ↦ cc (rw e at h)
  ]

  push_chunks-Pushed :
      (cs : List Bytes) (old out : List Region)
      → push_chunks cs cap old pa_bits full ≡ ok out
      → Pushed pa_bits cap old (map parse_one_region cs) out
  unfolding push_chunks
  push_chunks-Pushed [] old out h = record {
    appended = sym (ok-injective _ _ h) ∙ sym (append-nil old);
    in_range = tt;
    capped = λ k. rw (sym (ok-injective _ _ h)) k;
  }
  push_chunks-Pushed (c ∷ cs) old out h =
      let r = parse_one_region c in
      let (u, e0, h0) = bind-eq-ok (validate_region r pa_bits) _ h in
      let (old', e1, h1) = bind-eq-ok (try_push cap r old full) _ h0 in
      let rest = push_chunks-Pushed cs old' out h1 in
      let (grown, fits) = try_push-eq r old old' e1 in
      record {
        appended =
            rest.appended
            ∙ ap (λ t. t ++ map parse_one_region cs) grown
            ∙ append_assoc old (r ∷ []) (map parse_one_region cs);
        in_range = (((validate_region_iff r pa_bits).0.0 e0).1, rest.in_range);
        capped = λ _. rest.capped fits;
      }

  Pushed-none : (old : List Region) → Pushed pa_bits cap old [] old
  Pushed-none old = record { appended = sym (append-nil old); in_range = tt; capped = λ k. k }

  Pushed-trans :
      (old mid out rs rs' : List Region)
      → Pushed pa_bits cap old rs mid
      → Pushed pa_bits cap mid rs' out
      → Pushed pa_bits cap old (rs ++ rs') out
  Pushed-trans old mid out rs rs' p q = record {
    appended = q.appended ∙ ap (λ t. t ++ rs') p.appended ∙ append_assoc old rs rs';
    in_range = All-append (IsInRange pa_bits) rs rs' p.in_range q.in_range;
    capped = λ k. q.capped (p.capped k);
  }

-- The regions of a `reg` property.
abbrev pub regions_in : Bytes → List Region
regions_in reg = map parse_one_region (chunks (length reg / 16) reg)

module _ (dt : Devtree) where
  open dt use {Node, children}

  -- What a tree declares, read off without any check.
  pub regs_of : Node → List Region
  regs_of node = elim (bytes_of dt node (codes "reg")) [ none ↦ [] | some reg ↦ regions_in reg ]

  -- The part of one child, by what its name says.
  abbrev pub memory_if : Bool → Bool → Node → List Region
  memory_if is_cpus is_memory n = if is_cpus then [] else if is_memory then regs_of n else []

  abbrev pub devices_if : Bool → Bool → Node → List Region
  devices_if is_cpus is_memory n = if is_cpus then [] else if is_memory then [] else regs_of n

  abbrev pub cpus_if : Bool → Node → ℕ
  cpus_if is_cpus n = if is_cpus then length (children n) else 0

  pub memory_of : List Node → List Region
  memory_of [] = []
  memory_of (n ∷ ns) =
      memory_if (segment_is dt n (codes "cpus")) (segment_is dt n (codes "memory")) n
      ++ memory_of ns

  pub devices_of : List Node → List Region
  devices_of [] = []
  devices_of (n ∷ ns) =
      devices_if (segment_is dt n (codes "cpus")) (segment_is dt n (codes "memory")) n
      ++ devices_of ns

  pub cpus_of : List Node → ℕ
  cpus_of [] = 0
  cpus_of (n ∷ ns) = cpus_if (segment_is dt n (codes "cpus")) n + cpus_of ns

  module _ (pa_bits cap : ℕ) (full : ValidationError) (old out : List Region) where
    reg-Pushed :
        (reg : Option Bytes)
        → (elim reg [ none ↦ ok old | some b ↦ extract_bytes b cap old pa_bits full ]) ≡ ok out
        → Pushed pa_bits cap old (elim reg [ none ↦ [] | some b ↦ regions_in b ]) out
    unfolding extract_bytes
    reg-Pushed none h =
        subst (Pushed pa_bits cap old []) (ok-injective _ _ h) (Pushed-none pa_bits cap full old)
    reg-Pushed (some b) h =
        let (u, e, h0) = bind-eq-ok (refuse_if (not (length b % 16 == 0)) bad_property_shape) _ h in
        push_chunks-Pushed pa_bits cap full (chunks (length b / 16) b) old out h0

    extract_regs-Pushed :
        (node : Node)
        → extract_regs dt node cap old pa_bits full ≡ ok out
        → Pushed pa_bits cap old (regs_of node) out
    unfolding extract_regs regs_of
    extract_regs-Pushed node h = reg-Pushed (bytes_of dt node (codes "reg")) h

  count_cpus-eq :
      (cs : List Node) (count n : ℕ)
      → count_cpus dt cs count ≡ ok n
      → (n ≡ count + length cs) × (count ≤ max_cpus → n ≤ max_cpus)
  unfolding count_cpus
  count_cpus-eq [] count n h = let e = ok-injective _ _ h in (omega arith, λ k. omega arith)
  count_cpus-eq (c ∷ cs) count n h =
      let (count', e0, h0) = bind-eq-ok (ok_or too_many_cpus (checked_add count 1)) _ h in
      let (u, e1, h1) = bind-eq-ok (refuse_if (ltb max_cpus count') _) _ h0 in
      let next = checked_add-some count 1 (some_of_ok_or _ _ e0) in
      let below = refuse_if-ok _ _ e1 in
      let rest = count_cpus-eq cs count' n h1 in (omega (arith, rest.0), λ _. rest.1 (ground arith))

  -- The walk over `ns` from `old` to `new`: it gathers what the nodes declare.
  pub record Gathered (pa_bits : ℕ) (old : Collected) (ns : List Node) (new : Collected)
      : Type 0 where
    pub memory : Pushed pa_bits max_memory_regions old.memory (memory_of ns) new.memory
    pub devices : Pushed pa_bits max_device_ranges old.devices (devices_of ns) new.devices
    pub cpus : new.cpu_count ≡ old.cpu_count + cpus_of ns
    pub capped : old.cpu_count ≤ max_cpus → new.cpu_count ≤ max_cpus

  record GatheredOne (pa_bits : ℕ) (old : Collected) (is_cpus is_memory : Bool) (n : Node)
      (new : Collected) : Type 0 where
    memory : Pushed pa_bits max_memory_regions old.memory (memory_if is_cpus is_memory n) new.memory
    devices :
        Pushed pa_bits max_device_ranges old.devices (devices_if is_cpus is_memory n) new.devices
    cpus : new.cpu_count ≡ old.cpu_count + cpus_if is_cpus n
    capped : old.cpu_count ≤ max_cpus → new.cpu_count ≤ max_cpus

  module _ (pa_bits : ℕ) (n : Node) (old new : Collected) where
    kind-GatheredOne :
        (is_cpus is_memory : Bool)
        → (if is_cpus
            then (do
              k ← count_cpus dt (children n) old.cpu_count
              ok (record old { cpu_count = k }))
            else if is_memory
            then (do
              memory ←
                  extract_regs dt n max_memory_regions old.memory pa_bits too_many_memory_regions
              ok (record old { memory = memory }))
            else (do
              devices ←
                  extract_regs dt n max_device_ranges old.devices pa_bits too_many_device_ranges
              ok (record old { devices = devices })))
          ≡ ok new
        → GatheredOne pa_bits old is_cpus is_memory n new
    kind-GatheredOne true is_memory h =
        let (k, e, h') = bind-eq-ok (count_cpus dt (children n) old.cpu_count) _ h in
        let (counted, capped) = count_cpus-eq (children n) old.cpu_count k e in
        subst (GatheredOne pa_bits old true is_memory n) (ok-injective _ _ h') (record {
          memory = Pushed-none pa_bits max_memory_regions too_many_memory_regions old.memory;
          devices = Pushed-none pa_bits max_device_ranges too_many_device_ranges old.devices;
          cpus = counted;
          capped = capped;
        })
    kind-GatheredOne false true h =
        let (rs, e, h') =
          bind-eq-ok
            (extract_regs dt n max_memory_regions old.memory pa_bits too_many_memory_regions) _ h in
        subst (GatheredOne pa_bits old false true n) (ok-injective _ _ h') (record {
          memory =
              extract_regs-Pushed pa_bits max_memory_regions too_many_memory_regions old.memory rs n
                e;
          devices = Pushed-none pa_bits max_device_ranges too_many_device_ranges old.devices;
          cpus = omega arith;
          capped = λ k. k;
        })
    kind-GatheredOne false false h =
        let (rs, e, h') =
          bind-eq-ok
            (extract_regs dt n max_device_ranges old.devices pa_bits too_many_device_ranges) _ h in
        subst (GatheredOne pa_bits old false false n) (ok-injective _ _ h') (record {
          memory = Pushed-none pa_bits max_memory_regions too_many_memory_regions old.memory;
          devices =
              extract_regs-Pushed pa_bits max_device_ranges too_many_device_ranges old.devices rs n
                e;
          cpus = omega arith;
          capped = λ k. k;
        })

  pub collect-Gathered :
      (pa_bits : ℕ) (ns : List Node) (old new : Collected)
      → collect dt pa_bits ns old ≡ ok new
      → Gathered pa_bits old ns new
  unfolding collect memory_of devices_of cpus_of
  collect-Gathered pa_bits [] old new h =
      subst (Gathered pa_bits old []) (ok-injective _ _ h) (record {
        memory = Pushed-none pa_bits max_memory_regions too_many_memory_regions old.memory;
        devices = Pushed-none pa_bits max_device_ranges too_many_device_ranges old.devices;
        cpus = omega arith;
        capped = λ k. k;
      })
  collect-Gathered pa_bits (n ∷ ns) old new h =
      let (mid, e, h') = bind-eq-ok (collect_child dt pa_bits n old) _ h in
      let cpus = segment_is dt n (codes "cpus") in
      let mem = segment_is dt n (codes "memory") in
      let one = kind-GatheredOne pa_bits n old mid cpus mem e in
      let rest = collect-Gathered pa_bits ns mid new h' in
      record {
        memory =
            Pushed-trans pa_bits max_memory_regions too_many_memory_regions old.memory mid.memory
              new.memory (memory_if cpus mem n) (memory_of ns) one.memory rest.memory;
        devices =
            Pushed-trans pa_bits max_device_ranges too_many_device_ranges old.devices mid.devices
              new.devices (devices_if cpus mem n) (devices_of ns) one.devices rest.devices;
        cpus = omega (arith, one.cpus, rest.cpus);
        capped = λ k. rest.capped (one.capped k);
      }
