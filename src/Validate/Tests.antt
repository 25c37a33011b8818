-- ===== src/Validate/Tests.antt =====
-- A small tree and overlay, and the validation theorems at them (deps/tatu/src/validate.rs).
use arma.Base.{
  ℕ, ◌+◌, ◌≤◌, ◌<◌, ◌≡◌, ◌↔◌, refl, Option, none, some, List, [], ◌∷◌, ◌++◌, ◌==◌, if◌then◌else◌,
  All, ok, err,
}
use arma.Base.Text.{Bytes, codes, bytes_eq}
use arma.Base.Bits.{u64_mod}
use arma.Devtree.{Devtree}
use arma.Validate.Region.{
  IsInRange, validate_region, validate_region_iff, chunks, parse_one_region, regions_overlap,
  region_contains, non_canonical_gpa, shift_overflow,
}
use arma.Validate.Merged.{validate_merged}
use arma.Validate.Merged.Safety.{IsSafeMap, validate_merged-IsSafeMap}
use arma.Validate.Host.{path, Fragment, validate_host_dtbo}
use arma.Validate.Host.Allowed.{FragmentAllowed, validate_host_dtbo-Allowed}

abbrev Prop : Type 0
Prop = Bytes × Bytes

abbrev lookup : Bytes → List Prop → Option Prop
lookup key [] = none
lookup key ((k, v) ∷ ps) = if bytes_eq k key then some (k, v) else lookup key ps

-- A 64-bit cell pair with a value below 2^16 in its upper half.
abbrev cells : ℕ → ℕ → Bytes
cells hi lo = 0 ∷ 0 ∷ 0 ∷ hi ∷ lo ∷ 0 ∷ 0 ∷ 0 ∷ []

-- 0: the root. 1: memory. 2: cpus, with 3: a cpu. 4: a serial port. 5: an overlay's root.
abbrev sample_properties : ℕ → List Prop
sample_properties n =
    if n == 1
    then (codes "reg", cells 0 0x40 ++ cells 0 0x40) ∷ []
    else if n == 3
    then (codes "cpu-release-addr", cells 0 0x41) ∷ []
    else if n == 4
    then (codes "reg", cells 0 0x09 ++ cells 0 0x01) ∷ []
    else []

abbrev sample_children : ℕ → List ℕ
sample_children n =
    if n == 0 then 1 ∷ 2 ∷ 4 ∷ [] else if n == 2 then 3 ∷ [] else if n == 5 then 1 ∷ 2 ∷ [] else []

abbrev sample_name : ℕ → Bytes
sample_name n =
    if n == 1
    then codes "memory@40000000"
    else if n == 2
    then codes "cpus"
    else if n == 3
    then codes "cpu@0"
    else if n == 4
    then codes "serial@9000000"
    else []

abbrev sample : Devtree
sample = record {
  Node = ℕ;
  Property = Prop;
  Tree = ℕ;
  root = λ t. t;
  find_path = λ t p. if bytes_eq p (codes "/") then some t else none;
  name = sample_name;
  children = sample_children;
  properties = sample_properties;
  property = λ n key. lookup key (sample_properties n);
  property_name = λ p. p.0;
  bytes = λ p. p.1;
  as_u32s = λ p. none;
  as_strs = λ p. none;
}

sample_accepted : validate_merged sample 0 48 ≡ ok tt
unfolding validate_merged chunks validate_region parse_one_region regions_overlap region_contains
sample_accepted = refl

validate_merged-IsSafeMap_example : IsSafeMap sample 48 0
validate_merged-IsSafeMap_example = validate_merged-IsSafeMap sample 0 48 sample_accepted

-- The same tree under a narrower address space.
sample_too_narrow : validate_merged sample 0 30 ≡ err non_canonical_gpa
unfolding validate_merged chunks validate_region parse_one_region
sample_too_narrow = refl

abbrev overlay : List (Fragment sample)
overlay = record { target = path (codes "//"); node = 5 } ∷ []

overlay_accepted : validate_host_dtbo sample overlay 0 ≡ ok tt
unfolding validate_host_dtbo chunks parse_one_region
overlay_accepted = refl

validate_host_dtbo-Allowed_example : All (FragmentAllowed sample 0) overlay
validate_host_dtbo-Allowed_example = validate_host_dtbo-Allowed sample overlay 0 overlay_accepted

validate_region_iff_example :
    ((validate_region (record { gpa = 16; size = 16 }) 5 ≡ ok tt)
      ↔ ((5 < 64) × IsInRange 5 (record { gpa = 16; size = 16 })))
    × ((validate_region (record { gpa = 16; size = 16 }) 5 ≡ err shift_overflow)
        ↔ ((64 ≤ 5) × (0 < 16) × (16 + 16 < u64_mod)))
validate_region_iff_example = validate_region_iff (record { gpa = 16; size = 16 }) 5
