-- ===== src/Validate/Merged.antt =====
-- Validation of the merged tree (deps/tatu/src/validate.rs: validate_merged, count_cpus,
-- extract_regs, semantic_overlap_checks, validate_cpu_release_addrs, parse_release_addr).
pub mod Collect
pub mod Safety
use mathlib.Core.Option
use arma.Base.{
  ℕ, zero, suc, ◌+◌, ◌/◌, ◌%◌, Bool, true, false, not, Option, none, some, List, [], ◌∷◌, ◌++◌, map,
  ltb, ◌==◌, ◌||◌, if◌then◌else◌, any, length, Result, ok, err, ok_or, refuse_if, ◌>>=◌, ◌>>◌,
}
use arma.Base.Bits.{checked_add}
use arma.Base.Text.{Bytes, codes, bytes_eq, from_be_bytes}
use arma.Devtree.{Devtree, top_segment}
use arma.Validate.Region.{
  ValidationError, too_many_cpus, too_many_memory_regions, too_many_device_ranges,
  bad_property_shape, memory_overlaps_device, cpu_release_addr_unsafe, Region, validate_region,
  regions_overlap, region_contains, parse_one_region, chunks,
}

abbrev pub max_cpus : ℕ
max_cpus = 2048

abbrev pub max_memory_regions : ℕ
max_memory_regions = 32

abbrev pub max_device_ranges : ℕ
max_device_ranges = 64

-- What the walk over the root's children gathers.
pub record Collected : Type 0 where
  pub memory : List Region
  pub devices : List Region
  pub cpu_count : ℕ

abbrev pub nothing : Collected
nothing = record { memory = []; devices = []; cpu_count = 0 }

-- `ArrayVec::try_push` with capacity `cap`
abbrev pub try_push :
    ℕ → Region → List Region → ValidationError → Result ValidationError (List Region)
try_push cap r regions full = if ltb (length regions) cap then ok (regions ++ r ∷ []) else err full

-- The loop of `extract_regs` over the chunks of a `reg` property.
unfoldable pub push_chunks :
    List Bytes → ℕ → List Region → ℕ → ValidationError → Result ValidationError (List Region)
push_chunks [] cap regions pa_bits full = ok regions
push_chunks (c ∷ cs) cap regions pa_bits full = do
  let r = parse_one_region c
  validate_region r pa_bits
  regions' ← try_push cap r regions full
  push_chunks cs cap regions' pa_bits full

-- `extract_regs` on the bytes of a `reg` property that is there.
unfoldable pub extract_bytes :
    Bytes → ℕ → List Region → ℕ → ValidationError → Result ValidationError (List Region)
unfolding push_chunks
extract_bytes bytes cap regions pa_bits full = do
  refuse_if (not (length bytes % 16 == 0)) bad_property_shape
  push_chunks (chunks (length bytes / 16) bytes) cap regions pa_bits full

-- A big-endian address of one or two cells.
unfoldable pub parse_release_addr : Bytes → Result ValidationError ℕ
parse_release_addr bytes =
    if length bytes == 8 || length bytes == 4
    then ok (from_be_bytes bytes)
    else err bad_property_shape

-- `semantic_overlap_checks`
unfoldable pub semantic_overlap_checks :
    List Region → List Region → Result ValidationError (Unit {0})
semantic_overlap_checks [] devices = ok tt
semantic_overlap_checks (m ∷ ms) devices = do
  refuse_if (any (λ d. regions_overlap m d) devices) memory_overlaps_device
  semantic_overlap_checks ms devices

-- One release address against the gathered regions.
unfoldable pub check_release_addr :
    Bytes → List Region → List Region → ℕ → Result ValidationError (Unit {0})
unfolding parse_release_addr
check_release_addr bytes memory devices pa_bits = do
  addr ← parse_release_addr bytes
  let target : Region = record { gpa = addr; size = 8 }
  validate_region target pa_bits
  refuse_if (any (λ d. regions_overlap target d) devices) cpu_release_addr_unsafe
  refuse_if (not (any (λ m. region_contains m target) memory)) cpu_release_addr_unsafe
  ok tt

module _ (dt : Devtree) where
  open dt use {Node, Tree, root, name, children, property, bytes}

  abbrev pub segment_is : Node → Bytes → Bool
  segment_is node seg = bytes_eq (top_segment (name node)) seg

  -- `NodeView::property(node, ..)` and its bytes
  abbrev pub bytes_of : Node → Bytes → Option Bytes
  bytes_of node key = Option.map bytes (property node key)

  unfoldable pub extract_regs :
      Node → ℕ → List Region → ℕ → ValidationError → Result ValidationError (List Region)
  unfolding extract_bytes
  extract_regs node cap regions pa_bits full = elim (bytes_of node (codes "reg")) [
    | none ↦ ok regions
    | some reg ↦ extract_bytes reg cap regions pa_bits full
  ]

  -- The loop of `count_cpus` over the children of `/cpus`.
  unfoldable pub count_cpus : List Node → ℕ → Result ValidationError ℕ
  count_cpus [] count = ok count
  count_cpus (c ∷ cs) count = do
    count' ← ok_or too_many_cpus (checked_add count 1)
    refuse_if (ltb max_cpus count') too_many_cpus
    count_cpus cs count'

  -- The body of the loop of `validate_merged`.
  unfoldable pub collect_child : ℕ → Node → Collected → Result ValidationError Collected
  unfolding extract_regs count_cpus
  collect_child pa_bits child c =
      if segment_is child (codes "cpus")
      then (do n ← count_cpus (children child) c.cpu_count; ok (record c { cpu_count = n }))
      else if segment_is child (codes "memory")
      then (do
        memory ← extract_regs child max_memory_regions c.memory pa_bits too_many_memory_regions
        ok (record c { memory = memory }))
      else (do
        devices ← extract_regs child max_device_ranges c.devices pa_bits too_many_device_ranges
        ok (record c { devices = devices }))

  unfoldable pub collect : ℕ → List Node → Collected → Result ValidationError Collected
  unfolding collect_child
  collect pa_bits [] c = ok c
  collect pa_bits (n ∷ ns) c = do c' ← collect_child pa_bits n c; collect pa_bits ns c'

  -- One node below `/cpus`: nothing to check without a release address.
  unfoldable pub check_cpu :
      Node → List Region → List Region → ℕ → Result ValidationError (Unit {0})
  unfolding check_release_addr
  check_cpu cpu memory devices pa_bits = elim (bytes_of cpu (codes "cpu-release-addr")) [
    | none ↦ ok tt
    | some addr ↦ check_release_addr addr memory devices pa_bits
  ]

  -- The loop over the nodes below `/cpus`.
  unfoldable pub check_cpus :
      List Node → List Region → List Region → ℕ → Result ValidationError (Unit {0})
  unfolding check_cpu
  check_cpus [] memory devices pa_bits = ok tt
  check_cpus (cpu ∷ cpus) memory devices pa_bits =
      check_cpu cpu memory devices pa_bits >> check_cpus cpus memory devices pa_bits

  -- `validate_cpu_release_addrs`, over the root's children
  unfoldable pub validate_cpu_release_addrs :
      List Node → List Region → List Region → ℕ → Result ValidationError (Unit {0})
  unfolding check_cpus
  validate_cpu_release_addrs [] memory devices pa_bits = ok tt
  validate_cpu_release_addrs (n ∷ ns) memory devices pa_bits =
      (if segment_is n (codes "cpus")
        then check_cpus (children n) memory devices pa_bits
        else ok tt)
      >> validate_cpu_release_addrs ns memory devices pa_bits

  unfoldable pub validate_merged : Tree → ℕ → Result ValidationError (Unit {0})
  unfolding collect semantic_overlap_checks validate_cpu_release_addrs
  validate_merged tree pa_bits = do
    c ← collect pa_bits (children (root tree)) nothing
    semantic_overlap_checks c.memory c.devices
    validate_cpu_release_addrs (children (root tree)) c.memory c.devices pa_bits
