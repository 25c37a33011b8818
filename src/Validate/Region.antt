-- ===== src/Validate/Region.antt =====
-- Regions of guest-physical addresses (deps/tatu/src/validate.rs: Region, validate_region,
-- regions_overlap, region_contains, parse_one_region, the `reg` decoding).
use arma.Base.{
  ℕ, zero, suc, ◌+◌, ◌^◌, ◌≤◌, ◌<◌, ◌≡◌, ◌↔◌, arith, Bool, true, false, ◌&&◌, Option, none, some,
  List, [], ◌∷◌, ltb, leb, ◌==◌, take, drop, Result, ok, err, ok_or, refuse_if, ◌>>=◌, ◌>>◌,
}
use arma.Base.Bits.{u64_mod, checked_add}
use arma.Base.Text.{Bytes, from_be_bytes}

pub data ValidationError : Type 0 where
  host_overlay_unsupported_target : ValidationError
  host_overlay_prohibited_path : ValidationError
  host_overlay_cpu_phandle_prohibited : ValidationError
  host_overlay_conflicting_property : ValidationError
  host_overlay_memory_overflow : ValidationError
  memory_overlaps_device : ValidationError
  non_canonical_gpa : ValidationError
  zero_size : ValidationError
  address_overflow : ValidationError
  cpu_release_addr_unsafe : ValidationError
  too_many_cpus : ValidationError
  too_many_memory_regions : ValidationError
  too_many_device_ranges : ValidationError
  bad_property_shape : ValidationError
  -- The model's own: the shift by `pa_bits` overflows, which panics.
  shift_overflow : ValidationError

pub record Region : Type 0 where
  pub gpa : ℕ
  pub size : ℕ

-- `Region::end`
abbrev pub end_of : Region → Option ℕ
end_of r = checked_add r.gpa r.size

-- `end > (1u64 << pa_bits)`: a shift by 64 or more is an overflow, which panics under overflow
-- checks. (A build without them shifts by the lowest six bits.)
unfoldable pub validate_region : Region → ℕ → Result ValidationError (Unit {0})
validate_region r pa_bits = do
  refuse_if (r.size == 0) zero_size
  end ← ok_or address_overflow (end_of r)
  refuse_if (leb 64 pa_bits) shift_overflow
  refuse_if (ltb (2 ^ pa_bits) end) non_canonical_gpa
  ok tt

unfoldable pub regions_overlap : Region → Region → Bool
regions_overlap a b = elim (end_of a) [
  | none ↦ true
  | some a_end ↦ elim (end_of b) [ none ↦ true | some b_end ↦ ltb a.gpa b_end && ltb b.gpa a_end ]
]

unfoldable pub region_contains : Region → Region → Bool
region_contains outer inner = elim (end_of outer) [
  | none ↦ false
  | some outer_end ↦ elim (end_of inner) [
    | none ↦ false
    | some inner_end ↦ leb outer.gpa inner.gpa && leb inner_end outer_end
  ]
]

-- A 16-byte chunk: the address, then the size.
unfoldable pub parse_one_region : Bytes → Region
parse_one_region chunk = record {
  gpa = from_be_bytes (take 8 chunk);
  size = from_be_bytes (take 8 (drop 8 chunk));
}

-- `as_chunks::<16>`: `n` chunks from the front.
unfoldable pub chunks : ℕ → Bytes → List Bytes
chunks zero bytes = []
chunks (suc n) bytes = take 16 bytes ∷ chunks n (drop 16 bytes)

-- An address lies in a region.
abbrev pub InRegion : ℕ → Region → Type 0
InRegion x r = (r.gpa ≤ x) × (x < r.gpa + r.size)

-- A region that passes: it is not empty and ends within 2^pa_bits.
abbrev pub IsInRange : ℕ → Region → Type 0
IsInRange pa_bits r = (0 < r.size) × (r.gpa + r.size < u64_mod) × (r.gpa + r.size ≤ 2 ^ pa_bits)

-- `validate_region` accepts exactly the regions of positive size whose end is a u64 and lies
-- within 2^pa_bits, for a `pa_bits` below 64; with a `pa_bits` of 64 or more it accepts none, and a
-- region of positive size whose end is a u64 overflows the shift.
pub validate_region_iff :
    (r : Region) (pa_bits : ℕ)
    → ((validate_region r pa_bits ≡ ok tt) ↔ ((pa_bits < 64) × IsInRange pa_bits r))
      × ((validate_region r pa_bits ≡ err shift_overflow)
          ↔ ((64 ≤ pa_bits) × (0 < r.size) × (r.gpa + r.size < u64_mod)))
unfolding validate_region
validate_region_iff r pa_bits = ground arith

-- For regions whose ends are u64s, `regions_overlap` says no exactly if no address lies in both,
-- where both are not empty.
pub regions_overlap-false :
    (a b : Region) → regions_overlap a b ≡ false → (x : ℕ) → InRegion x a → InRegion x b → ⊥
unfolding regions_overlap
regions_overlap-false a b h x p q = ground arith

pub region_contains-true :
    (outer inner : Region)
    → region_contains outer inner ≡ true
    → (x : ℕ) → InRegion x inner
    → InRegion x outer
unfolding region_contains
region_contains-true outer inner h x p = ground arith
