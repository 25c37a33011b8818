-- ===== src/E820/Tests.antt =====
-- The e820 map of a small tree (deps/tatu/deps/dtb2e820/src/lib.rs).
use arma.Base.{
  ℕ, ◌≤◌, ◌≡◌, ◌↔◌, refl, Option, none, some, List, [], ◌∷◌, ◌==◌, if◌then◌else◌, length, ok, err,
}
use arma.Base.Text.{Bytes, codes}
use arma.Devtree.{Devtree}
use arma.E820.{usable, reserved, E820Entry, buffer_full, extract_e820}
use arma.E820.Unbounded.{map_of, extract_e820_iff}

-- 0: the root. 1: memory. 2: reserved-memory, with 3 in it. 4: an ECAM host.
abbrev sample_name : ℕ → Bytes
sample_name n =
    if n == 1
    then codes "memory@0"
    else if n == 2
    then codes "reserved-memory"
    else if n == 4
    then codes "pcie@8"
    else []

-- A property is the list of its cells, and its strings.
abbrev sample_property : ℕ → Bytes → Option (List ℕ × List Bytes)
sample_property n key =
    if n == 1
    then some (0 ∷ 0 ∷ 1 ∷ 0 ∷ [], [])
    else if n == 3
    then some (0 ∷ 16 ∷ 0 ∷ 4 ∷ [], [])
    else if n == 4
    then some (8 ∷ 0 ∷ 0 ∷ 4096 ∷ [], codes "pci-host-ecam-generic" ∷ [])
    else none

abbrev sample : Devtree
sample = record {
  Node = ℕ;
  Property = List ℕ × List Bytes;
  Tree = ℕ;
  root = λ t. t;
  find_path = λ t p. none;
  name = sample_name;
  children = λ n. if n == 0 then 1 ∷ 2 ∷ 4 ∷ [] else if n == 2 then 3 ∷ [] else [];
  properties = λ n. [];
  property = sample_property;
  property_name = λ p. [];
  bytes = λ p. [];
  as_u32s = λ p. some p.0;
  as_strs = λ p. some p.1;
}

abbrev sample_map : List E820Entry
sample_map =
    record { addr = 0; size = 0x1_0000_0000; kind = usable }
    ∷ record { addr = 16; size = 4; kind = reserved }
    ∷ record { addr = 0x8_0000_0000; size = 4096; kind = reserved }
    ∷ []

extracted : extract_e820 sample 0 3 ≡ ok sample_map
unfolding extract_e820
extracted = refl

no_room : extract_e820 sample 0 2 ≡ err buffer_full
unfolding extract_e820
no_room = refl

extract_e820_iff_example :
    (extract_e820 sample 0 3 ≡ ok sample_map)
    ↔ (map_of sample 0 ≡ some sample_map) × (length sample_map ≤ 3)
extract_e820_iff_example = extract_e820_iff sample 0 3 sample_map
