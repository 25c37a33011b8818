-- ===== src/Validate/Host/Allowed.antt =====
-- What an accepted host overlay may hold (deps/tatu/src/validate.rs: validate_host_dtbo).
use mathlib.Core.Option
use mathlib.Core.Option.{some-injective}
use arma.Base.{
  ◌+◌, ◌/◌, ◌%◌, ◌<◌, ◌≡◌, ◌≢◌, ◌⊎◌, inl, inr, refl, subst, arith, true, false, Bool-cases, not,
  ◌&&◌, ◌||◌, Option, none, some, List, [], ◌∷◌, ◌++◌, map, ◌==◌, length, All, ok, ok_or,
  bind-eq-ok, some_of_ok_or, refuse_if, refuse_if-ok,
}
use arma.Base.Bits.{u64_mod}
use arma.Base.Text.{
  Bytes, codes, bytes_eq, bytes_eq_sound, bytes_eq_refl, contains, starts_with, strip_prefix,
  strip_prefix-append,
}
use arma.Devtree.{Devtree, top_segment}
use arma.Validate.Region.{Region, end_of, parse_one_region, chunks, host_overlay_memory_overflow}
use arma.Validate.Host.{
  Target, path, label, normalize, memory_path, check_chunks, check_reg, Fragment, named,
  check_memory_node, check_cells, check_phandles, check_cpu_nodes, check_cpus_additions,
  check_root_child, check_root_children, is_empty, check_root, check_numa, check_other,
  classify_path, classify_fragment, validate_host_dtbo,
}

-- The region's end is a u64.
abbrev pub Ends : Region → Type 0
Ends r = r.gpa + r.size < u64_mod

-- A `reg` of whole chunks, each of which ends at a u64.
abbrev pub RegFits : Option Bytes → Type 0
RegFits none = Unit
RegFits (some reg) =
    (length reg % 16 ≡ 0) × All Ends (map parse_one_region (chunks (length reg / 16) reg))

-- A memory path is `/memory@` and a unit address with no further slash.
abbrev pub MemoryPath : Bytes → Type 0
MemoryPath p =
    (unit : Bytes) × (p ≡ codes "/memory" ++ unit)
    × (starts_with b'@' unit ≡ true)
    × (contains b'/' unit ≡ false)

memory_path-MemoryPath : (p : Bytes) → memory_path p ≡ true → MemoryPath p
unfolding memory_path
memory_path-MemoryPath p h = go (strip_prefix (codes "/memory") p) refl h
  where
    go :
        (o : Option Bytes)
        → strip_prefix (codes "/memory") p ≡ o
        → (elim o [ none ↦ false | some rest ↦ starts_with b'@' rest && not (contains b'/' rest) ])
          ≡ true
        → MemoryPath p
    go none e k = cc
    go (some rest) e k =
        (rest, strip_prefix-append (codes "/memory") p rest e, ground arith, ground arith)

check_chunks-Ends :
    (cs : List Bytes) {u : Unit {0}} → check_chunks cs ≡ ok u → All Ends (map parse_one_region cs)
unfolding check_chunks
check_chunks-Ends [] h = tt
check_chunks-Ends (c ∷ cs) h =
    let (end, e, h') =
      bind-eq-ok (ok_or host_overlay_memory_overflow (end_of (parse_one_region c))) _ h in
    (ground (arith, some_of_ok_or _ (end_of (parse_one_region c)) e), check_chunks-Ends cs h')

reg-RegFits :
    (o : Option Bytes) {u : Unit {0}}
    → (elim o [ none ↦ ok tt | some reg ↦ check_reg reg ]) ≡ ok u
    → RegFits o
unfolding check_reg
reg-RegFits none h = tt
reg-RegFits (some reg) h =
    let (u, e, h') =
      bind-eq-ok (refuse_if (not (length reg % 16 == 0)) host_overlay_memory_overflow) _ h in
    (ground (arith, refuse_if-ok _ _ e), check_chunks-Ends (chunks (length reg / 16) reg) h')

empty-nil {ℓ} : {A : Type ℓ} (xs : List A) → is_empty xs ≡ true → xs ≡ []
empty-nil [] h = refl
empty-nil (x ∷ xs) h = cc

module _ (dt : Devtree) where
  open dt use {
    Node, Property, Tree, find_path, name, children, properties, property, property_name, bytes,
  }

  -- The property's name is one of two.
  abbrev pub OneOf : Bytes → Bytes → Property → Type 0
  OneOf a b p = (property_name p ≡ a) ⊎ (property_name p ≡ b)

  -- A cpu that the host may add: named `cpu`, with no phandle among its own properties. What lies
  -- below it is not constrained.
  abbrev pub CpuNode : Node → Type 0
  CpuNode n =
      (top_segment (name n) ≡ codes "cpu")
      × All (λ p. (property_name p ≢ codes "phandle") × (property_name p ≢ codes "linux,phandle"))
          (properties n)

  -- A `/cpus` container with its two cell counts and such cpus.
  abbrev pub CpusNode : Node → Type 0
  CpusNode n =
      All (OneOf (codes "#address-cells") (codes "#size-cells")) (properties n)
      × All CpuNode (children n)

  abbrev pub MemoryNode : Node → Type 0
  MemoryNode n = RegFits (Option.map bytes (property n (codes "reg")))

  -- The children that a root fragment may add.
  pub data RootChild (n : Node) : Type 0 where
    memory : top_segment (name n) ≡ codes "memory" → MemoryNode n → RootChild n
    distance_map : top_segment (name n) ≡ codes "distance-map" → RootChild n
    cpus : top_segment (name n) ≡ codes "cpus" → CpusNode n → RootChild n

  -- The additions that the allowlist has, by the normalized target path.
  pub data Allowed (base : Tree) (p : Bytes) (n : Node) : Type 0 where
    at_root : p ≡ codes "/" → properties n ≡ [] → All RootChild (children n) → Allowed base p n
    at_cpus : p ≡ codes "/cpus" → CpusNode n → Allowed base p n
    at_distance_map : p ≡ codes "/distance-map" → Allowed base p n
    at_memory : MemoryPath p → MemoryNode n → Allowed base p n
    numa_node_id :
        (there : Node)
        → find_path base p ≡ some there
        → All (λ q. property_name q ≡ codes "numa-node-id") (properties n)
        → is_empty (properties n) ≡ false
        → children n ≡ []
        → Allowed base p n

  -- A fragment with a path target, allowed at that path.
  abbrev pub FragmentAllowed : Tree → Fragment dt → Type 0
  FragmentAllowed base f = (p : Bytes) × (f.target ≡ path p) × Allowed base (normalize p) f.node

  named-eq : (q : Property) (key : Bytes) → named dt q key ≡ true → property_name q ≡ key
  named-eq q key h = bytes_eq_sound (property_name q) key h

  named-ne : (q : Property) (key : Bytes) → named dt q key ≡ false → property_name q ≢ key
  named-ne q key h e =
      let off : bytes_eq key key ≡ false = subst (λ t. bytes_eq t key ≡ false) e h in
      let on = bytes_eq_refl key in cc

  check_cells-OneOf :
      (ps : List Property) {u : Unit {0}}
      → check_cells dt ps ≡ ok u
      → All (OneOf (codes "#address-cells") (codes "#size-cells")) ps
  unfolding check_cells
  check_cells-OneOf [] h = tt
  check_cells-OneOf (p ∷ ps) h =
      let a = named dt p (codes "#address-cells") in
      let (u, e, h') = bind-eq-ok (refuse_if (not (a || named dt p (codes "#size-cells"))) _) _ h in
      (
        elim (Bool-cases a) [
          | inl yes_a ↦ inl (named-eq p (codes "#address-cells") yes_a)
          | inr no_a ↦ inr (named-eq p (codes "#size-cells") (ground (arith, refuse_if-ok _ _ e)))
        ],
        check_cells-OneOf ps h',
      )

  check_phandles-ne :
      (ps : List Property) {u : Unit {0}}
      → check_phandles dt ps ≡ ok u
      → All
          (λ p. (property_name p ≢ codes "phandle") × (property_name p ≢ codes "linux,phandle"))
          ps
  unfolding check_phandles
  check_phandles-ne [] h = tt
  check_phandles-ne (p ∷ ps) h =
      let (u, e, h') =
        bind-eq-ok
          (refuse_if (named dt p (codes "phandle") || named dt p (codes "linux,phandle")) _) _ h in
      let clear = refuse_if-ok _ _ e in
      (
        (
          named-ne p (codes "phandle") (ground (arith, clear)),
          named-ne p (codes "linux,phandle") (ground (arith, clear)),
        ),
        check_phandles-ne ps h',
      )

  check_cpu_nodes-CpuNode :
      (ns : List Node) {u : Unit {0}} → check_cpu_nodes dt ns ≡ ok u → All CpuNode ns
  unfolding check_cpu_nodes
  check_cpu_nodes-CpuNode [] h = tt
  check_cpu_nodes-CpuNode (n ∷ ns) h =
      let is_cpu = bytes_eq (top_segment (name n)) (codes "cpu") in
      let (u, e, h0) = bind-eq-ok (refuse_if (not is_cpu) _) _ h in
      let (u1, e1, h1) = bind-eq-ok (check_phandles dt (properties n)) _ h0 in
      let named_cpu : is_cpu ≡ true = ground (arith, refuse_if-ok _ _ e) in
      (
        (
          bytes_eq_sound (top_segment (name n)) (codes "cpu") named_cpu,
          check_phandles-ne (properties n) e1,
        ),
        check_cpu_nodes-CpuNode ns h1,
      )

  check_cpus_additions-CpusNode :
      (n : Node) {u : Unit {0}} → check_cpus_additions dt n ≡ ok u → CpusNode n
  unfolding check_cpus_additions
  check_cpus_additions-CpusNode n h =
      let (u, e, h') = bind-eq-ok (check_cells dt (properties n)) _ h in
      (check_cells-OneOf (properties n) e, check_cpu_nodes-CpuNode (children n) h')

  check_memory_node-MemoryNode :
      (n : Node) {u : Unit {0}} → check_memory_node dt n ≡ ok u → MemoryNode n
  unfolding check_memory_node
  check_memory_node-MemoryNode n h = reg-RegFits (Option.map bytes (property n (codes "reg"))) h

  check_root_child-RootChild :
      (n : Node) {u : Unit {0}} → check_root_child dt n ≡ ok u → RootChild n
  unfolding check_root_child
  check_root_child-RootChild n h =
      let seg = top_segment (name n) in
      elim (Bool-cases (bytes_eq seg (codes "memory"))) [
        | inl e ↦
            memory (bytes_eq_sound seg (codes "memory") e)
              (check_memory_node-MemoryNode n (rw e at h))
        | inr e ↦ elim (Bool-cases (bytes_eq seg (codes "distance-map"))) [
          | inl f ↦ distance_map (bytes_eq_sound seg (codes "distance-map") f)
          | inr f ↦ elim (Bool-cases (bytes_eq seg (codes "cpus"))) [
            | inl g ↦
                cpus (bytes_eq_sound seg (codes "cpus") g)
                  (check_cpus_additions-CpusNode n (rw (e, f, g) at h))
            | inr g ↦ cc (rw (e, f, g) at h)
          ]
        ]
      ]

  root_children-RootChild :
      (ns : List Node) {u : Unit {0}} → check_root_children dt ns ≡ ok u → All RootChild ns
  unfolding check_root_children
  root_children-RootChild [] h = tt
  root_children-RootChild (n ∷ ns) h =
      let (u, e, h') = bind-eq-ok (check_root_child dt n) _ h in
      (check_root_child-RootChild n e, root_children-RootChild ns h')

  check_numa-names :
      (ps : List Property) {u : Unit {0}}
      → check_numa dt ps ≡ ok u
      → All (λ q. property_name q ≡ codes "numa-node-id") ps
  unfolding check_numa
  check_numa-names [] h = tt
  check_numa-names (p ∷ ps) h =
      let (u, e, h') = bind-eq-ok (refuse_if (not (named dt p (codes "numa-node-id"))) _) _ h in
      (
        named-eq p (codes "numa-node-id") (ground (arith, refuse_if-ok _ _ e)),
        check_numa-names ps h',
      )

  check_root-Allowed :
      (base : Tree) (p : Bytes) (n : Node) {u : Unit {0}}
      → p ≡ codes "/"
      → check_root dt n ≡ ok u
      → Allowed base p n
  unfolding check_root
  check_root-Allowed base p n at h =
      let (u, e, h') = bind-eq-ok (refuse_if (not (is_empty (properties n))) _) _ h in
      at_root at (empty-nil (properties n) (ground (arith, refuse_if-ok _ _ e)))
        (root_children-RootChild (children n) h')

  check_other-Allowed :
      (base : Tree) (p : Bytes) (n : Node) {u : Unit {0}}
      → check_other dt base p n ≡ ok u
      → Allowed base p n
  unfolding check_other
  check_other-Allowed base p n h =
      let (there, e0, h0) = bind-eq-ok (ok_or _ (find_path base p)) _ h in
      let (u1, e1, h1) = bind-eq-ok (check_numa dt (properties n)) _ h0 in
      let (u2, e2, h2) = bind-eq-ok (refuse_if (not (is_empty (children n))) _) _ h1 in
      let (u3, e3, h3) = bind-eq-ok (refuse_if (is_empty (properties n)) _) _ h2 in
      numa_node_id there (some_of_ok_or _ (find_path base p) e0)
        (check_numa-names (properties n) e1) (refuse_if-ok _ _ e3)
        (empty-nil (children n) (ground (arith, refuse_if-ok _ _ e2)))

  classify_path-Allowed :
      (base : Tree) (p : Bytes) (n : Node) {u : Unit {0}}
      → classify_path dt base p n ≡ ok u
      → Allowed base p n
  unfolding classify_path
  classify_path-Allowed base p n h = elim (Bool-cases (bytes_eq p (codes "/"))) [
    | inl a ↦ check_root-Allowed base p n (bytes_eq_sound p (codes "/") a) (rw a at h)
    | inr a ↦ elim (Bool-cases (bytes_eq p (codes "/cpus"))) [
      | inl b ↦
          at_cpus (bytes_eq_sound p (codes "/cpus") b)
            (check_cpus_additions-CpusNode n (rw (a, b) at h))
      | inr b ↦ elim (Bool-cases (bytes_eq p (codes "/distance-map"))) [
        | inl c ↦ at_distance_map (bytes_eq_sound p (codes "/distance-map") c)
        | inr c ↦ elim (Bool-cases (memory_path p)) [
          | inl d ↦
              at_memory (memory_path-MemoryPath p d)
                (check_memory_node-MemoryNode n (rw (a, b, c, d) at h))
          | inr d ↦ check_other-Allowed base p n (rw (a, b, c, d) at h)
        ]
      ]
    ]
  ]

  fragment-Allowed :
      (base : Tree) (t : Target) (n : Node) {u : Unit {0}}
      → classify_fragment dt base t n ≡ ok u
      → (p : Bytes) × (t ≡ path p) × Allowed base (normalize p) n
  unfolding classify_fragment
  fragment-Allowed base label n h = cc
  fragment-Allowed base (path p) n h = (p, refl, classify_path-Allowed base (normalize p) n h)

  -- Every fragment of an overlay that `validate_host_dtbo` accepts has a path target, and adds
  -- only what the allowlist has there. Below the root, these are memory nodes, a distance map and a
  -- `/cpus` node that has its two cell counts at most and children named `cpu`, none of which has a
  -- phandle among its own properties; what lies below such a child is not constrained. Elsewhere,
  -- they are those nodes themselves, or nothing but `numa-node-id` on a node that the base
  -- declares. Every memory node that has a `reg` has whole chunks in it, each ending at a u64.
  pub validate_host_dtbo-Allowed :
      (fs : List (Fragment dt)) (base : Tree)
      → validate_host_dtbo dt fs base ≡ ok tt
      → All (FragmentAllowed base) fs
  unfolding validate_host_dtbo
  validate_host_dtbo-Allowed [] base h = tt
  validate_host_dtbo-Allowed (f ∷ fs) base h =
      let (u, e, h') = bind-eq-ok (classify_fragment dt base f.target f.node) _ h in
      (fragment-Allowed base f.target f.node e, validate_host_dtbo-Allowed fs base h')
