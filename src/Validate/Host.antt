-- ===== src/Validate/Host.antt =====
-- The allowlist for the host's overlay (deps/tatu/src/validate.rs: validate_host_dtbo,
-- classify_fragment, memory_path, check_cpus_additions, check_memory_node).
pub mod Allowed
use mathlib.Core.Option
use arma.Base.{
  ℕ, zero, suc, ◌/◌, ◌%◌, Bool, true, false, not, ◌&&◌, ◌||◌, Option, none, some, List, [], ◌∷◌,
  map, ◌==◌, if◌then◌else◌, length, Result, ok, err, ok_or, refuse_if, ◌>>=◌, ◌>>◌,
}
use arma.Base.Text.{Bytes, codes, bytes_eq, contains, starts_with, strip_prefix, trim_end}
use arma.Devtree.{Devtree, top_segment}
use arma.Validate.Region.{
  ValidationError, host_overlay_unsupported_target, host_overlay_prohibited_path,
  host_overlay_cpu_phandle_prohibited, host_overlay_conflicting_property,
  host_overlay_memory_overflow, Region, end_of, parse_one_region, chunks,
}

-- `devtree::Target`: a path, or a label-style target.
pub data Target : Type 0 where
  path : Bytes → Target
  label : Target

-- `path.trim_end_matches('/')`, with the empty path read as the root.
unfoldable pub normalize : Bytes → Bytes
normalize p = elim (trim_end b'/' p) [ [] ↦ codes "/" | c ∷ cs ↦ c ∷ cs ]

-- `/memory@<unit>`, and nothing below it.
unfoldable pub memory_path : Bytes → Bool
memory_path p = elim (strip_prefix (codes "/memory") p) [
  | none ↦ false
  | some rest ↦ starts_with b'@' rest && not (contains b'/' rest)
]

-- The loop of `check_memory_node`.
unfoldable pub check_chunks : List Bytes → Result ValidationError (Unit {0})
check_chunks [] = ok tt
check_chunks (c ∷ cs) = do
  ok_or host_overlay_memory_overflow (end_of (parse_one_region c))
  check_chunks cs

unfoldable pub check_reg : Bytes → Result ValidationError (Unit {0})
unfolding check_chunks
check_reg reg = do
  refuse_if (not (length reg % 16 == 0)) host_overlay_memory_overflow
  check_chunks (chunks (length reg / 16) reg)

abbrev pub is_empty {ℓ} : {A : Type ℓ} → List A → Bool
is_empty [] = true
is_empty (x ∷ xs) = false

module _ (dt : Devtree) where
  open dt use {
    Node, Property, Tree, find_path, name, children, properties, property, property_name, bytes,
  }

  -- A fragment of an overlay: `target()` and `node()`.
  pub record Fragment : Type 0 where
    pub target : Target
    pub node : Node

  abbrev pub named : Property → Bytes → Bool
  named p key = bytes_eq (property_name p) key

  unfoldable pub check_memory_node : Node → Result ValidationError (Unit {0})
  unfolding check_reg
  check_memory_node node = elim (Option.map bytes (property node (codes "reg"))) [
    | none ↦ ok tt
    | some reg ↦ check_reg reg
  ]

  -- The loops of `check_cpus_additions`.
  unfoldable pub check_cells : List Property → Result ValidationError (Unit {0})
  check_cells [] = ok tt
  check_cells (p ∷ ps) = do
    refuse_if (not (named p (codes "#address-cells") || named p (codes "#size-cells")))
        host_overlay_conflicting_property
    check_cells ps

  unfoldable pub check_phandles : List Property → Result ValidationError (Unit {0})
  check_phandles [] = ok tt
  check_phandles (p ∷ ps) = do
    refuse_if (named p (codes "phandle") || named p (codes "linux,phandle"))
        host_overlay_cpu_phandle_prohibited
    check_phandles ps

  unfoldable pub check_cpu_nodes : List Node → Result ValidationError (Unit {0})
  unfolding check_phandles
  check_cpu_nodes [] = ok tt
  check_cpu_nodes (n ∷ ns) = do
    refuse_if (not (bytes_eq (top_segment (name n)) (codes "cpu"))) host_overlay_prohibited_path
    check_phandles (properties n)
    check_cpu_nodes ns

  unfoldable pub check_cpus_additions : Node → Result ValidationError (Unit {0})
  unfolding check_cells check_cpu_nodes
  check_cpus_additions cpus = do check_cells (properties cpus); check_cpu_nodes (children cpus)

  -- A child that a root fragment adds.
  unfoldable pub check_root_child : Node → Result ValidationError (Unit {0})
  unfolding check_memory_node check_cpus_additions
  check_root_child child =
      if bytes_eq (top_segment (name child)) (codes "memory")
      then check_memory_node child
      else if bytes_eq (top_segment (name child)) (codes "distance-map")
      then ok tt
      else if bytes_eq (top_segment (name child)) (codes "cpus")
      then check_cpus_additions child
      else err host_overlay_prohibited_path

  unfoldable pub check_root_children : List Node → Result ValidationError (Unit {0})
  unfolding check_root_child
  check_root_children [] = ok tt
  check_root_children (n ∷ ns) = check_root_child n >> check_root_children ns

  unfoldable pub check_root : Node → Result ValidationError (Unit {0})
  unfolding check_root_children
  check_root node = do
    refuse_if (not (is_empty (properties node))) host_overlay_prohibited_path
    check_root_children (children node)

  -- The loop over the properties of any other node.
  unfoldable pub check_numa : List Property → Result ValidationError (Unit {0})
  check_numa [] = ok tt
  check_numa (p ∷ ps) = do
    refuse_if (not (named p (codes "numa-node-id"))) host_overlay_conflicting_property
    check_numa ps

  unfoldable pub check_other : Tree → Bytes → Node → Result ValidationError (Unit {0})
  unfolding check_numa
  check_other base p node = do
    ok_or host_overlay_prohibited_path (find_path base p)
    check_numa (properties node)
    refuse_if (not (is_empty (children node))) host_overlay_prohibited_path
    refuse_if (is_empty (properties node)) host_overlay_prohibited_path
    ok tt

  -- The match on the normalized path.
  unfoldable pub classify_path : Tree → Bytes → Node → Result ValidationError (Unit {0})
  unfolding check_root check_other memory_path
  classify_path base p node =
      if bytes_eq p (codes "/")
      then check_root node
      else if bytes_eq p (codes "/cpus")
      then check_cpus_additions node
      else if bytes_eq p (codes "/distance-map")
      then ok tt
      else if memory_path p
      then check_memory_node node
      else check_other base p node

  unfoldable pub classify_fragment : Tree → Target → Node → Result ValidationError (Unit {0})
  unfolding classify_path normalize
  classify_fragment base label node = err host_overlay_unsupported_target
  classify_fragment base (path p) node = classify_path base (normalize p) node

  unfoldable pub validate_host_dtbo : List Fragment → Tree → Result ValidationError (Unit {0})
  unfolding classify_fragment
  validate_host_dtbo [] base = ok tt
  validate_host_dtbo (f ∷ fs) base =
      classify_fragment base f.target f.node >> validate_host_dtbo fs base
