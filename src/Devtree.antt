-- ===== src/Devtree.antt =====
-- The devicetree views that the boot stub reads through. `devtree` is a third-party crate, so its
-- traits TreeView, NodeView and PropertyView are a parameter of the components that use them
-- (deps/tatu/src/validate.rs, deps/tatu/deps/dtb2e820/src/lib.rs).
use arma.Base.{ℕ, Option, List}
use arma.Base.Text.{Bytes, before}

pub record Devtree : Type 1 where
  pub Node : Type 0
  pub Property : Type 0
  pub Tree : Type 0
  pub root : Tree → Node
  pub find_path : Tree → Bytes → Option Node
  pub name : Node → Bytes
  pub children : Node → List Node
  pub properties : Node → List Property
  pub property : Node → Bytes → Option Property
  pub property_name : Property → Bytes
  pub bytes : Property → Bytes
  pub as_u32s : Property → Option (List ℕ)
  pub as_strs : Property → Option (List Bytes)

-- A node's name up to its unit address: `split_once('@')`, `top_segment`.
abbrev pub top_segment : Bytes → Bytes
top_segment name = before b'@' name
