-- ===== src/E820.antt =====
-- The e820 map of a devicetree (deps/tatu/deps/dtb2e820/src/lib.rs: E820Type, E820Entry,
-- append_reg, entry, has_compatible, extract_e820).
pub mod Unbounded
mod Tests
use arma.Base.{
  ℕ, zero, suc, ◌+◌, ◌-◌, ◌*◌, ◌^◌, Bool, true, false, Option, none, some, List, [], ◌∷◌, ◌++◌,
  ◌==◌, if◌then◌else◌, any, length, Result, ok, err, ok_or, refuse_if, ◌>>=◌, ◌>>◌,
}
use arma.Base.Text.{Bytes, codes, bytes_eq}
use arma.Devtree.{Devtree, top_segment}

pub data E820Type : Type 0 where
  invalid : E820Type
  usable : E820Type
  reserved : E820Type
  acpi : E820Type
  acpi_nvs : E820Type
  unusable : E820Type
  pmem : E820Type
  pram : E820Type
  reserved_kern : E820Type
  soft_reserved : E820Type

pub record E820Entry : Type 0 where
  pub addr : ℕ
  pub size : ℕ
  pub kind : E820Type

pub data Error : Type 0 where
  buffer_full : Error
  bad_reg_shape : Error

-- Two 32-bit cells, the high one first: `(hi << 32) | lo`.
abbrev pub cell_pair : ℕ → ℕ → ℕ
cell_pair hi lo = hi * 2 ^ 32 + lo

-- The loop of `append_reg`, a group of four cells (`entry`) at a time, into `room` free slots.
unfoldable pub append_cells : E820Type → List ℕ → ℕ → Result Error (List E820Entry)
append_cells kind [] room = ok []
append_cells kind (a ∷ []) room = err bad_reg_shape
append_cells kind (a ∷ b ∷ []) room = err bad_reg_shape
append_cells kind (a ∷ b ∷ c ∷ []) room = err bad_reg_shape
append_cells kind (a ∷ b ∷ c ∷ d ∷ cells) room = do
  refuse_if (room == 0) buffer_full
  es ← append_cells kind cells (room - 1)
  ok (record { addr = cell_pair a b; size = cell_pair c d; kind = kind } ∷ es)

module _ (D : Devtree) where
  abbrev append_property : E820Type → Option D.Property → ℕ → Result Error (List E820Entry)
  unfolding append_cells
  append_property kind none room = ok []
  append_property kind (some reg) room = do
    cells ← ok_or bad_reg_shape (D.as_u32s reg)
    append_cells kind cells room

  unfoldable pub append_reg : E820Type → D.Node → ℕ → Result Error (List E820Entry)
  unfolding append_property
  append_reg kind node room = append_property kind (D.property node (codes "reg")) room

  abbrev pub strs_have : Option (List Bytes) → Bytes → Bool
  strs_have none target = false
  strs_have (some strs) target = any (λ s. bytes_eq s target) strs

  abbrev pub property_has : Option D.Property → Bytes → Bool
  property_has none target = false
  property_has (some prop) target = strs_have (D.as_strs prop) target

  unfoldable pub has_compatible : D.Node → Bytes → Bool
  has_compatible node target = property_has (D.property node (codes "compatible")) target

  -- The children of `/reserved-memory`.
  unfoldable pub append_children : List D.Node → ℕ → Result Error (List E820Entry)
  unfolding append_reg
  append_children [] room = ok []
  append_children (sub ∷ subs) room = do
    es ← append_reg reserved sub room
    fs ← append_children subs (room - length es)
    ok (es ++ fs)

  -- One child of the root.
  unfoldable pub append_child : D.Node → ℕ → Result Error (List E820Entry)
  unfolding append_reg append_children has_compatible
  append_child child room =
      if bytes_eq (top_segment (D.name child)) (codes "memory")
      then append_reg usable child room
      else if bytes_eq (top_segment (D.name child)) (codes "reserved-memory")
      then append_children (D.children child) room
      else if has_compatible child (codes "pci-host-ecam-generic")
      then append_reg reserved child room
      else ok []

  -- The walk over the root's children.
  unfoldable pub append_all : List D.Node → ℕ → Result Error (List E820Entry)
  unfolding append_child
  append_all [] room = ok []
  append_all (child ∷ children) room = do
    es ← append_child child room
    fs ← append_all children (room - length es)
    ok (es ++ fs)

  -- The entries written into the `room` slots of `out`.
  unfoldable pub extract_e820 : D.Tree → ℕ → Result Error (List E820Entry)
  unfolding append_all
  extract_e820 tree room = append_all (D.children (D.root tree)) room
