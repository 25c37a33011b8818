-- ===== src/Modules/Resolve.antt =====
-- The selection (src/modules.rs: resolve).
pub mod Chosen
pub mod Exact
pub mod Rules
pub mod Clean
use arma.Base.{
  ℕ, Bool, true, false, Option, none, some, List, [], ◌∷◌, ◌++◌, map, Result, ok, err, ◌>>=◌, ◌>>◌,
}
use arma.Base.Text.{Bytes, codes}
use arma.Modules.Sets.{contains, insert, get}
use arma.Modules.Names.{ModuleError, unknown_module, validate_name, lines, split}
use arma.Modules.Tree.{Host, validate_release, canonical_tree, discover, read_file, metadata}
use arma.Modules.Closure.{Definitions, closure}
use arma.Modules.Index.{Names, read_deps, read_builtins, check_index, lifted}

pub record ModuleFile : Type 0 where
  pub relative : List Bytes
  pub bytes : Bytes
  pub is_root : Bool

pub record Selection : Type 0 where
  pub tree : Bytes
  pub builtins : List Bytes
  pub files : List ModuleFile

unfoldable pub validate_names : List Bytes → Result ModuleError (List Bytes)
unfolding validate_name insert
validate_names [] = ok []
validate_names (name ∷ names) = do
  root ← validate_name name
  roots ← validate_names names
  ok (insert root roots)

-- What a name selects: the built-in names, and the paths.
unfoldable pub choose_one :
    Option (Option Bytes)
    → Bytes
    → List Bytes × List Bytes
    → Result ModuleError (List Bytes × List Bytes)
unfolding insert
choose_one (some (some path)) root (builtins, selected) = ok (builtins, insert path selected)
choose_one (some none) root (builtins, selected) = ok (builtins ++ (root ∷ []), selected)
choose_one none root chosen = err (unknown_module root)

unfoldable pub choose :
    Names → List Bytes → List Bytes × List Bytes → Result ModuleError (List Bytes × List Bytes)
unfolding get
choose names [] chosen = ok chosen
choose names (root ∷ roots) chosen = do
  chosen' ← choose_one (get root names) root chosen
  choose names roots chosen'

unfoldable pub read_files :
    Host → Bytes → List Bytes → List Bytes → Result ModuleError (List ModuleFile)
unfolding read_file contains
read_files h tree selected [] = ok []
read_files h tree selected (relative ∷ paths) = do
  bytes ← read_file h tree relative
  files ← read_files h tree selected paths
  ok (
      record { relative = split b'/' relative; bytes = bytes; is_root = contains relative selected }
      ∷ files)

unfoldable pub find_tree : Host → Bytes → Option Bytes → Result ModuleError Bytes
unfolding canonical_tree discover
find_tree h release (some tree) = canonical_tree h tree
find_tree h release none = discover h release (codes "/usr/lib/modules" ∷ codes "/lib/modules" ∷ [])

-- The index, from both files.
unfoldable pub read_index : Host → Bytes → List Bytes → Result ModuleError (Definitions × Names)
unfolding metadata read_deps read_builtins
read_index h tree roots = do
  deps ← metadata h tree (codes "modules.dep")
  (defs, names) ← read_deps roots (lines deps) ([], [])
  builtin ← metadata h tree (codes "modules.builtin")
  names' ← read_builtins roots (lines builtin) names
  ok (defs, names')

-- The choice in an index that is read.
unfoldable pub select :
    Host → Bytes → List Bytes → Definitions × Names → Result ModuleError Selection
unfolding check_index closure choose read_files
select h tree roots (defs, names) = do
  check_index h tree defs defs
  lifted (closure defs (map (λ d. d.0) defs))
  (builtins, selected) ← choose names roots ([], [])
  paths ← lifted (closure defs selected)
  files ← read_files h tree selected paths
  ok (record { tree = tree; builtins = builtins; files = files })

unfoldable pub resolve : Host → Bytes → Option Bytes → List Bytes → Result ModuleError Selection
unfolding validate_release validate_names read_index select
resolve h release tree_override names = do
  validate_release release
  roots ← validate_names names
  tree ← find_tree h release tree_override
  index ← read_index h tree roots
  select h tree roots index
