-- ===== src/Modules/Tree.antt =====
-- The files of a module tree (src/modules.rs: canonical_tree, discover, checked_file, read_file,
-- metadata). The file system is the parameter Host.
use arma.Base.{
  ℕ, ◌+◌, Bool, false, not, ◌||◌, Option, List, [], ◌∷◌, ◌++◌, ltb, ◌==◌, length, take, Result, ok,
  err, ok_or, refuse_if, ◌>>=◌, ◌>>◌,
}
use arma.Base.Text.{Bytes}
use arma.Release.{validate_component}
use arma.Modules.Sets.{insert}
use arma.Modules.Names.{
  ModuleError, unsafe_release, io_error, not_directory, tree_count, special_entry, escapes_tree,
  not_newc_sized, exceeds_newc, invalid_utf8, split, validate_path,
}

pub data Kind : Type 0 where
  file : Kind
  dir : Kind
  symlink : Kind
  special : Kind

-- `fs::metadata`: there, not found, or another error.
pub data Stat : Type 0 where
  present : Stat
  not_found : Stat
  failed : Stat

-- The file system. A path in a tree is the tree's and its components; `none` is an error.
pub record Host : Type 0 where
  pub stat : Bytes → Stat
  pub canonicalize : Bytes → Option Bytes
  pub is_dir : Bytes → Bool
  pub symlink_metadata : Bytes → List Bytes → Option Kind
  pub is_inside : Bytes → List Bytes → Option Bool
  pub opened : Bytes → List Bytes → Option (Bool × ℕ)
  pub read_to_end : Bytes → List Bytes → Option Bytes
  pub is_utf8 : Bytes → Bool

abbrev pub is_kind : Bool → Kind → Bool
is_kind leaf file = leaf
is_kind leaf dir = not leaf
is_kind leaf symlink = false
is_kind leaf special = false

abbrev pub u32_max : ℕ
u32_max = 0xffffffff

unfoldable pub validate_release : Bytes → Result ModuleError (Unit {0})
unfolding validate_component
validate_release release = elim (validate_component release) [
  | ok u ↦ ok u
  | err e ↦ err unsafe_release
]

module _ (h : Host) where
  unfoldable pub canonical_tree : Bytes → Result ModuleError Bytes
  canonical_tree tree = do
    canonical ← ok_or io_error (h.canonicalize tree)
    refuse_if (not (h.is_dir canonical)) (not_directory tree)
    ok canonical

  unfoldable pub candidate : Stat → Bytes → List Bytes → Result ModuleError (List Bytes)
  unfolding canonical_tree insert
  candidate present path candidates = do
    canonical ← canonical_tree path
    ok (insert canonical candidates)
  candidate not_found path candidates = ok candidates
  candidate failed path candidates = err io_error

  unfoldable pub gather : Bytes → List Bytes → List Bytes → Result ModuleError (List Bytes)
  gather release [] candidates = ok candidates
  gather release (root ∷ roots) candidates = do
    let path = root ++ (b'/' ∷ release)
    candidates' ← candidate (h.stat path) path candidates
    gather release roots candidates'

  abbrev pub single : List Bytes → Result ModuleError Bytes
  single [] = err (tree_count 0)
  single (tree ∷ []) = ok tree
  single (tree ∷ next ∷ trees) = err (tree_count (length (tree ∷ next ∷ trees)))

  unfoldable pub discover : Bytes → List Bytes → Result ModuleError Bytes
  unfolding validate_release gather
  discover release roots = do
    validate_release release
    candidates ← gather release roots []
    single candidates

  -- The components of a path, below those that are passed.
  unfoldable pub check_components : Bytes → List Bytes → List Bytes → Result ModuleError (Unit {0})
  check_components tree passed [] = ok tt
  check_components tree passed (component ∷ components) = do
    let path = passed ++ (component ∷ [])
    kind ← ok_or io_error (h.symlink_metadata tree path)
    refuse_if (not (is_kind (length components == 0) kind)) special_entry
    check_components tree path components

  unfoldable pub checked_file : Bytes → Bytes → Result ModuleError (List Bytes)
  unfolding validate_path check_components
  checked_file tree relative = do
    validate_path relative
    let path = split b'/' relative
    check_components tree [] path
    inside ← ok_or io_error (h.is_inside tree path)
    refuse_if (not inside) escapes_tree
    ok path

  unfoldable pub read_file : Bytes → Bytes → Result ModuleError Bytes
  unfolding checked_file
  read_file tree relative = do
    path ← checked_file tree relative
    (is_file, len) ← ok_or io_error (h.opened tree path)
    refuse_if (not is_file || ltb u32_max len) not_newc_sized
    contents ← ok_or io_error (h.read_to_end tree path)
    let bytes = take (u32_max + 1) contents
    refuse_if (ltb u32_max (length bytes)) exceeds_newc
    ok bytes

  unfoldable pub metadata : Bytes → Bytes → Result ModuleError Bytes
  unfolding read_file
  metadata tree name = do
    bytes ← read_file tree name
    refuse_if (not (h.is_utf8 bytes)) (invalid_utf8 name)
    ok bytes
