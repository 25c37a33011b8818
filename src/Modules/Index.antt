-- ===== src/Modules/Index.antt =====
-- The index of a module tree, from modules.dep and modules.builtin (src/modules.rs: resolve and
-- insert_name).
pub mod Known
use arma.Base.{
  ℕ, ◌+◌, ◌==◌, Bool, true, false, not, Option, none, some, List, [], ◌∷◌, if◌then◌else◌, length,
  drop, Result, ok, err, ok_or, refuse_if, ◌>>=◌, ◌>>◌,
}
use arma.Base.Text.{Bytes, codes, before}
use arma.Base.Text
use arma.Modules.Sets.{contains, insert, get, put}
use arma.Modules.Names.{
  ModuleError, malformed_line, duplicate_dependency, duplicate_definition, ambiguous_name,
  missing_dependency, cycle, panics, exhausted, words, module_path,
}
use arma.Modules.Tree.{Host, checked_file}
use arma.Modules.Closure.{Definitions, Fault, cycle_at, panic, out_of_fuel, closure}

-- The path of each name that is asked for; none for a built-in module.
abbrev pub Names : Type 0
Names = List (Bytes × Option Bytes)

abbrev pub is_known {ℓ} : {A : Type ℓ} → Option A → Bool
is_known none = false
is_known (some a) = true

unfoldable pub insert_name : Names → List Bytes → Bytes → Option Bytes → Result ModuleError Names
unfolding get put contains
insert_name names roots name path =
    if contains name roots
    then (if is_known (get name names) then err (ambiguous_name name) else ok (put name path names))
    else ok names

unfoldable pub insert_edges : List Bytes → List Bytes → Result ModuleError (List Bytes)
unfolding module_path contains insert
insert_edges [] edges = ok edges
insert_edges (dependency ∷ dependencies) edges = do
  module_path dependency
  refuse_if (contains dependency edges) (duplicate_dependency dependency)
  insert_edges dependencies (insert dependency edges)

-- A line of modules.dep.
unfoldable pub read_line :
    List Bytes → Bytes → Definitions × Names → Result ModuleError (Definitions × Names)
unfolding module_path insert_edges get put insert_name
read_line roots line (defs, names) = do
  refuse_if (not (Text.contains b':' line)) (malformed_line line)
  let path = before b':' line
  name ← module_path path
  edges ← insert_edges (words (drop (length path + 1) line)) []
  refuse_if (is_known (get path defs)) (duplicate_definition path)
  names' ← insert_name names roots name (some path)
  ok (put path edges defs, names')

unfoldable pub read_deps :
    List Bytes → List Bytes → Definitions × Names → Result ModuleError (Definitions × Names)
unfolding read_line
read_deps roots [] index = ok index
read_deps roots (line ∷ lines) index = do
  index' ← (if length line == 0 then ok index else read_line roots line index)
  read_deps roots lines index'

unfoldable pub read_builtin : List Bytes → Bytes → Names → Result ModuleError Names
unfolding module_path insert_name
read_builtin roots line names = module_path line >>= λ name. insert_name names roots name none

unfoldable pub read_builtins : List Bytes → List Bytes → Names → Result ModuleError Names
unfolding read_builtin
read_builtins roots [] names = ok names
read_builtins roots (line ∷ lines) names = do
  names' ← (if length line == 0 then ok names else read_builtin roots line names)
  read_builtins roots lines names'

unfoldable pub check_dependencies : Definitions → Bytes → List Bytes → Result ModuleError (Unit {0})
unfolding get
check_dependencies defs path [] = ok tt
check_dependencies defs path (dependency ∷ dependencies) = do
  refuse_if (not (is_known (get dependency defs))) (missing_dependency dependency path)
  check_dependencies defs path dependencies

-- The pass over the definitions `rest`.
unfoldable pub check_index :
    Host → Bytes → Definitions → Definitions → Result ModuleError (Unit {0})
unfolding checked_file check_dependencies
check_index h tree defs [] = ok tt
check_index h tree defs ((path, dependencies) ∷ rest) = do
  checked_file h tree path
  check_dependencies defs path dependencies
  check_index h tree defs rest

abbrev pub of_fault : Fault → ModuleError
of_fault (cycle_at p) = cycle p
of_fault panic = panics
of_fault out_of_fuel = exhausted

abbrev pub lifted {ℓ} : {A : Type ℓ} → Result Fault A → Result ModuleError A
lifted (ok a) = ok a
lifted (err f) = err (of_fault f)
