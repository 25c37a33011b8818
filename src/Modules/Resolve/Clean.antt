-- ===== src/Modules/Resolve/Clean.antt =====
-- The selection meets no missing definition, and its walks end (src/modules.rs: resolve).
use arma.Base.{
  arith, ◌≡◌, inl, inr, refl, true, Option, none, some, List, [], ◌∷◌, ◌++◌, map, Result, ok, err,
}
use arma.Base.Text.{Bytes}
use arma.Release.{ReleaseError, validate_component}
use arma.Modules.Sets.{contains, get}
use arma.Modules.Names.{
  unsafe_release, io_error, cycle, validate_name, validate_path, module_path, lines,
}
use arma.Modules.Tree.{
  Host, Stat, present, not_found, failed, validate_release, canonical_tree, candidate, gather,
  single, discover, check_components, checked_file, read_file, metadata,
}
use arma.Modules.Closure.{Definitions, closure}
use arma.Modules.Closure.Exact.{IsDefined, closure_exact}
use arma.Modules.Index.{
  Names, is_known, insert_name, insert_edges, read_line, read_deps, read_builtin, read_builtins,
  check_dependencies, check_index, lifted,
}
use arma.Modules.Resolve.{
  validate_names, choose_one, choose, read_files, find_tree, read_index, select, resolve,
}
use arma.Modules.Resolve.Exact.{read_index-Known, checked-IsDefined}
use arma.Modules.Resolve.Chosen.{choose_all}
use arma.Modules.Resolve.Rules.{Clean, Clean-ok, Clean-err, Clean-bind, clean}

validate_name-Clean : (name : Bytes) → Clean (validate_name name)
unfolding validate_name
validate_name-Clean name = search (clean)

validate_path-Clean : (path : Bytes) → Clean (validate_path path)
unfolding validate_path
validate_path-Clean path = search (clean)

module_path-Clean : (path : Bytes) → Clean (module_path path)
unfolding module_path
module_path-Clean path = search (clean, validate_name-Clean, validate_path-Clean)

validate_names-Clean : (names : List Bytes) → Clean (validate_names names)
unfolding validate_names
validate_names-Clean [] = Clean-ok []
validate_names-Clean (name ∷ names) =
    let rest = validate_names-Clean names in search (clean, validate_name-Clean)

validate_release-Clean : (release : Bytes) → Clean (validate_release release)
unfolding validate_release
validate_release-Clean release = from (validate_component release)
  where
    from :
        (r : Result ReleaseError (Unit {0}))
        → Clean (elim r [ ok u ↦ ok u | err e ↦ err unsafe_release ])
    from (ok u) = Clean-ok u
    from (err e) = Clean-err unsafe_release refl

module _ (h : Host) where
  canonical_tree-Clean : (tree : Bytes) → Clean (canonical_tree h tree)
  unfolding canonical_tree
  canonical_tree-Clean tree = search (clean)

  candidate-Clean :
      (stat : Stat) (path : Bytes) (candidates : List Bytes)
      → Clean (candidate h stat path candidates)
  unfolding candidate
  candidate-Clean present path candidates = search (clean, canonical_tree-Clean)
  candidate-Clean not_found path candidates = Clean-ok candidates
  candidate-Clean failed path candidates = Clean-err io_error refl

  gather-Clean :
      (release : Bytes) (roots candidates : List Bytes) → Clean (gather h release roots candidates)
  unfolding gather
  gather-Clean release [] candidates = Clean-ok candidates
  gather-Clean release (root ∷ roots) candidates =
      search (clean, candidate-Clean, gather-Clean release roots)

  single-Clean : (trees : List Bytes) → Clean (single h trees)
  single-Clean [] = Clean-err _ refl
  single-Clean (tree ∷ []) = Clean-ok tree
  single-Clean (tree ∷ next ∷ trees) = Clean-err _ refl

  find_tree-Clean : (release : Bytes) (tree : Option Bytes) → Clean (find_tree h release tree)
  unfolding find_tree discover
  find_tree-Clean release none = search (clean, validate_release-Clean, gather-Clean, single-Clean)
  find_tree-Clean release (some tree) = canonical_tree-Clean tree

  check_components-Clean :
      (tree : Bytes) (passed path : List Bytes) → Clean (check_components h tree passed path)
  unfolding check_components
  check_components-Clean tree passed [] = Clean-ok tt
  check_components-Clean tree passed (component ∷ path) =
      let rest = check_components-Clean tree (passed ++ (component ∷ [])) path in search (clean)

  checked_file-Clean : (tree relative : Bytes) → Clean (checked_file h tree relative)
  unfolding checked_file
  checked_file-Clean tree relative = search (clean, validate_path-Clean, check_components-Clean)

  read_file-Clean : (tree relative : Bytes) → Clean (read_file h tree relative)
  unfolding read_file
  read_file-Clean tree relative = search (clean, checked_file-Clean) depth 10

  metadata-Clean : (tree name : Bytes) → Clean (metadata h tree name)
  unfolding metadata
  metadata-Clean tree name = search (clean, read_file-Clean)

insert_name-Clean :
    (names : Names) (roots : List Bytes) (name : Bytes) (path : Option Bytes)
    → Clean (insert_name names roots name path)
unfolding insert_name
insert_name-Clean names roots name path = search (clean)

insert_edges-Clean : (dependencies edges : List Bytes) → Clean (insert_edges dependencies edges)
unfolding insert_edges
insert_edges-Clean [] edges = Clean-ok edges
insert_edges-Clean (d ∷ dependencies) edges =
    search (clean, module_path-Clean, insert_edges-Clean dependencies)

read_line-Clean :
    (roots : List Bytes) (line : Bytes) (index : Definitions × Names)
    → Clean (read_line roots line index)
unfolding read_line
read_line-Clean roots line (defs, names) =
    search (clean, module_path-Clean, insert_edges-Clean, insert_name-Clean) depth 10

read_deps-Clean :
    (roots lines : List Bytes) (index : Definitions × Names) → Clean (read_deps roots lines index)
unfolding read_deps
read_deps-Clean roots [] index = Clean-ok index
read_deps-Clean roots (line ∷ lines) index =
    search (clean, read_line-Clean, read_deps-Clean roots lines)

read_builtin-Clean :
    (roots : List Bytes) (line : Bytes) (names : Names) → Clean (read_builtin roots line names)
unfolding read_builtin
read_builtin-Clean roots line names = search (clean, module_path-Clean, insert_name-Clean)

read_builtins-Clean :
    (roots lines : List Bytes) (names : Names) → Clean (read_builtins roots lines names)
unfolding read_builtins
read_builtins-Clean roots [] names = Clean-ok names
read_builtins-Clean roots (line ∷ lines) names =
    search (clean, read_builtin-Clean, read_builtins-Clean roots lines)

check_dependencies-Clean :
    (defs : Definitions) (path : Bytes) (dependencies : List Bytes)
    → Clean (check_dependencies defs path dependencies)
unfolding check_dependencies
check_dependencies-Clean defs path [] = Clean-ok tt
check_dependencies-Clean defs path (d ∷ dependencies) =
    search (clean, check_dependencies-Clean defs path dependencies)

check_index-Clean :
    (h : Host) (tree : Bytes) (defs rest : Definitions) → Clean (check_index h tree defs rest)
unfolding check_index
check_index-Clean h tree defs [] = Clean-ok tt
check_index-Clean h tree defs ((path, dependencies) ∷ rest) =
    let after = check_index-Clean h tree defs rest in
    search (clean, checked_file-Clean, check_dependencies-Clean)

read_index-Clean : (h : Host) (tree : Bytes) (roots : List Bytes) → Clean (read_index h tree roots)
unfolding read_index
read_index-Clean h tree roots = search (clean, metadata-Clean, read_deps-Clean, read_builtins-Clean)

choose_one-Clean :
    (found : Option (Option Bytes)) (root : Bytes) (chosen : List Bytes × List Bytes)
    → Clean (choose_one found root chosen)
unfolding choose_one
choose_one-Clean none root chosen = Clean-err _ refl
choose_one-Clean (some none) root (builtins, selected) = Clean-ok _
choose_one-Clean (some (some path)) root (builtins, selected) = Clean-ok _

choose-Clean :
    (names : Names) (roots : List Bytes) (chosen : List Bytes × List Bytes)
    → Clean (choose names roots chosen)
unfolding choose
choose-Clean names [] chosen = Clean-ok chosen
choose-Clean names (root ∷ roots) chosen =
    search (clean, choose_one-Clean, choose-Clean names roots)

read_files-Clean :
    (h : Host) (tree : Bytes) (selected paths : List Bytes)
    → Clean (read_files h tree selected paths)
unfolding read_files
read_files-Clean h tree selected [] = Clean-ok []
read_files-Clean h tree selected (path ∷ paths) =
    let rest = read_files-Clean h tree selected paths in search (clean, read_file-Clean)

-- Where all is defined, a closure ends.
closure-Clean :
    (defs : Definitions) (roots : List Bytes)
    → IsDefined defs roots
    → Clean (lifted (closure defs roots))
closure-Clean defs roots defined = elim (closure_exact defs roots defined) [
  | inl (done, e, _) ↦ rw e (Clean-ok done)
  | inr (p, e, _) ↦ rw e (Clean-err (cycle p) refl)
]

pub keys-known :
    (defs : Definitions) (p : Bytes)
    → contains p (map (λ d. d.0) defs) ≡ true
    → is_known (get p defs) ≡ true
unfolding contains get
keys-known [] p c = cc
keys-known ((path, deps) ∷ defs) p c = ground (arith, keys-known defs p)

module _ (h : Host) (tree : Bytes) (roots : List Bytes) (defs : Definitions) (names : Names) where
  select-Clean :
      read_index h tree roots ≡ ok (defs, names) → Clean (select h tree roots (defs, names))
  unfolding select
  select-Clean read =
      let known = read_index-Known h tree roots defs names read in
      Clean-bind (check_index h tree defs defs) _ (check_index-Clean h tree defs defs) (λ _ checked.
        let all =
          checked-IsDefined h tree defs names (map (λ d. d.0) defs) checked (keys-known defs) in
        Clean-bind (lifted (closure defs (map (λ d. d.0) defs))) _ (closure-Clean defs _ all)
          (λ _ _.
            Clean-bind (choose names roots ([], [])) _ (choose-Clean names roots _)
              (λ picked chosen.
                let right = choose_all names roots (picked.0) (picked.1) chosen in
                let defined =
                  checked-IsDefined h tree defs names (picked.1) checked
                    (λ p c. let (root, _, g) = right.only p c in known root p g) in
                Clean-bind (lifted (closure defs (picked.1))) _
                  (closure-Clean defs (picked.1) defined)
                  (λ paths _. search (clean, read_files-Clean)))))

-- Whatever the file system holds, the selection reports an error or succeeds: the index of a
-- dependency is never missing, and the walks over the dependencies end.
pub resolve-Clean :
    (h : Host) (release : Bytes) (tree : Option Bytes) (names : List Bytes)
    → Clean (resolve h release tree names)
unfolding resolve
resolve-Clean h release tree names =
    Clean-bind (validate_release release) _ (validate_release-Clean release) (λ _ _.
      Clean-bind (validate_names names) _ (validate_names-Clean names) (λ roots _.
        Clean-bind (find_tree h release tree) _ (find_tree-Clean h release tree) (λ at _.
          Clean-bind (read_index h at roots) _ (read_index-Clean h at roots)
            (λ index read. select-Clean h at roots (index.0) (index.1) read))))
