-- ===== src/Modules/Resolve/Exact.antt =====
-- What a selection holds (src/modules.rs: resolve).
use arma.Base.{
  ◌≡◌, inl, inr, sym, ap, ◌∙◌, ◌↔◌, subst, true, some, List, [], ◌∷◌, map, Result, ok, err,
  bind-eq-ok, ok-injective,
}
use arma.Base.Text.{Bytes, codes}
use arma.Modules.Sets.{contains, get}
use arma.Modules.Names.{lines, split}
use arma.Modules.Tree.{Host, read_file, metadata}
use arma.Modules.Closure.{Definitions, Fault, cycle_at, closure}
use arma.Modules.Closure.Invariant.{Needs}
use arma.Modules.Closure.Exact.{IsDefined, closure_exact}
use arma.Modules.Index.{Names, is_known, lifted, read_deps, read_builtins, check_index}
use arma.Modules.Index.Known.{
  Known, read_deps-Known, read_builtins-Known, check_index-known, known_value,
}
use arma.Modules.Resolve.Chosen.{Chosen, choose_all}
use arma.Modules.Resolve.{ModuleFile, Selection, choose, read_files, read_index, select}

-- The files are read from the paths, in their order.
pub data Filed (h : Host) (tree : Bytes) (selected : List Bytes)
    : List Bytes → List ModuleFile → Type 0 where
  nil : Filed h tree selected [] []
  next :
      (path : Bytes) (bytes : Bytes) {paths : List Bytes} {files : List ModuleFile}
      → read_file h tree path ≡ ok bytes
      → Filed h tree selected paths files
      → Filed h tree selected (path ∷ paths) (
          record { relative = split b'/' path; bytes = bytes; is_root = contains path selected }
          ∷ files)

read_files-Filed :
    (h : Host) (tree : Bytes) (selected paths : List Bytes) (files : List ModuleFile)
    → read_files h tree selected paths ≡ ok files
    → Filed h tree selected paths files
unfolding read_files
read_files-Filed h tree selected [] files e =
    subst (Filed h tree selected []) (ok-injective _ _ e) nil
read_files-Filed h tree selected (path ∷ paths) files e =
    let (bytes, b, e) = bind-eq-ok (read_file h tree path) _ e in
    let (rest, r, e) = bind-eq-ok (read_files h tree selected paths) _ e in
    subst (Filed h tree selected (path ∷ paths)) (ok-injective _ _ e)
      (next path bytes b (read_files-Filed h tree selected paths rest r))

pub read_index-Known :
    (h : Host) (tree : Bytes) (roots : List Bytes) (defs : Definitions) (names : Names)
    → read_index h tree roots ≡ ok (defs, names)
    → Known (defs, names)
unfolding read_index
read_index-Known h tree roots defs names e =
    let (deps, _, e) = bind-eq-ok (metadata h tree (codes "modules.dep")) _ e in
    let (index, read, e) = bind-eq-ok (read_deps roots (lines deps) ([], [])) _ e in
    let (builtin, _, e) = bind-eq-ok (metadata h tree (codes "modules.builtin")) _ e in
    let (names', also, e) = bind-eq-ok (read_builtins roots (lines builtin) index.1) _ e in
    subst Known (ok-injective _ _ e) (
      read_builtins-Known roots (lines builtin) index.0 index.1 names' also
        (read_deps-Known roots (lines deps) ([], []) index read (λ n p k. absurd (empty n p k))))
  where
    empty : (n p : Bytes) → get n [] ≡ some (some p) → ⊥
    empty n p k = cc

pub checked-IsDefined :
    (h : Host) (tree : Bytes) (defs : Definitions) (names : Names) (roots : List Bytes)
    {u : Unit {0}}
    → check_index h tree defs defs ≡ ok u
    → ((p : Bytes) → contains p roots ≡ true → is_known (get p defs) ≡ true)
    → IsDefined defs roots
checked-IsDefined h tree defs names roots e known = record {
  roots_defined = λ p c. known_value (get p defs) (known p c);
  deps_defined =
      λ p q (ds, g, c). known_value (get q defs) (check_index-known h tree defs defs e p q ds g c);
}

lifted-ok {ℓ} : {A : Type ℓ} (r : Result Fault A) {a : A} → lifted r ≡ ok a → r ≡ ok a
lifted-ok (ok a) h = ap ok (ok-injective _ _ h)
lifted-ok (err f) h = cc

exactly :
    (defs : Definitions) (roots paths : List Bytes)
    → IsDefined defs roots
    → closure defs roots ≡ ok paths
    → (p : Bytes) → (contains p paths ≡ true) ↔ Needs defs roots p
exactly defs roots paths defined e p = elim (closure_exact defs roots defined) [
  | inl (done, k, iff) ↦
      let same : done ≡ paths = ok-injective _ _ (sym k ∙ e) in
      subst (λ t. (contains p t ≡ true) ↔ Needs defs roots p) same (iff p)
  | inr (q, k, way) ↦ absurd (let both : err (cycle_at q) ≡ ok paths = sym k ∙ e in cc)
]

-- What `select` promises.
pub record Selected (h : Host) (tree : Bytes) (roots : List Bytes) (defs : Definitions)
    (names : Names) (s : Selection) : Type 0 where
  pub selected : List Bytes
  pub paths : List Bytes
  pub chosen : Chosen names roots s.builtins selected
  pub needed : (p : Bytes) → (contains p paths ≡ true) ↔ Needs defs selected p
  pub filed : Filed h tree selected paths s.files

-- A selection from an index is exact: each name that is asked for is built in, or its path is
-- selected, and no other path is; and the files are read, in their order, from exactly the paths
-- that the selected ones need, of which the selected ones are marked as roots.
pub select-Selected :
    (h : Host) (tree : Bytes) (roots : List Bytes) (defs : Definitions) (names : Names)
    (s : Selection)
    → read_index h tree roots ≡ ok (defs, names)
    → select h tree roots (defs, names) ≡ ok s
    → Selected h tree roots defs names s
unfolding select
select-Selected h tree roots defs names s read e =
    let (_, checked, e) = bind-eq-ok (check_index h tree defs defs) _ e in
    let (_, _, e) = bind-eq-ok (lifted (closure defs (map (λ d. d.0) defs))) _ e in
    let ((builtins, selected), chosen, e) = bind-eq-ok (choose names roots ([], [])) _ e in
    let (paths, closed, e) = bind-eq-ok (lifted (closure defs selected)) _ e in
    let (files, got, e) = bind-eq-ok (read_files h tree selected paths) _ e in
    let all = choose_all names roots builtins selected chosen in
    let known = read_index-Known h tree roots defs names read in
    let defined =
      checked-IsDefined h tree defs names selected checked
        (λ p c. let (root, _, g) = all.only p c in known root p g) in
    subst (Selected h tree roots defs names) (ok-injective _ _ e) (record {
      selected = selected;
      paths = paths;
      chosen = all;
      needed = exactly defs selected paths defined (lifted-ok (closure defs selected) closed);
      filed = read_files-Filed h tree selected paths files got;
    })
