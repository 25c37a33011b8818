-- ===== src/Modules/Index/Known.antt =====
-- Every path that a name selects has a definition (src/modules.rs: resolve).
use mathlib.Core.Option.{some-injective}
use arma.Base.{
  ◌+◌, ◌==◌, ◌≡◌, inl, inr, refl, sym, ◌∙◌, ◌⊎◌, subst, arith, true, not, Bool-cases, Option, none,
  some, List, [], ◌∷◌, if◌then◌else◌, length, drop, ok, refuse_if, refuse_if-ok, bind-eq-ok,
  ok-injective, if_ok-cases,
}
use arma.Base.Text.{Bytes, bytes_eq, before}
use arma.Base.Text
use arma.Modules.Sets.{contains, get, put, get-put, bytes_eq_iff}
use arma.Modules.Names.{
  malformed_line, duplicate_definition, missing_dependency, words, module_path,
}
use arma.Modules.Tree.{Host, checked_file}
use arma.Modules.Closure.{Definitions}
use arma.Modules.Index.{
  Names, is_known, insert_name, insert_edges, read_line, read_deps, read_builtin, read_builtins,
  check_dependencies, check_index,
}

abbrev pub Known : Definitions × Names → Type 0
Known (defs, names) =
    (name path : Bytes) → get name names ≡ some (some path) → is_known (get path defs) ≡ true

insert_name-cases :
    (names : Names) (roots : List Bytes) (name : Bytes) (path : Option Bytes) (out : Names)
    → insert_name names roots name path ≡ ok out
    → (out ≡ names) ⊎ (out ≡ put name path names)
unfolding insert_name
insert_name-cases names roots name path out h = elim (Bool-cases (contains name roots)) [
  | inl e ↦ elim (Bool-cases (is_known (get name names))) [
    | inl k ↦ cc (rw (e, k) at h)
    | inr k ↦ inr (sym (ok-injective _ _ (rw (e, k) at h)))
  ]
  | inr e ↦ inl (sym (ok-injective _ _ (rw e at h)))
]

-- A definition more, and a name for it.
insert_name-Known :
    (defs : Definitions) (names out : Names) (name path : Bytes) (edges : List Bytes)
    → Known (defs, names)
    → (out ≡ names) ⊎ (out ≡ put name (some path) names)
    → Known (put path edges defs, out)
insert_name-Known defs names out name path edges k cases n p h =
    rw (get-put p path edges defs) (elim cases [
      | inl e ↦ let old = k n p (rw e at h) in ground arith
      | inr e ↦
          let seen = sym (get-put n name (some path) names) ∙ (rw e at h) in
          elim (Bool-cases (bytes_eq n name)) [
            | inl same ↦
                let is : some (some path) ≡ some (some p) = (rw same at seen) in
                let q : path ≡ p = some-injective _ _ (some-injective _ _ is) in
                ground (arith, bytes_eq_iff p path)
            | inr other ↦ let old = k n p (rw other at seen) in ground arith
          ]
    ])

builtin-Known :
    (defs : Definitions) (names out : Names) (name : Bytes)
    → Known (defs, names)
    → (out ≡ names) ⊎ (out ≡ put name none names)
    → Known (defs, out)
builtin-Known defs names out name k cases n p h = elim cases [
  | inl e ↦ k n p (rw e at h)
  | inr e ↦
      let seen = sym (get-put n name none names) ∙ (rw e at h) in
      elim (Bool-cases (bytes_eq n name)) [
        | inl same ↦
            let is : ◌≡◌ {A = Option (Option Bytes)} (some none) (some (some p)) =
              (rw same at seen) in
            cc
        | inr other ↦ k n p (rw other at seen)
      ]
]

read_line-Known :
    (roots : List Bytes) (line : Bytes) (defs out_defs : Definitions) (names out : Names)
    → read_line roots line (defs, names) ≡ ok (out_defs, out)
    → Known (defs, names)
    → Known (out_defs, out)
unfolding read_line
read_line-Known roots line defs out_defs names out h k =
    let path = before b':' line in
    let (_, _, h) =
      bind-eq-ok (refuse_if (not (Text.contains b':' line)) (malformed_line line)) _ h in
    let (name, _, h) = bind-eq-ok (module_path path) _ h in
    let (edges, _, h) = bind-eq-ok (insert_edges (words (drop (length path + 1) line)) []) _ h in
    let (_, _, h) =
      bind-eq-ok (refuse_if (is_known (get path defs)) (duplicate_definition path)) _ h in
    let (names', e, h) = bind-eq-ok (insert_name names roots name (some path)) _ h in
    subst Known (ok-injective _ _ h) (
      insert_name-Known defs names names' name path edges k
        (insert_name-cases names roots name (some path) names' e))

pub read_deps-Known :
    (roots lines : List Bytes) (index out : Definitions × Names)
    → read_deps roots lines index ≡ ok out
    → Known index
    → Known out
unfolding read_deps
read_deps-Known roots [] index out h k = subst Known (ok-injective _ _ h) k
read_deps-Known roots (line ∷ lines) index out h k =
    let (mid, e, h) =
      bind-eq-ok (if length line == 0 then ok index else read_line roots line index) _ h in
    read_deps-Known roots lines mid out h (elim (if_ok-cases (length line == 0) index _ e) [
      | inl b ↦ subst Known b k
      | inr b ↦ read_line-Known roots line index.0 mid.0 index.1 mid.1 b k
    ])

read_builtin-Known :
    (roots : List Bytes) (line : Bytes) (defs : Definitions) (names out : Names)
    → read_builtin roots line names ≡ ok out
    → Known (defs, names)
    → Known (defs, out)
unfolding read_builtin
read_builtin-Known roots line defs names out h k =
    let (name, _, e) = bind-eq-ok (module_path line) _ h in
    builtin-Known defs names out name k (insert_name-cases names roots name none out e)

pub read_builtins-Known :
    (roots lines : List Bytes) (defs : Definitions) (names out : Names)
    → read_builtins roots lines names ≡ ok out
    → Known (defs, names)
    → Known (defs, out)
unfolding read_builtins
read_builtins-Known roots [] defs names out h k =
    subst (λ t. Known (defs, t)) (ok-injective _ _ h) k
read_builtins-Known roots (line ∷ lines) defs names out h k =
    let (mid, e, h) =
      bind-eq-ok (if length line == 0 then ok names else read_builtin roots line names) _ h in
    read_builtins-Known roots lines defs mid out h
      (elim (if_ok-cases (length line == 0) names _ e) [
        | inl b ↦ subst (λ t. Known (defs, t)) b k
        | inr b ↦ read_builtin-Known roots line defs names mid b k
      ])

check_dependencies-known :
    (defs : Definitions) (path : Bytes) (deps : List Bytes) {u : Unit {0}}
    → check_dependencies defs path deps ≡ ok u
    → (q : Bytes) → contains q deps ≡ true
    → is_known (get q defs) ≡ true
unfolding check_dependencies contains
check_dependencies-known defs path [] h q c = cc
check_dependencies-known defs path (d ∷ deps) h q c =
    let (_, e, h) =
      bind-eq-ok (refuse_if (not (is_known (get d defs))) (missing_dependency d path)) _ h in
    let known = refuse_if-ok (not (is_known (get d defs))) (missing_dependency d path) e in
    elim (Bool-cases (bytes_eq q d)) [
      | inl same ↦ let at : q ≡ d = (bytes_eq_iff q d).0 same in rw at (ground arith)
      | inr other ↦ check_dependencies-known defs path deps h q (ground arith)
    ]

-- In an index that is checked, each dependency has a definition.
pub check_index-known :
    (h : Host) (tree : Bytes) (defs rest : Definitions) {u : Unit {0}}
    → check_index h tree defs rest ≡ ok u
    → (p q : Bytes) (deps : List Bytes) → get p rest ≡ some deps
    → contains q deps ≡ true
    → is_known (get q defs) ≡ true
unfolding check_index get
check_index-known h tree defs [] e p q deps g c = cc
check_index-known h tree defs ((path, dependencies) ∷ rest) e p q deps g c =
    let (_, _, e) = bind-eq-ok (checked_file h tree path) _ e in
    let (_, here, e) = bind-eq-ok (check_dependencies defs path dependencies) _ e in
    elim (Bool-cases (bytes_eq p path)) [
      | inl same ↦
          let at : dependencies ≡ deps = some-injective _ _ (rw same at g) in
          check_dependencies-known defs path dependencies here q (rw at c)
      | inr other ↦ check_index-known h tree defs rest e p q deps (rw other at g) c
    ]

pub known_value {ℓ} : {A : Type ℓ} (o : Option A) → is_known o ≡ true → (a : A) × (o ≡ some a)
known_value none h = cc
known_value (some a) h = (a, refl)
