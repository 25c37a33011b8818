-- ===== src/Modules/Resolve/Chosen.antt =====
-- What the names choose (src/modules.rs: resolve).
use arma.Base.{
  ◌≡◌, inl, inr, refl, sym, ◌⊎◌, subst, arith, true, false, Bool-cases, Option, none, some, List,
  [], ◌∷◌, ◌++◌, Result, ok, err, bind-eq-ok, ok-injective,
}
use arma.Base.Text.{Bytes, bytes_eq}
use arma.Modules.Sets.{contains, insert, get, contains-insert, contains-append, bytes_eq_iff}
use arma.Modules.Names.{ModuleError, unknown_module}
use arma.Modules.Index.{Names}
use arma.Modules.Resolve.{choose_one, choose}

-- Every name is that of a built-in module, or of a path that is selected; a path that is selected
-- is that of a name.
pub record Chosen (names : Names) (roots builtins selected : List Bytes) : Type 0 where
  pub each :
      (root : Bytes)
      → contains root roots ≡ true
      → (get root names ≡ some none × (contains root builtins ≡ true))
        ⊎ ((path : Bytes) × (get root names ≡ some (some path)) × (contains path selected ≡ true))
  pub only :
      (path : Bytes)
      → contains path selected ≡ true
      → (root : Bytes) × (contains root roots ≡ true) × (get root names ≡ some (some path))

-- The names that are chosen so far.
record Partial (names : Names) (all left builtins selected : List Bytes) : Type 0 where
  met :
      (root : Bytes)
      → contains root all ≡ true
      → (contains root left ≡ true)
        ⊎ ((get root names ≡ some none × (contains root builtins ≡ true))
            ⊎ ((path : Bytes) × (get root names ≡ some (some path))
                × (contains path selected ≡ true)))
  owned :
      (path : Bytes)
      → contains path selected ≡ true
      → (root : Bytes) × (contains root all ≡ true) × (get root names ≡ some (some path))

pub contains-nil : (r : Bytes) → contains r [] ≡ true → ⊥
unfolding contains
contains-nil r h = let both : false ≡ true = h in cc

contains-head : (p : Bytes) (s : List Bytes) → contains p (p ∷ s) ≡ true
unfolding contains
contains-head p s = ground (arith, bytes_eq_iff p p)

contains-tail : (p q : Bytes) (s : List Bytes) → contains p s ≡ true → contains p (q ∷ s) ≡ true
unfolding contains
contains-tail p q s h = ground arith

contains-one :
    (p q : Bytes) (s : List Bytes) → contains p (q ∷ s) ≡ true → (p ≡ q) ⊎ (contains p s ≡ true)
unfolding contains
contains-one p q s h = elim (Bool-cases (bytes_eq p q)) [
  | inl e ↦ inl ((bytes_eq_iff p q).0 e)
  | inr e ↦ inr (ground arith)
]

contains-insert_one :
    (p q : Bytes) (s : List Bytes)
    → contains p (insert q s) ≡ true
    → (p ≡ q) ⊎ (contains p s ≡ true)
contains-insert_one p q s h = elim (Bool-cases (bytes_eq p q)) [
  | inl e ↦ inl ((bytes_eq_iff p q).0 e)
  | inr e ↦ inr (ground (arith, contains-insert p q s))
]

Partial-builtin :
    (names : Names) (all left builtins selected : List Bytes) (root : Bytes)
    → get root names ≡ some none
    → Partial names all (root ∷ left) builtins selected
    → Partial names all left (builtins ++ (root ∷ [])) selected
Partial-builtin names all left builtins selected root e p = record {
  met = λ r c. elim (p.met r c) [
    | inl waits ↦ elim (contains-one r root left waits) [
      | inl at ↦
          let here : contains r (root ∷ []) ≡ true = rw at (contains-head root []) in
          inr (inl (rw at e, ground (arith, contains-append r builtins (root ∷ []))))
      | inr later ↦ inl later
    ]
    | inr (inl (g, b)) ↦ inr (inl (g, ground (arith, contains-append r builtins (root ∷ []))))
    | inr (inr s) ↦ inr (inr s)
  ];
  owned = p.owned;
}

Partial-path :
    (names : Names) (all left builtins selected : List Bytes) (root path : Bytes)
    → get root names ≡ some (some path)
    → contains root all ≡ true
    → Partial names all (root ∷ left) builtins selected
    → Partial names all left builtins (insert path selected)
Partial-path names all left builtins selected root path e wanted p = record {
  met = λ r c. elim (p.met r c) [
    | inl waits ↦ elim (contains-one r root left waits) [
      | inl at ↦ inr (
          inr (
            path,
            rw at e,
            ground (arith, contains-insert path path selected, bytes_eq_iff path path),
          ))
      | inr later ↦ inl later
    ]
    | inr (inl b) ↦ inr (inl b)
    | inr (inr (q, g, s)) ↦ inr (inr (q, g, ground (arith, contains-insert q path selected)))
  ];
  owned = λ q c. elim (contains-insert_one q path selected c) [
    | inl at ↦ (root, wanted, rw at e)
    | inr before ↦ p.owned q before
  ];
}

choose-Partial :
    (names : Names) (all left builtins selected : List Bytes) (out : List Bytes × List Bytes)
    → ((r : Bytes) → contains r left ≡ true → contains r all ≡ true)
    → choose names left (builtins, selected) ≡ ok out
    → Partial names all left builtins selected
    → Partial names all [] (out.0) (out.1)
unfolding choose choose_one
choose-Partial names all [] builtins selected out inside h p =
    subst (λ (t : List Bytes × List Bytes). Partial names all [] t.0 t.1) (ok-injective _ _ h) p
choose-Partial names all (root ∷ left) builtins selected out inside h p =
    let (mid, e, h) = bind-eq-ok (choose_one (get root names) root (builtins, selected)) _ h in
    step (get root names) refl mid e h (λ b s k q.
      choose-Partial names all left b s out (λ r c. inside r (contains-tail r root left c)) k q)
  where
    step :
        (found : Option (Option Bytes))
        → get root names ≡ found
        → (mid : List Bytes × List Bytes) → choose_one found root (builtins, selected) ≡ ok mid
        → choose names left mid ≡ ok out
        → ((b s : List Bytes)
            → choose names left (b, s) ≡ ok out
            → Partial names all left b s
            → Partial names all [] (out.0) (out.1))
        → Partial names all [] (out.0) (out.1)
    step none g mid e h rec = absurd (
        let both : ◌≡◌ {A = Result ModuleError (List Bytes × List Bytes)}
            (err (unknown_module root)) (ok mid) =
          e in
        cc)
    step (some none) g mid e h rec =
        rec (builtins ++ (root ∷ [])) selected
          (subst (λ t. choose names left t ≡ ok out) (sym (ok-injective _ _ e)) h)
          (Partial-builtin names all left builtins selected root g p)
    step (some (some path)) g mid e h rec =
        rec builtins (insert path selected)
          (subst (λ t. choose names left t ≡ ok out) (sym (ok-injective _ _ e)) h)
          (Partial-path names all left builtins selected root path g
            (inside root (contains-head root left)) p)

pub choose_all :
    (names : Names) (roots builtins selected : List Bytes)
    → choose names roots ([], []) ≡ ok (builtins, selected)
    → Chosen names roots builtins selected
choose_all names roots builtins selected h =
    let p = choose-Partial names roots roots [] [] (builtins, selected) (λ r c. c) h start in
    record {
      each = λ root c. elim (p.met root c) [
        | inl none_left ↦ absurd (contains-nil root none_left)
        | inr out ↦ out
      ];
      only = p.owned;
    }
  where
    start : Partial names roots roots [] []
    start = record { met = λ r c. inl c; owned = λ q c. absurd (contains-nil q c) }
