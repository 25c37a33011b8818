-- ===== src/Modules/Closure/Invariant.antt =====
-- The invariant of the walk (src/modules.rs: closure).
use arma.Base.{
  ◌≡◌, inl, inr, refl, sym, ◌⊎◌, subst, arith, Bool, true, false, ◌||◌, Bool-cases, Option, none,
  some, List, [], ◌∷◌, ◌++◌, map,
}
use arma.Base.Text.{Bytes, bytes_eq, bytes_eq_sound}
use arma.Modules.Sets.{contains, get, bytes_eq_iff}
use arma.Modules.Closure.{Definitions, visits}

-- `q` is a dependency of `p`.
abbrev pub Dep : Definitions → Bytes → Bytes → Type 0
Dep defs p q = (ds : List Bytes) × (get p defs ≡ some ds) × (contains q ds ≡ true)

-- The paths that the roots need.
pub data Needs (defs : Definitions) (roots : List Bytes) : Bytes → Type 0 where
  root : (p : Bytes) → contains p roots ≡ true → Needs defs roots p
  dep : {p : Bytes} (q : Bytes) → Needs defs roots p → Dep defs p q → Needs defs roots q

-- `q` follows from `p` by one dependency or more.
pub data Leads (defs : Definitions) (p : Bytes) : Bytes → Type 0 where
  one : (q : Bytes) → Dep defs p q → Leads defs p q
  more : {q : Bytes} (r : Bytes) → Leads defs p q → Dep defs q r → Leads defs p r

abbrev pub paths_of : List (Bytes × Bool) → List Bytes
paths_of stack = map (λ e. e.0) stack

-- The markers on the stack.
abbrev pub marked : Bytes → List (Bytes × Bool) → Bool
marked q [] = false
marked q ((p, true) ∷ ys) = bytes_eq q p || marked q ys
marked q ((p, false) ∷ ys) = marked q ys

abbrev pub nearest : List (Bytes × Bool) → Option Bytes
nearest [] = none
nearest ((p, true) ∷ ys) = some p
nearest ((p, false) ∷ ys) = nearest ys

module _ (defs : Definitions) where
  abbrev pub From : Option Bytes → Bytes → Type 0
  From none q = Unit
  From (some m) q = Dep defs m q

  -- Each entry is a dependency of the marker below it.
  abbrev pub Linked : List (Bytes × Bool) → Type 0
  Linked [] = Unit
  Linked ((q, b) ∷ ys) = From (nearest ys) q × Linked ys

  -- The dependencies of a marker are done or lie above it.
  abbrev pub Covered : List Bytes → List Bytes → List (Bytes × Bool) → Type 0
  Covered done above [] = Unit
  Covered done above ((p, true) ∷ ys) =
      ((q : Bytes) → Dep defs p q → (contains q done || contains q above) ≡ true)
      × Covered done (p ∷ above) ys
  Covered done above ((p, false) ∷ ys) = Covered done (p ∷ above) ys

  pub contains-cons :
      (q p : Bytes) (s : List Bytes) → contains q (p ∷ s) ≡ (bytes_eq q p || contains q s)
  unfolding contains
  contains-cons q p s = refl

  pub Covered-weaken :
      (ys : List (Bytes × Bool)) (done done' above above' : List Bytes)
      → ((q : Bytes)
          → (contains q done || contains q above) ≡ true
          → (contains q done' || contains q above') ≡ true)
      → Covered done above ys
      → Covered done' above' ys
  Covered-weaken [] done done' above above' h c = tt
  Covered-weaken ((p, true) ∷ ys) done done' above above' h (c, rest) = (
    λ q d. h q (c q d),
    Covered-weaken ys done done' (p ∷ above) (p ∷ above')
        (λ q k. ground (arith, contains-cons q p above, contains-cons q p above', h q)) rest,
  )
  Covered-weaken ((p, false) ∷ ys) done done' above above' h c =
      Covered-weaken ys done done' (p ∷ above) (p ∷ above')
        (λ q k. ground (arith, contains-cons q p above, contains-cons q p above', h q)) c

  abbrev pub pushed : List Bytes → List Bytes → List Bytes
  pushed [] above = above
  pushed (d ∷ ds) above = pushed ds (d ∷ above)

  pub contains-pushed :
      (q : Bytes) (ds above : List Bytes)
      → contains q (pushed ds above) ≡ (contains q ds || contains q above)
  unfolding contains
  contains-pushed q [] above = refl
  contains-pushed q (d ∷ ds) above = ground (arith, contains-pushed q ds (d ∷ above))

  pub Covered-visits :
      (ds : List Bytes) (done above : List Bytes) (ys : List (Bytes × Bool))
      → Covered done (pushed ds above) ys
      → Covered done above (visits ds ++ ys)
  Covered-visits [] done above ys c = c
  Covered-visits (d ∷ ds) done above ys c = Covered-visits ds done (d ∷ above) ys c

  nearest-visits :
      (ds : List Bytes) (ys : List (Bytes × Bool)) → nearest (visits ds ++ ys) ≡ nearest ys
  nearest-visits [] ys = refl
  nearest-visits (d ∷ ds) ys = nearest-visits ds ys

  pub marked-visits :
      (q : Bytes) (ds : List Bytes) (ys : List (Bytes × Bool))
      → marked q (visits ds ++ ys) ≡ marked q ys
  marked-visits q [] ys = refl
  marked-visits q (d ∷ ds) ys = marked-visits q ds ys

  pub Linked-visits :
      (p : Bytes) (ds : List Bytes) (ys : List (Bytes × Bool))
      → ((q : Bytes) → contains q ds ≡ true → Dep defs p q)
      → Linked ((p, true) ∷ ys)
      → Linked (visits ds ++ (p, true) ∷ ys)
  Linked-visits p [] ys h l = l
  Linked-visits p (d ∷ ds) ys h l = (
    rw (nearest-visits ds ((p, true) ∷ ys))
        (h d (ground (arith, contains-cons d d ds, bytes_eq_iff d d))),
    Linked-visits p ds ys (λ q k. h q (ground (arith, contains-cons q d ds))) l,
  )

  pub paths-visits :
      (q : Bytes) (ds : List Bytes) (ys : List (Bytes × Bool))
      → contains q (paths_of (visits ds ++ ys)) ≡ (contains q ds || contains q (paths_of ys))
  unfolding contains
  paths-visits q [] ys = refl
  paths-visits q (d ∷ ds) ys = ground (arith, paths-visits q ds ys)

  -- From a marker the stack leads to the nearest marker.
  marked-Leads :
      (p : Bytes) (ys : List (Bytes × Bool))
      → Linked ys
      → marked p ys ≡ true
      → (m : Bytes) × (nearest ys ≡ some m) × ((m ≡ p) ⊎ Leads defs p m)
  marked-Leads p [] l h = cc
  marked-Leads p ((q, false) ∷ ys) (f, l) h = marked-Leads p ys l h
  marked-Leads p ((q, true) ∷ ys) (f, l) h = elim (Bool-cases (bytes_eq p q)) [
    | inl e ↦ (q, refl, inl (sym (bytes_eq_sound p q e)))
    | inr e ↦
        let (m, near, way) = marked-Leads p ys l (rw e at h) in
        let d : Dep defs m q = rw near at f in (q, refl, inr (leads_on m way d))
  ]
    where
      leads_on : (m : Bytes) → (m ≡ p) ⊎ Leads defs p m → Dep defs m q → Leads defs p q
      leads_on m (inl e) d = one q (subst (λ t. Dep defs t q) e d)
      leads_on m (inr w) d = more q w d

  -- A path that is entered while its marker waits lies on a cycle.
  pub cycle_found :
      (p : Bytes) (ys : List (Bytes × Bool))
      → Linked ((p, false) ∷ ys)
      → marked p ys ≡ true
      → Leads defs p p
  cycle_found p ys (f, l) h =
      let (m, near, way) = marked-Leads p ys l h in
      let d : Dep defs m p = rw near at f in
      elim way [ inl e ↦ one p (subst (λ t. Dep defs t p) e d) | inr w ↦ more p w d ]
