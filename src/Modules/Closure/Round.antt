-- ===== src/Modules/Closure/Round.antt =====
-- One round keeps the invariant and falls (src/modules.rs: closure).
use mathlib.Core.Option.{some-injective}
use arma.Base.{
  ◌≡◌, inl, inr, refl, sym, ◌∙◌, subst, arith, Bool, true, false, ◌||◌, Bool-cases, some, List, [],
  ◌∷◌, ◌++◌,
}
use arma.Base.Text.{Bytes, bytes_eq, bytes_eq_sound}
use arma.Modules.Sets.{contains, insert, get, bytes_eq_iff, contains-insert, contains-remove}
use arma.Modules.Closure.{Definitions, Walk, visits, leave, popped}
use arma.Modules.Closure.Invariant.{
  Dep, Needs, dep, paths_of, marked, Linked, Covered, contains-cons, Covered-weaken, Covered-visits,
  contains-pushed, pushed, Linked-visits, marked-visits, paths-visits,
}

pub none_lem : (q : Bytes) → contains q [] ≡ false
unfolding contains
none_lem q = refl

module _ (defs : Definitions) (want : List Bytes) (must : List Bytes) where
  -- What is done and what waits is needed, what is done is closed, what must be reached is done or
  -- waits, and the markers are the active paths.
  pub record Inv (w : Walk) : Type 0 where
    pub sound_done : (p : Bytes) → contains p w.done ≡ true → Needs defs want p
    pub sound_stack : (p : Bytes) → contains p (paths_of w.stack) ≡ true → Needs defs want p
    pub closed : (p q : Bytes) → contains p w.done ≡ true → Dep defs p q → contains q w.done ≡ true
    pub covered : Covered defs w.done [] w.stack
    pub reached :
        (p : Bytes)
        → contains p must ≡ true
        → (contains p w.done || contains p (paths_of w.stack)) ≡ true
    pub linked : Linked defs w.stack
    pub markers : (p : Bytes) → contains p w.active ≡ true → marked p w.stack ≡ true

  module _ (w : Walk) (path : Bytes) (rest : List (Bytes × Bool)) where
    -- A path that is done already.
    pub Inv-skip :
        w.stack ≡ (path, false) ∷ rest → Inv w → contains path w.done ≡ true → Inv (popped w rest)
    unfolding contains
    Inv-skip e inv known =
        let at : Covered defs w.done [] ((path, false) ∷ rest) =
          subst (Covered defs w.done []) e inv.covered in
        let links : Linked defs ((path, false) ∷ rest) = subst (Linked defs) e inv.linked in
        record {
          sound_done = inv.sound_done;
          sound_stack = λ p h. inv.sound_stack p (rw e (ground arith));
          closed = inv.closed;
          covered =
              Covered-weaken defs rest w.done w.done (path ∷ []) []
                (λ q k. ground (arith, contains-cons defs q path [], bytes_eq_iff q path)) at;
          reached =
              λ p h. let before = rw e at (inv.reached p h) in ground (arith, bytes_eq_iff p path);
          linked = links.1;
          markers = λ p h. rw e at (inv.markers p h);
        }

    -- The marker of a path whose dependencies are done.
    pub Inv-leave : w.stack ≡ (path, true) ∷ rest → Inv w → Inv (leave path (popped w rest))
    unfolding leave
    Inv-leave e inv =
        let at : Covered defs w.done [] ((path, true) ∷ rest) =
          subst (Covered defs w.done []) e inv.covered in
        let links : Linked defs ((path, true) ∷ rest) = subst (Linked defs) e inv.linked in
        record {
          sound_done = λ p h. elim (Bool-cases (bytes_eq p path)) [
            | inl q ↦
                inv.sound_stack p (rw e (ground (arith, contains-cons defs p path (paths_of rest))))
            | inr q ↦ inv.sound_done p (ground (arith, contains-insert p path w.done))
          ];
          sound_stack = λ p h.
              inv.sound_stack p (rw e (ground (arith, contains-cons defs p path (paths_of rest))));
          closed = λ p q h d. elim (Bool-cases (bytes_eq p path)) [
            | inl k ↦
                let here : Dep defs path q =
                  subst (λ t. Dep defs t q) (bytes_eq_sound p path k) d in
                let known = at.0 q here in ground (arith, contains-insert q path w.done, none_lem q)
            | inr k ↦
                let known = inv.closed p q (ground (arith, contains-insert p path w.done)) d in
                ground (arith, contains-insert q path w.done)
          ];
          covered =
              Covered-weaken defs rest w.done (insert path w.done) (path ∷ []) []
                (λ q k.
                  ground (
                    arith,
                    contains-cons defs q path [],
                    contains-insert q path w.done,
                    none_lem q,
                  ))
                at.1;
          reached = λ p h.
              let before = rw e at (inv.reached p h) in
              ground
                (arith, contains-insert p path w.done, contains-cons defs p path (paths_of rest));
          linked = links.1;
          markers = λ p h.
              let was = inv.markers p (ground (arith, contains-remove p path w.active)) in
              let there : marked p ((path, true) ∷ rest) ≡ true = rw e at was in
              ground
                (arith, contains-remove p path w.active, bytes_eq_iff p path, bytes_eq_iff path p);
        }

    -- A path that is entered for the first time.
    pub Inv-enter :
        (ds : List Bytes)
        → w.stack ≡ (path, false) ∷ rest
        → Inv w
        → get path defs ≡ some ds
        → Inv (record {
          done = w.done;
          active = insert path w.active;
          stack = visits ds ++ (path, true) ∷ rest;
        })
    Inv-enter ds e inv got =
        let at : Covered defs w.done [] ((path, false) ∷ rest) =
          subst (Covered defs w.done []) e inv.covered in
        let links : Linked defs ((path, false) ∷ rest) = subst (Linked defs) e inv.linked in
        let needed : Needs defs want path = inv.sound_stack path (
          rw e (
            ground
              (arith, contains-cons defs path path (paths_of rest), bytes_eq_iff path path))) in
        record {
          sound_done = inv.sound_done;
          sound_stack = λ p h. elim (Bool-cases (contains p ds)) [
            | inl k ↦ dep p needed (ds, got, k)
            | inr k ↦
                let later : contains p (path ∷ paths_of rest) ≡ true =
                  ground (arith, paths-visits defs p ds ((path, true) ∷ rest)) in
                inv.sound_stack p (rw e later)
          ];
          closed = inv.closed;
          covered = Covered-visits defs ds w.done [] ((path, true) ∷ rest) (
            λ q (ds', got', k).
                let same : ds' ≡ ds = some-injective _ _ (sym got' ∙ got) in
                let k' : contains q ds ≡ true = subst (λ t. contains q t ≡ true) same k in
                ground (arith, contains-pushed defs q ds []),
            Covered-weaken defs rest w.done w.done (path ∷ []) (path ∷ pushed defs ds [])
                (λ q k. ground (
                  arith,
                  contains-cons defs q path [],
                  contains-cons defs q path (pushed defs ds []),
                  none_lem q,
                ))
                at,
          );
          reached = λ p h.
              let before = rw e at (inv.reached p h) in
              ground (arith, paths-visits defs p ds ((path, true) ∷ rest));
          linked = Linked-visits defs path ds rest (λ q k. (ds, got, k)) links;
          markers = λ p h. elim (Bool-cases (bytes_eq p path)) [
            | inl k ↦ rw (marked-visits defs p ds ((path, true) ∷ rest)) (ground (arith))
            | inr k ↦
                let was = inv.markers p (ground (arith, contains-insert p path w.active)) in
                let there : marked p ((path, false) ∷ rest) ≡ true = rw e at was in
                rw (marked-visits defs p ds ((path, true) ∷ rest)) (ground (arith))
          ];
        }
