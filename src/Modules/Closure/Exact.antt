-- ===== src/Modules/Closure/Exact.antt =====
-- The closure is what the roots need, or there is a cycle (src/modules.rs: closure).
use arma.Base.{
  ℕ, zero, suc, ◌<◌, ◌≡◌, inl, inr, refl, sym, ◌∙◌, ◌⊎◌, ◌↔◌, subst, arith, Bool, true, false, ◌||◌,
  Bool-cases, some, List, [], ◌∷◌, ◌++◌, Result, ok, err, ◌>>=◌,
}
use arma.Base.Text.{Bytes, bytes_eq, bytes_eq_sound}
use arma.Modules.Sets.{contains, insert, get, bytes_eq_iff}
use arma.Modules.Closure.{
  Definitions, Fault, cycle_at, Walk, visits, enter, leave, popped, walk, weight, close_roots,
  closure,
}
use arma.Modules.Closure.Invariant.{
  Dep, Needs, root, dep, Leads, paths_of, Linked, marked, contains-cons, cycle_found,
}
use arma.Modules.Closure.Round.{Inv, Inv-skip, Inv-leave, Inv-enter, none_lem}
use arma.Modules.Closure.Measure.{work, unseen-le-weight, work-popped, work-leave, work-enter}

-- Every path that the roots or a dependency name has a definition.
pub record IsDefined (defs : Definitions) (roots : List Bytes) : Type 0 where
  pub roots_defined :
      (p : Bytes) → contains p roots ≡ true → (ds : List Bytes) × (get p defs ≡ some ds)
  pub deps_defined : (p q : Bytes) → Dep defs p q → (ds : List Bytes) × (get q defs ≡ some ds)

Needs-defined :
    (defs : Definitions) (roots : List Bytes)
    → IsDefined defs roots
    → {p : Bytes} → Needs defs roots p
    → (ds : List Bytes) × (get p defs ≡ some ds)
Needs-defined defs roots h (root p k) = h.roots_defined p k
Needs-defined defs roots h (dep {p} q n d) = h.deps_defined p q d

module _ (defs : Definitions) (want : List Bytes) (defined : IsDefined defs want) where
  data Ended (must : List Bytes) (r : Result Fault Walk) : Type 0 where
    finished : (w : Walk) → r ≡ ok w → Inv defs want must w → w.stack ≡ [] → Ended must r
    cyclic : (p : Bytes) → r ≡ err (cycle_at p) → Leads defs p p → Ended must r

  -- A round, from the entries of the stack.
  module _ (must : List Bytes) (fuel : ℕ)
      (ih : (w : Walk)
        → Inv defs want must w
        → work defs w < fuel
        → Ended must (walk fuel defs w)) where
    module _ (w : Walk) (inv : Inv defs want must w) (h : work defs w < suc fuel) where
      from_enter :
          (path : Bytes) (rest : List (Bytes × Bool))
          → w.stack ≡ (path, false) ∷ rest
          → Ended must (enter defs path (popped w rest) >>= λ w'. walk fuel defs w')
      unfolding enter
      from_enter path rest e = elim (Bool-cases (contains path w.done)) [
        | inl known ↦ rw known (
            ih (popped w rest) (Inv-skip defs want must w path rest e inv known)
              (omega (arith, work-popped defs w path false rest e)))
        | inr fresh ↦ elim (Bool-cases (contains path w.active)) [
          | inl waits ↦
              let there : marked path ((path, false) ∷ rest) ≡ true =
                rw e at (inv.markers path waits) in
              rw (fresh, waits)
                (cyclic path refl
                  (cycle_found defs path rest (subst (Linked defs) e inv.linked) there))
          | inr idle ↦
              let needed = inv.sound_stack path (
                rw e (
                  ground (
                    arith,
                    contains-cons defs path path (paths_of rest),
                    bytes_eq_iff path path,
                  ))) in
              let (ds, got) = Needs-defined defs want defined needed in
              let w' : Walk = record {
                done = w.done;
                active = insert path w.active;
                stack = visits ds ++ (path, true) ∷ rest;
              } in
              rw (fresh, idle, got)
                (ih w' (Inv-enter defs want must w path rest ds e inv got)
                  (omega (arith, work-enter defs w path false rest e ds got (ground arith))))
        ]
      ]

      from_stack :
          (stack : List (Bytes × Bool)) → w.stack ≡ stack → Ended must (walk (suc fuel) defs w)
      unfolding walk
      from_stack [] e = finished w (simp (e, walk)) inv e
      from_stack ((path, true) ∷ rest) e =
          rw (walk, e)
            (ih (leave path (popped w rest)) (Inv-leave defs want must w path rest e inv)
              (omega (arith, work-leave defs w path true rest e)))
      from_stack ((path, false) ∷ rest) e = rw (walk, e) (from_enter path rest e)

  walk-Ended :
      (must : List Bytes) (fuel : ℕ) (w : Walk)
      → Inv defs want must w
      → work defs w < fuel
      → Ended must (walk fuel defs w)
  walk-Ended must zero w inv h = absurd (omega arith)
  walk-Ended must (suc fuel) w inv h =
      from_stack must fuel (walk-Ended must fuel) w inv h w.stack refl

  abbrev at_rest : List Bytes → List Bytes → Walk
  at_rest done active = record { done = done; active = active; stack = [] }

  Inv-root :
      (must done active : List Bytes) (path : Bytes)
      → contains path want ≡ true
      → Inv defs want must (at_rest done active)
      → Inv defs want
          (path ∷ must)
          (record { done = done; active = active; stack = (path, false) ∷ [] })
  Inv-root must done active path wanted inv = record {
    sound_done = inv.sound_done;
    sound_stack = λ p h.
        let same : bytes_eq p path ≡ true =
          ground (arith, contains-cons defs p path [], none_lem p) in
        root p (rw (bytes_eq_sound p path same) wanted);
    closed = inv.closed;
    covered = tt;
    reached = λ p h.
        let before = inv.reached p in
        ground
          (arith, contains-cons defs p path must, contains-cons defs p path [], none_lem p, before);
    linked = (tt, tt);
    markers = λ p h. inv.markers p h;
  }

  Inv-rest :
      (must : List Bytes) (w : Walk)
      → Inv defs want must w
      → w.stack ≡ []
      → Inv defs want must (at_rest w.done w.active)
  Inv-rest must w inv e = record {
    sound_done = inv.sound_done;
    sound_stack = λ p h. inv.sound_stack p (rw e h);
    closed = inv.closed;
    covered = tt;
    reached = λ p h. let before = inv.reached p h in rw e at before;
    linked = tt;
    markers = λ p h. let before = inv.markers p h in rw e at before;
  }

  -- The result of a run over the roots.
  data Closed (r : Result Fault (List Bytes)) : Type 0 where
    exact :
        (done : List Bytes)
        → r ≡ ok done
        → ((p : Bytes) → (contains p done ≡ true) ↔ Needs defs want p)
        → Closed r
    cyclic : (p : Bytes) → r ≡ err (cycle_at p) → Leads defs p p → Closed r

  Needs-done :
      (done : List Bytes)
      → ((p : Bytes) → contains p want ≡ true → contains p done ≡ true)
      → ((p q : Bytes) → contains p done ≡ true → Dep defs p q → contains q done ≡ true)
      → {p : Bytes} → Needs defs want p
      → contains p done ≡ true
  Needs-done done all closed (root p k) = all p k
  Needs-done done all closed (dep {p} q n d) = closed p q (Needs-done done all closed n) d

  from_walk :
      (must roots : List Bytes) (r : Result Fault Walk)
      → Ended must r
      → ((w : Walk)
          → Inv defs want must w
          → w.stack ≡ []
          → Closed (close_roots defs roots w.done w.active))
      → Closed (r >>= λ w. close_roots defs roots w.done w.active)
  from_walk must roots r (finished w e inv empty) k = rw e (k w inv empty)
  from_walk must roots r (Ended.cyclic p e way) k = rw e (cyclic p refl way)

  close_roots-Closed :
      (roots must done active : List Bytes)
      → ((p : Bytes) → contains p roots ≡ true → contains p want ≡ true)
      → ((p : Bytes) → contains p want ≡ true → (contains p roots || contains p must) ≡ true)
      → Inv defs want must (at_rest done active)
      → Closed (close_roots defs roots done active)
  unfolding close_roots
  close_roots-Closed [] must done active inside all inv = exact done refl (λ p. (
    inv.sound_done p,
    Needs-done done
        (λ q h. let left = all q h in let got = inv.reached q in ground (arith, none_lem q, got))
        inv.closed,
  ))
  close_roots-Closed (path ∷ roots) must done active inside all inv =
      let w : Walk = record { done = done; active = active; stack = (path, false) ∷ [] } in
      let wanted =
        inside path (ground (arith, contains-cons defs path path roots, bytes_eq_iff path path)) in
      from_walk (path ∷ must) roots _
        (walk-Ended (path ∷ must) (suc (suc (weight defs))) w
          (Inv-root must done active path wanted inv) (omega (arith, unseen-le-weight defs w)))
        (λ w' inv' empty.
          close_roots-Closed roots (path ∷ must) w'.done w'.active
            (λ p h. inside p (ground (arith, contains-cons defs p path roots)))
            (λ p h.
              let before = all p h in
              ground (arith, contains-cons defs p path roots, contains-cons defs p path must))
            (Inv-rest (path ∷ must) w' inv' empty))

-- Where the roots and all dependencies have a definition, the closure either returns exactly the
-- paths that the roots need, or fails at a path that leads back to itself: it does not run out of
-- its rounds, and no index is missing.
pub closure_exact :
    (defs : Definitions) (roots : List Bytes)
    → IsDefined defs roots
    → ((done : List Bytes) × (closure defs roots ≡ ok done)
        × ((p : Bytes) → (contains p done ≡ true) ↔ Needs defs roots p))
      ⊎ ((p : Bytes) × (closure defs roots ≡ err (cycle_at p)) × Leads defs p p)
unfolding closure
closure_exact defs roots defined = conclude (
    close_roots-Closed defs roots defined roots [] [] [] (λ p h. h) (λ p h. ground arith)
      (record {
        sound_done = λ p h. absurd (empty_has p h);
        sound_stack = λ p h. absurd (empty_has p h);
        closed = λ p q h d. absurd (empty_has p h);
        covered = tt;
        reached = λ p h. absurd (empty_has p h);
        linked = tt;
        markers = λ p h. absurd (empty_has p h);
      }))
  where
    empty_has : (p : Bytes) → contains p [] ≡ true → ⊥
    empty_has p h = let both : false ≡ true = sym (none_lem p) ∙ h in cc

    conclude :
        Closed defs roots defined (closure defs roots)
        → ((done : List Bytes) × (closure defs roots ≡ ok done)
            × ((p : Bytes) → (contains p done ≡ true) ↔ Needs defs roots p))
          ⊎ ((p : Bytes) × (closure defs roots ≡ err (cycle_at p)) × Leads defs p p)
    conclude (exact done e h) = inl (done, e, h)
    conclude (Closed.cyclic p e way) = inr (p, e, way)
