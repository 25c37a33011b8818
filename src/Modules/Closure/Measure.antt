-- ===== src/Modules/Closure/Measure.antt =====
-- The work that is left (src/modules.rs: closure): the entries of the stack, and the marker and the
-- dependencies of each path that is not entered.
use mathlib.Core.Option.{some-injective}
use arma.Base.{
  ℕ, suc, ◌+◌, ◌≤◌, ◌<◌, ◌≡◌, inl, inr, ap, arith, Bool, true, false, ◌||◌, Bool-cases, some, List,
  [], ◌∷◌, ◌++◌, if◌then◌else◌, length,
}
use arma.Base.Text.{Bytes, bytes_eq, bytes_eq_sound}
use arma.Modules.Sets.{contains, insert, get, contains-insert, contains-remove, bytes_eq_iff}
use arma.Modules.Closure.{Definitions, Walk, visits, leave, popped, weight}

abbrev pub seen : Bytes → Walk → Bool
seen p w = contains p w.done || contains p w.active

abbrev pub unseen : Definitions → Walk → ℕ
unseen [] w = 0
unseen ((p, ds) ∷ defs) w = (if seen p w then 0 else suc (length ds)) + unseen defs w

abbrev pub work : Definitions → Walk → ℕ
work defs w = length w.stack + unseen defs w

pub unseen-le-weight : (defs : Definitions) (w : Walk) → unseen defs w ≤ weight defs
unseen-le-weight [] w = omega arith
unseen-le-weight ((p, ds) ∷ defs) w = ground (arith, unseen-le-weight defs w)

module _ (w w' : Walk) (grows : (q : Bytes) → seen q w ≡ true → seen q w' ≡ true) where
  pub unseen_mono : (defs : Definitions) → unseen defs w' ≤ unseen defs w
  unseen_mono [] = omega arith
  unseen_mono ((p, ds) ∷ defs) = elim (Bool-cases (seen p w)) [
    | inl e ↦ rw (e, grows p e) (omega (arith, unseen_mono defs))
    | inr e ↦ elim (Bool-cases (seen p w')) [
      | inl f ↦ rw (e, f) (omega (arith, unseen_mono defs))
      | inr f ↦ rw (e, f) (omega (arith, unseen_mono defs))
    ]
  ]

  pub unseen-enter :
      (defs : Definitions) (path : Bytes) (ds : List Bytes)
      → get path defs ≡ some ds
      → seen path w ≡ false
      → seen path w' ≡ true
      → unseen defs w' + suc (length ds) ≤ unseen defs w
  unfolding get
  unseen-enter [] path ds g fresh now = cc
  unseen-enter ((p, ds') ∷ defs) path ds g fresh now = elim (Bool-cases (bytes_eq path p)) [
    | inl e ↦
        let here : path ≡ p = bytes_eq_sound path p e in
        let same : ds' ≡ ds = some-injective _ _ (rw e at g) in
        let old : seen p w ≡ false = rw (← here) fresh in
        let new : seen p w' ≡ true = rw (← here) now in
        rw (old, new) (omega (arith, unseen_mono defs, ap (λ (t : List Bytes). length t) same))
    | inr e ↦
        let rest = unseen-enter defs path ds (rw e at g) fresh now in
        elim (Bool-cases (seen p w)) [
          | inl k ↦ rw (k, grows p k) (omega (arith, rest))
          | inr k ↦ elim (Bool-cases (seen p w')) [
            | inl f ↦ rw (k, f) (omega (arith, rest))
            | inr f ↦ rw (k, f) (omega (arith, rest))
          ]
        ]
  ]

pub length-visits :
    (ds : List Bytes) (ys : List (Bytes × Bool)) → length (visits ds ++ ys) ≡ length ds + length ys
length-visits [] ys = omega arith
length-visits (d ∷ ds) ys = omega (arith, length-visits ds ys)

module _ (defs : Definitions) (w : Walk) (path : Bytes) (b : Bool) (rest : List (Bytes × Bool))
    (e : w.stack ≡ (path, b) ∷ rest) where
  pub work-popped : work defs (popped w rest) < work defs w
  work-popped = omega (
    arith,
    unseen_mono w (popped w rest) (λ q h. h) defs,
    ap (λ (t : List (Bytes × Bool)). length t) e,
  )

  pub work-leave : work defs (leave path (popped w rest)) < work defs w
  unfolding leave
  work-leave = omega (
    arith,
    unseen_mono w (leave path (popped w rest))
        (λ q h. ground (
          arith,
          contains-insert q path w.done,
          contains-remove q path w.active,
          bytes_eq_iff q path,
          bytes_eq_iff path q,
        ))
        defs,
    ap (λ (t : List (Bytes × Bool)). length t) e,
  )

  pub work-enter :
      (ds : List Bytes)
      → get path defs ≡ some ds
      → seen path w ≡ false
      → work defs (record {
        done = w.done;
        active = insert path w.active;
        stack = visits ds ++ (path, true) ∷ rest;
      })
        < work defs w
  work-enter ds got fresh =
      let w' : Walk = record {
        done = w.done;
        active = insert path w.active;
        stack = visits ds ++ (path, true) ∷ rest;
      } in
      omega (
        arith,
        unseen-enter w w' (λ q h. ground (arith, contains-insert q path w.active)) defs path ds got
            fresh (ground (arith, contains-insert path path w.active, bytes_eq_iff path path)),
        length-visits ds ((path, true) ∷ rest),
        ap (λ (t : List (Bytes × Bool)). length t) e,
      )
