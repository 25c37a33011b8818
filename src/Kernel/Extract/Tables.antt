-- ===== src/Kernel/Extract/Tables.antt =====
-- The table that one relocation goes to (src/kernel.rs: extract_relocs, `match rel.r_type`).
use mathlib.Core.List.{append_assoc, append-nil, map-append}
use arma.Base.{
  ℕ, ◌+◌, ◌-◌, ◌^◌, ◌≡◌, inl, inr, refl, sym, ap, subst, ◌∙◌, arith, Bool, true, false, not, ◌&&◌,
  ◌||◌, Bool-cases, List, [], ◌∷◌, ◌++◌, map, ltb, leb, ◌==◌, if◌then◌else◌, Result, ok, err,
  bind-eq-ok, ok-injective, ◌>>=◌,
}
use arma.Kernel.{KernelError, elf_malformed, reloc_outside, Reloc}
use arma.Kernel.Relocs.{Relocs}
use arma.Kernel.Extract.{
  is_relative, is_absolute, to_image_off, push64, push32, push32neg, classify,
}

-- The three tables: 64-bit, inverse 32-bit and 32-bit.
pub data RelocTable : Type 0 where
  wide inverse narrow : RelocTable

abbrev pub offsets : RelocTable → Relocs → List ℕ
offsets wide r = r.relocs64
offsets inverse r = r.relocs32neg
offsets narrow r = r.relocs32

-- A relocation by its type, and by whether its symbol is per-cpu or absolute: R_X86_64_64 (1) goes
-- to the 64-bit table, R_X86_64_32 (10) and R_X86_64_32S (11) to the 32-bit one, and the relative
-- types (2, 4 and 42) against per-cpu symbols to the inverse one.
abbrev pub belongs : RelocTable → ℕ → Bool → Bool → Bool
belongs wide t percpu abs = t == 1 && not percpu && not abs
belongs inverse t percpu abs = (t == 2 || t == 4 || t == 42) && percpu
belongs narrow t percpu abs = (t == 10 || t == 11) && not percpu && not abs

-- The sites that one step adds to the tables, as addresses.
abbrev pub Adds : ℕ → Relocs → Relocs → (RelocTable → List ℕ) → Type 0
Adds base out out' sites =
    (k : RelocTable)
    → map (λ o. base + o) (offsets k out') ≡ map (λ o. base + o) (offsets k out) ++ sites k

abbrev pub put : Bool → ℕ → List ℕ
put true va = va ∷ []
put false va = []

put-false : (b : Bool) (va : ℕ) (xs : List ℕ) → b ≡ false → xs ≡ xs ++ put b va
put-false true va xs h = cc
put-false false va xs h = sym (append-nil xs)

put-true :
    (b : Bool) (base va o : ℕ) (os : List ℕ)
    → b ≡ true
    → base + o ≡ va
    → map (λ n. base + n) (os ++ (o ∷ [])) ≡ map (λ n. base + n) os ++ put b va
put-true true base va o os h e =
    map-append (λ n. base + n) os (o ∷ []) ∙ ap (λ v. map (λ n. base + n) os ++ (v ∷ [])) e
put-true false base va o os h e = cc

to_image_off-site : (base va o : ℕ) → to_image_off base va ≡ ok o → base + o ≡ va
to_image_off-site base va o h = elim (Bool-cases (leb base va && ltb (va - base) (2 ^ 32))) [
  | inl e ↦
      let same : va - base ≡ o = ok-injective _ _ (rw e at h) in
      subst (λ t. base + t ≡ va) same (ground arith)
  | inr e ↦ absurd (
      let both : ◌≡◌ {A = Result KernelError ℕ} (err (elf_malformed reloc_outside)) (ok o) =
        (rw e at h) in
      cc)
]

module _ (t : ℕ) (p a : Bool) where
  belongs-zero : (t == 0) ≡ true → (k : RelocTable) → belongs k t p a ≡ false
  belongs-zero h wide = ground arith
  belongs-zero h inverse = ground arith
  belongs-zero h narrow = ground arith

  belongs-direct : is_relative t ≡ true → p ≡ false → (k : RelocTable) → belongs k t p a ≡ false
  belongs-direct h c wide = ground arith
  belongs-direct h c inverse = ground arith
  belongs-direct h c narrow = ground arith

  belongs-pc64 : (t == 24) ≡ true → (k : RelocTable) → belongs k t p a ≡ false
  belongs-pc64 h wide = ground arith
  belongs-pc64 h inverse = ground arith
  belongs-pc64 h narrow = ground arith

  belongs-fixed :
      is_absolute t ≡ true → (p || a) ≡ true → (k : RelocTable) → belongs k t p a ≡ false
  belongs-fixed h c wide = ground arith
  belongs-fixed h c inverse = ground arith
  belongs-fixed h c narrow = ground arith

module _ (base t va : ℕ) (p a : Bool) (out : Relocs) where
  abbrev AddsOne : Relocs → Type 0
  AddsOne out' = Adds base out out' (λ k. put (belongs k t p a) va)

  Adds-nothing :
      (out' : Relocs)
      → ((k : RelocTable) → belongs k t p a ≡ false)
      → ◌≡◌ {A = Result KernelError Relocs} (ok out) (ok out')
      → AddsOne out'
  Adds-nothing out' none_of h k =
      subst
        (λ r.
          map (λ o. base + o) (offsets k r)
          ≡ map (λ o. base + o) (offsets k out) ++ put (belongs k t p a) va)
        (ok-injective _ _ h) (put-false (belongs k t p a) va _ (none_of k))

  Adds-inverse :
      (o : ℕ) → is_relative t ≡ true → p ≡ true → base + o ≡ va → AddsOne (push32neg o out)
  Adds-inverse o h c e wide = put-false (belongs wide t p a) va _ (ground arith)
  Adds-inverse o h c e inverse = put-true (belongs inverse t p a) base va o _ (ground arith) e
  Adds-inverse o h c e narrow = put-false (belongs narrow t p a) va _ (ground arith)

  Adds-wide : (o : ℕ) → (t == 1) ≡ true → (p || a) ≡ false → base + o ≡ va → AddsOne (push64 o out)
  Adds-wide o h c e wide = put-true (belongs wide t p a) base va o _ (ground arith) e
  Adds-wide o h c e inverse = put-false (belongs inverse t p a) va _ (ground arith)
  Adds-wide o h c e narrow = put-false (belongs narrow t p a) va _ (ground arith)

  Adds-narrow :
      (o : ℕ)
      → is_absolute t ≡ true
      → (t == 1) ≡ false
      → (p || a) ≡ false
      → base + o ≡ va
      → AddsOne (push32 o out)
  Adds-narrow o h n c e wide = put-false (belongs wide t p a) va _ (ground arith)
  Adds-narrow o h n c e inverse = put-false (belongs inverse t p a) va _ (ground arith)
  Adds-narrow o h n c e narrow = put-true (belongs narrow t p a) base va o _ (ground arith) e

  percpu_relative :
      (out' : Relocs)
      → is_relative t ≡ true
      → (if p then (to_image_off base va >>= λ o. ok (push32neg o out)) else ok out) ≡ ok out'
      → AddsOne out'
  percpu_relative out' r h = elim (Bool-cases p) [
    | inl c ↦
        let (o, e, h') =
          bind-eq-ok (to_image_off base va) (λ o. ok (push32neg o out)) (rw c at h) in
        subst AddsOne (ok-injective _ _ h') (Adds-inverse o r c (to_image_off-site base va o e))
    | inr c ↦ Adds-nothing out' (belongs-direct t p a r c) (rw c at h)
  ]

  direct :
      (out' : Relocs)
      → is_absolute t ≡ true
      → (if p || a
          then ok out
          else (to_image_off base va >>= λ o. ok (if t == 1 then push64 o out else push32 o out)))
        ≡ ok out'
      → AddsOne out'
  direct out' r h = elim (Bool-cases (p || a)) [
    | inl c ↦ Adds-nothing out' (belongs-fixed t p a r c) (rw c at h)
    | inr c ↦
        let (o, e, h') =
          bind-eq-ok (to_image_off base va)
            (λ o. ok (if t == 1 then push64 o out else push32 o out)) (rw c at h) in
        let site = to_image_off-site base va o e in
        subst AddsOne (ok-injective _ _ h') (elim (Bool-cases (t == 1)) [
          | inl one ↦ rw one (Adds-wide o one c site)
          | inr other ↦ rw other (Adds-narrow o r other c site)
        ])
  ]

  pub classify-Adds : (out' : Relocs) → classify base t va p a out ≡ ok out' → AddsOne out'
  unfolding classify
  classify-Adds out' h = elim (Bool-cases (t == 0)) [
    | inl z ↦ Adds-nothing out' (belongs-zero t p a z) (rw z at h)
    | inr z ↦ elim (Bool-cases (is_relative t)) [
      | inl r ↦ percpu_relative out' r (rw (z, r) at h)
      | inr r ↦ elim (Bool-cases (t == 24)) [
        | inl w ↦ elim (Bool-cases p) [
          | inl c ↦ cc (rw (z, r, w, c) at h)
          | inr c ↦ Adds-nothing out' (belongs-pc64 t p a w) (rw (z, r, w, c) at h)
        ]
        | inr w ↦ elim (Bool-cases (is_absolute t)) [
          | inl b ↦ direct out' b (rw (z, r, w, b) at h)
          | inr b ↦ cc (rw (z, r, w, b) at h)
        ]
      ]
    ]
  ]

pub put-keep :
    (b : Bool) (f : Reloc → ℕ) (rel : Reloc) (xs : List Reloc)
    → map f (if b then rel ∷ xs else xs) ≡ put b (f rel) ++ map f xs
put-keep true f rel xs = refl
put-keep false f rel xs = refl

module _ (base : ℕ) where
  pub Adds-then :
      (a b c : Relocs) (s t : RelocTable → List ℕ)
      → Adds base a b s
      → Adds base b c t
      → Adds base a c (λ k. s k ++ t k)
  Adds-then a b c s t h g k =
      g k
      ∙ ap (λ xs. xs ++ t k) (h k)
      ∙ append_assoc (map (λ o. base + o) (offsets k a)) (s k) (t k)

  pub Adds-none :
      (a b : Relocs) → ◌≡◌ {A = Result KernelError Relocs} (ok a) (ok b) → Adds base a b (λ k. [])
  Adds-none a b h k =
      subst (λ r. map (λ o. base + o) (offsets k r) ≡ map (λ o. base + o) (offsets k a) ++ [])
        (ok-injective _ _ h) (sym (append-nil _))

  pub Adds-same :
      (a b : Relocs) (s t : RelocTable → List ℕ)
      → ((k : RelocTable) → s k ≡ t k)
      → Adds base a b s
      → Adds base a b t
  Adds-same a b s t e h k = h k ∙ ap (λ xs. map (λ o. base + o) (offsets k a) ++ xs) (e k)
