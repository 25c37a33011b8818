-- ===== src/Relocate/Sites.antt =====
-- What the patches do to the words of a kernel (deps/tatu/src/arch_x86_64.rs: apply_kaslr).
use arma.Base.{
  ℕ, zero, suc, ◌+◌, ◌^◌, ◌≤◌, ◌<◌, ◌≡◌, ◌⊎◌, refl, sym, ap, ◌∙◌, subst, arith, List, [], ◌∷◌, ◌++◌,
  leb, inl, inr, true, take, drop, length, length-append, length-take, All,
}
use arma.Base.Slice.{le, from_le, from_le-le, length-le, length-drop, take-append, drop-append}
use arma.Base.Text.{Bytes}
use arma.Relocate.{patch, patch_all}

-- The word at an offset.
abbrev pub word_of : ℕ → ℕ → Bytes → ℕ
word_of n o img = from_le (take n (drop o img))

take-front :
    (m o : ℕ) (img xs : Bytes) → m ≤ o → o ≤ length img → take m (take o img ++ xs) ≡ take m img
take-front zero o img xs h k = refl
take-front (suc m) zero img xs h k = absurd (omega arith)
take-front (suc m) (suc o) [] xs h k = absurd (omega arith)
take-front (suc m) (suc o) (b ∷ bs) xs h k =
    ap (λ t. b ∷ t) (take-front m o bs xs (omega arith) (omega arith))

before_site :
    (p m o : ℕ) (img xs : Bytes)
    → p + m ≤ o
    → o ≤ length img
    → take m (drop p (take o img ++ xs)) ≡ take m (drop p img)
before_site zero m o img xs h k = take-front m o img xs (omega arith) k
before_site (suc p) m zero img xs h k = absurd (omega arith)
before_site (suc p) m (suc o) [] xs h k = absurd (omega arith)
before_site (suc p) m (suc o) (b ∷ bs) xs h k = before_site p m o bs xs (omega arith) (omega arith)

drop-window :
    (w img : Bytes) (n p : ℕ)
    → length w ≡ n
    → n ≤ p
    → n ≤ length img
    → drop p (w ++ drop n img) ≡ drop p img
drop-window [] img zero p e h k = refl
drop-window [] img (suc n) p e h k = absurd (omega arith)
drop-window (x ∷ w) img zero p e h k = absurd (omega arith)
drop-window (x ∷ w) img (suc n) zero e h k = absurd (omega arith)
drop-window (x ∷ w) [] (suc n) (suc p) e h k = absurd (omega arith)
drop-window (x ∷ w) (b ∷ bs) (suc n) (suc p) e h k =
    drop-window w bs n p (omega arith) (omega arith) (omega arith)

after_site :
    (o n p : ℕ) (w img : Bytes)
    → length w ≡ n
    → o + n ≤ p
    → o + n ≤ length img
    → drop p (take o img ++ (w ++ drop (o + n) img)) ≡ drop p img
after_site zero n p w img e h k =
    let z : 0 + n ≡ n = omega arith in rw z (drop-window w img n p e (omega arith) (omega arith))
after_site (suc o) n zero w img e h k = absurd (omega arith)
after_site (suc o) n (suc p) w [] e h k = absurd (omega arith)
after_site (suc o) n (suc p) w (b ∷ bs) e h k =
    let z : suc o + n ≡ suc (o + n) = omega arith in
    rw z (after_site o n p w bs e (omega arith) (omega arith))

at_site :
    (o n : ℕ) (w img z : Bytes)
    → length w ≡ n
    → o ≤ length img
    → take n (drop o (take o img ++ (w ++ z))) ≡ w
at_site o n w img z e h =
    let long : length (take o img) ≡ o = omega (arith, length-take o img) in
    let cut : drop o (take o img ++ (w ++ z)) ≡ w ++ z =
      subst (λ t. drop t (take o img ++ (w ++ z)) ≡ w ++ z) long
        (drop-append (take o img) (w ++ z)) in
    rw cut (subst (λ t. take t (w ++ z) ≡ w) e (take-append w z))

module _ (n : ℕ) (f : ℕ → ℕ) where
  -- The image with a word written at `o`.
  abbrev written : ℕ → Bytes → Bytes
  written o img = take o img ++ (le n (f (word_of n o img)) ++ drop (o + n) img)

  patch-fits : (o : ℕ) (img : Bytes) → o + n ≤ length img → patch n f o img ≡ written o img
  unfolding patch
  patch-fits o img h = let e : leb (o + n) (length img) ≡ true = ground arith in rw e refl

  length-patch : (o : ℕ) (img : Bytes) → o + n ≤ length img → length (patch n f o img) ≡ length img
  length-patch o img h =
      let w = le n (f (word_of n o img)) in
      rw (patch-fits o img h) (
        omega (
          arith,
          length-append (take o img) (w ++ drop (o + n) img),
          length-append w (drop (o + n) img),
          length-le n (f (word_of n o img)),
          length-take o img,
          length-drop (o + n) img,
        ))

  patch-reads :
      (o : ℕ) (img : Bytes)
      → o + n ≤ length img
      → f (word_of n o img) < 256 ^ n
      → word_of n o (patch n f o img) ≡ f (word_of n o img)
  patch-reads o img h small =
      let v = f (word_of n o img) in
      rw (patch-fits o img h) (
        ap from_le (at_site o n (le n v) img (drop (o + n) img) (length-le n v) (omega arith))
        ∙ from_le-le n v small)

  -- A word that a patch does not meet.
  patch-keeps :
      (o p : ℕ) (img : Bytes)
      → o + n ≤ length img
      → (p + n ≤ o) ⊎ (o + n ≤ p)
      → word_of n p (patch n f o img) ≡ word_of n p img
  patch-keeps o p img h (inl b) =
      rw (patch-fits o img h) (ap from_le (before_site p n o img _ b (omega arith)))
  patch-keeps o p img h (inr a) = rw (patch-fits o img h) (
      ap (λ t. from_le (take n t)) (after_site o n p _ img (length-le n (f (word_of n o img))) a h))

  -- Sites in bounds, of which no two meet.
  pub data Apart (size : ℕ) : List ℕ → Type 0 where
    none_left : Apart size []
    site :
        (o : ℕ) {os : List ℕ}
        → o + n ≤ size
        → All (λ p. (p + n ≤ o) ⊎ (o + n ≤ p)) os
        → Apart size os
        → Apart size (o ∷ os)

  pub length-patch_all :
      (os : List ℕ) (img : Bytes)
      → Apart (length img) os
      → length (patch_all n f os img) ≡ length img
  unfolding patch_all
  length-patch_all [] img a = refl
  length-patch_all (o ∷ os) img (site _ h far rest) =
      let e = length-patch o img h in
      length-patch_all os (patch n f o img) (subst (λ t. Apart t os) (sym e) rest) ∙ e

  patch_all-keeps :
      (os : List ℕ) (p : ℕ) (img : Bytes)
      → Apart (length img) os
      → All (λ o. (p + n ≤ o) ⊎ (o + n ≤ p)) os
      → word_of n p (patch_all n f os img) ≡ word_of n p img
  unfolding patch_all
  patch_all-keeps [] p img a far = refl
  patch_all-keeps (o ∷ os) p img (site _ h _ rest) (apart, far) =
      patch_all-keeps os p (patch n f o img)
        (subst (λ t. Apart t os) (sym (length-patch o img h)) rest) far
      ∙ patch-keeps o p img h apart

  turned :
      (p : ℕ) (os : List ℕ)
      → All (λ q. (q + n ≤ p) ⊎ (p + n ≤ q)) os
      → All (λ o. (p + n ≤ o) ⊎ (o + n ≤ p)) os
  turned p [] a = tt
  turned p (o ∷ os) (inl h, a) = (inr h, turned p os a)
  turned p (o ∷ os) (inr h, a) = (inl h, turned p os a)

  kept_below :
      (o : ℕ) (os : List ℕ) (img out : Bytes)
      → o + n ≤ length img
      → All (λ p. (p + n ≤ o) ⊎ (o + n ≤ p)) os
      → All (λ p. word_of n p out ≡ f (word_of n p (patch n f o img))) os
      → All (λ p. word_of n p out ≡ f (word_of n p img)) os
  kept_below o [] img out h far a = tt
  kept_below o (p ∷ os) img out h (d, far) (e, a) =
      (e ∙ ap f (patch-keeps o p img h d), kept_below o os img out h far a)

  -- Where the sites lie in the kernel and no two of them meet, every site's word is the old one,
  -- relocated once; the kernel keeps its length.
  pub patch_all-words :
      (os : List ℕ) (img : Bytes)
      → Apart (length img) os
      → ((v : ℕ) → f v < 256 ^ n)
      → All (λ o. word_of n o (patch_all n f os img) ≡ f (word_of n o img)) os
        × (length (patch_all n f os img) ≡ length img)
  unfolding patch_all
  patch_all-words os img a small = (each os img a, length-patch_all os img a)
    where
      each :
          (os : List ℕ) (img : Bytes)
          → Apart (length img) os
          → All (λ o. word_of n o (patch_all n f os img) ≡ f (word_of n o img)) os
      each [] img a = tt
      each (o ∷ os) img (site _ h far rest) =
          let rest' = subst (λ t. Apart t os) (sym (length-patch o img h)) rest in
          (
            patch_all-keeps os o (patch n f o img) rest' (turned o os far)
                ∙ patch-reads o img h (small _),
            kept_below o os img (patch_all n f os (patch n f o img)) h far
                (each os (patch n f o img) rest'),
          )
