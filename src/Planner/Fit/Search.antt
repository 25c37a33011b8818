-- ===== src/Planner/Fit/Search.antt =====
-- The first-fit loop of src/planner.rs: what one round does, why the rounds end, and that the
-- carve-outs survive the filter and the sort.
use arma.Base.{
  ℕ, ◌+◌, ◌≤◌, ◌<◌, ◌≡◌, ◌⊎◌, inl, inr, arith, some, List, [], ◌∷◌, true, false, Bool-cases, ltb,
  leb, if◌then◌else◌, length, keep, find, All,
}
use arma.Planner.Fit.{Range, is_nonempty, insert_by_start, sort_by_start, conflicts}

-- The carve-out is empty, or the slot ends before it or starts behind it.
abbrev pub Apart : Range → Range → Type 0
Apart s r = (r.end ≤ r.start) ⊎ ((s.end ≤ r.start) ⊎ (r.end ≤ s.start))

-- The slot of `size` bytes at `g`.
abbrev pub slot : ℕ → ℕ → Range
slot g size = record { start = g; end = g + size }

pub not_conflicts :
    (g size : ℕ) (r : Range) → conflicts g (g + size) r ≡ false → Apart (slot g size) r
not_conflicts g size r h = ground arith

-- A slot at or above `g` that keeps apart from a range that conflicts at `g` lies behind it.
pub behind_conflict :
    (g size g' : ℕ) (c : Range)
    → g ≤ g'
    → (conflicts g (g + size) c ≡ true) × (is_nonempty c ≡ true)
    → Apart (slot g' size) c
    → c.end ≤ g'
behind_conflict g size g' c le h apart = ground arith

-- The number of ranges that reach beyond `g`: it falls with every hop.
pub remaining : ℕ → List Range → ℕ
remaining g [] = 0
remaining g (r ∷ rs) = (if ltb g r.end then 1 else 0) + remaining g rs

remaining_mono : (g g' : ℕ) (rs : List Range) → g ≤ g' → remaining g' rs ≤ remaining g rs
unfolding remaining
remaining_mono g g' [] h = omega arith
remaining_mono g g' (r ∷ rs) h = ground (arith, remaining_mono g g' rs h)

pub remaining_hop :
    (g end g' : ℕ) (rs : List Range) (c : Range)
    → find (conflicts g end) rs ≡ some c
    → g ≤ g'
    → c.end ≤ g'
    → remaining g' rs < remaining g rs
unfolding remaining
remaining_hop g end g' [] c h le past = cc
remaining_hop g end g' (r ∷ rs) c h le past = ground (
  arith,
  remaining_mono g g' rs le,
  λ (e : find (conflicts g end) rs ≡ some c). remaining_hop g end g' rs c e le past,
)

pub remaining-le-length : (g : ℕ) (rs : List Range) → remaining g rs ≤ length rs
unfolding remaining
remaining-le-length g [] = omega arith
remaining-le-length g (r ∷ rs) = ground (arith, remaining-le-length g rs)

module _ {ℓ} (P : Range → Type ℓ) where
  All-insert : (x : Range) (ys : List Range) → P x → All P ys → All P (insert_by_start x ys)
  unfolding insert_by_start
  All-insert x [] px h = (px, tt)
  All-insert x (y ∷ ys) px h = elim (Bool-cases (leb x.start y.start)) [
    | inl e ↦ rw e (px, h)
    | inr e ↦ rw e (h.0, All-insert x ys px h.1)
  ]

  All-of_insert : (x : Range) (ys : List Range) → All P (insert_by_start x ys) → P x × All P ys
  unfolding insert_by_start
  All-of_insert x [] h = h
  All-of_insert x (y ∷ ys) h = elim (Bool-cases (leb x.start y.start)) [
    | inl e ↦ rw e at h
    | inr e ↦
        let h' : P y × All P (insert_by_start x ys) = rw e at h in
        let (px, pys) = All-of_insert x ys h'.1 in (px, (h'.0, pys))
  ]

  -- Sorting keeps what holds of every range, and adds none.
  pub All-sort : (xs : List Range) → All P xs → All P (sort_by_start xs)
  unfolding sort_by_start
  All-sort [] h = tt
  All-sort (x ∷ xs) h = All-insert x (sort_by_start xs) h.0 (All-sort xs h.1)

  pub All-of_sort : (xs : List Range) → All P (sort_by_start xs) → All P xs
  unfolding sort_by_start
  All-of_sort [] h = tt
  All-of_sort (x ∷ xs) h =
      let (px, rest) = All-of_insert x (sort_by_start xs) h in (px, All-of_sort xs rest)

-- The filter drops only empty ranges, from which every slot keeps apart.
pub Apart-of_keep :
    (s : Range) (xs : List Range) → All (Apart s) (keep is_nonempty xs) → All (Apart s) xs
Apart-of_keep s [] h = tt
Apart-of_keep s (x ∷ xs) h = elim (Bool-cases (is_nonempty x)) [
  | inl e ↦
      let h' : Apart s x × All (Apart s) (keep is_nonempty xs) = rw e at h in
      (h'.0, Apart-of_keep s xs h'.1)
  | inr e ↦ (inl (ground arith), Apart-of_keep s xs (rw e at h))
]

pub Apart-keep :
    (s : Range) (xs : List Range) → All (Apart s) xs → All (Apart s) (keep is_nonempty xs)
Apart-keep s [] h = tt
Apart-keep s (x ∷ xs) h = elim (Bool-cases (is_nonempty x)) [
  | inl e ↦ rw e (h.0, Apart-keep s xs h.1)
  | inr e ↦ rw e (Apart-keep s xs h.1)
]

pub keep-nonempty : (xs : List Range) → All (λ r. is_nonempty r ≡ true) (keep is_nonempty xs)
keep-nonempty [] = tt
keep-nonempty (x ∷ xs) = elim (Bool-cases (is_nonempty x)) [
  | inl e ↦ rw e (e, keep-nonempty xs)
  | inr e ↦ rw e (keep-nonempty xs)
]
