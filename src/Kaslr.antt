-- ===== src/Kaslr.antt =====
-- The KASLR seed overlay (deps/tatu/src/kaslr.rs: SEED_SENTINEL, patch_overlay_seed).
mod Tests
use mathlib.Core.Option
use mathlib.Core.Option.{some-injective}
use arma.Base.{
  ℕ, zero, suc, ◌+◌, ◌-◌, ◌*◌, ◌^◌, ◌≤◌, ◌<◌, ◌≡◌, ◌≢◌, ◌⊎◌, inl, inr, refl, sym, ap, subst, ◌∙◌,
  arith, Bool, true, false, Bool-cases, Option, none, some, Option-cases, List, [], ◌∷◌, ◌++◌,
  if◌then◌else◌, take, drop, length, length-append, length-take, take-append-drop, ◌/◌, ◌%◌,
}
use arma.Base.Text.{Bytes, codes, bytes_eq, bytes_eq_sound}
use arma.Base.Slice.{le, splice, splice-append}

abbrev pub seed_sentinel : Bytes
seed_sentinel = codes "KASLRSED"

-- `to_be_bytes`
abbrev pub be : ℕ → ℕ → Bytes
be zero v = []
be (suc n) v = be n (v / 256) ++ v % 256 ∷ []

-- `windows(8).position(|w| w == SEED_SENTINEL)`
unfoldable pub position : Bytes → Option ℕ
position [] = none
position (x ∷ xs) =
    let rest = position xs in
    if bytes_eq (take 8 (x ∷ xs)) seed_sentinel then some 0 else Option.map suc rest

-- `blob[pos..pos + 8].copy_from_slice(..)`: none where the slice is out of bounds.
abbrev pub patch_at : Option ℕ → Bytes → ℕ → Option (Bytes × Bool)
patch_at none blob seed = some (blob, false)
patch_at (some pos) blob seed = Option.map (λ out. (out, true)) (splice pos (be 8 seed) blob)

-- The blob after the call, and the value that it returns.
unfoldable pub patch_overlay_seed : Bytes → ℕ → Option (Bytes × Bool)
unfolding position
patch_overlay_seed blob seed = patch_at (position blob) blob seed

-- The bytes at the position are the sentinel.
position-found :
    (blob : Bytes) (pos : ℕ)
    → position blob ≡ some pos
    → (post : Bytes) × (blob ≡ take pos blob ++ (seed_sentinel ++ post))
unfolding position
position-found [] pos h = cc
position-found (x ∷ xs) pos h = elim (Bool-cases (bytes_eq (take 8 (x ∷ xs)) seed_sentinel)) [
  | inl e ↦
      let here : 0 ≡ pos = some-injective _ _ (rw e at h) in
      let same = bytes_eq_sound (take 8 (x ∷ xs)) seed_sentinel e in
      subst (λ p. (post : Bytes) × (x ∷ xs ≡ take p (x ∷ xs) ++ (seed_sentinel ++ post))) here
        (drop 8 (x ∷ xs), sym (take-append-drop 8 (x ∷ xs)) ∙ ap (λ t. t ++ drop 8 (x ∷ xs)) same)
  | inr e ↦ elim (Option-cases (position xs)) [
    | inl n ↦ cc (rw (e, n) at h)
    | inr (k, n) ↦
        let there : suc k ≡ pos = some-injective _ _ (rw (e, n) at h) in
        let (post, same) = position-found xs k n in
        subst (λ p. (post : Bytes) × (x ∷ xs ≡ take p (x ∷ xs) ++ (seed_sentinel ++ post))) there
          (post, ap (λ t. x ∷ t) same)
  ]
]

-- Where there is no position, the sentinel occurs nowhere.
position-none : (pre post : Bytes) → position (pre ++ (seed_sentinel ++ post)) ≢ none
unfolding position
position-none [] post h = cc
position-none (x ∷ pre) post h =
    let blob = x ∷ (pre ++ (seed_sentinel ++ post)) in
    elim (Bool-cases (bytes_eq (take 8 blob) seed_sentinel)) [
      | inl e ↦ cc (rw e at h)
      | inr e ↦ elim (Option-cases (position (pre ++ (seed_sentinel ++ post)))) [
        | inl n ↦ position-none pre post n
        | inr (k, n) ↦ cc (rw (e, n) at h)
      ]
    ]

-- No occurrence of the sentinel starts before the position.
position-least :
    (pre post : Bytes) (pos : ℕ)
    → position (pre ++ (seed_sentinel ++ post)) ≡ some pos
    → pos ≤ length pre
unfolding position
position-least [] post pos h = let here : 0 ≡ pos = some-injective _ _ h in omega arith
position-least (x ∷ pre) post pos h =
    let blob = x ∷ (pre ++ (seed_sentinel ++ post)) in
    elim (Bool-cases (bytes_eq (take 8 blob) seed_sentinel)) [
      | inl e ↦ let here : 0 ≡ pos = some-injective _ _ (rw e at h) in omega arith
      | inr e ↦ elim (Option-cases (position (pre ++ (seed_sentinel ++ post)))) [
        | inl n ↦ absurd (position-none pre post n)
        | inr (k, n) ↦
            let there : suc k ≡ pos = some-injective _ _ (rw (e, n) at h) in
            omega (arith, position-least pre post k n)
      ]
    ]

-- A blob without the sentinel is left as it is, with the answer false. In any other blob the
-- eight bytes of the first sentinel, which no other one starts before, become the seed,
-- big-endian, with the answer true: the bytes before and behind them stay, and no slice is out of
-- bounds.
pub patch_overlay_seed_lem :
    (blob : Bytes) (seed : ℕ)
    → (((pre post : Bytes) → blob ≢ pre ++ (seed_sentinel ++ post))
        × (patch_overlay_seed blob seed ≡ some (blob, false)))
      ⊎ ((pre : Bytes) × (post : Bytes) × (blob ≡ pre ++ (seed_sentinel ++ post))
          × ((pre' post' : Bytes)
              → blob ≡ pre' ++ (seed_sentinel ++ post')
              → length pre ≤ length pre')
          × (patch_overlay_seed blob seed ≡ some (pre ++ (be 8 seed ++ post), true)))
unfolding patch_overlay_seed
patch_overlay_seed_lem blob seed = elim (Option-cases (position blob)) [
  | inl n ↦
      inl (λ pre post e. position-none pre post (subst (λ t. position t ≡ none) e n), rw n refl)
  | inr (pos, n) ↦
      let (post, same) = position-found blob pos n in
      let pre = take pos blob in
      let reach : length (take pos blob) ≡ pos = omega (
        arith,
        length-take pos blob,
        length-append (take pos blob) (seed_sentinel ++ post),
        ap (λ (t : Bytes). length t) same,
      ) in
      let wrote = splice-append (take pos blob) seed_sentinel (be 8 seed) post refl in
      let at : splice pos (be 8 seed) blob ≡ some (take pos blob ++ (be 8 seed ++ post)) =
        subst (λ t. splice t (be 8 seed) blob ≡ some (take pos blob ++ (be 8 seed ++ post))) reach
          (subst
            (λ t.
              splice (length (take pos blob)) (be 8 seed) t
              ≡ some (take pos blob ++ (be 8 seed ++ post)))
            (sym same) wrote) in
      let least : (pre' post' : Bytes)
          → blob ≡ pre' ++ (seed_sentinel ++ post')
          → length (take pos blob) ≤ length pre' =
        λ pre' post' e.
          omega (
            arith,
            reach,
            position-least pre' post' pos (subst (λ t. position t ≡ some pos) e n),
          ) in
      inr (take pos blob, post, same, least, rw n (rw at refl))
]
