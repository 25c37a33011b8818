-- ===== src/Pe/Place.antt =====
-- File offsets (src/pe.rs: the assignment loop of build_pe): every payload on its boundary, in
-- order, with no overlap.
use arma.Base.{
  ℕ, ◌+◌, ◌-◌, ◌%◌, ◌^◌, ◌≤◌, ◌<◌, ◌≡◌, inl, inr, refl, sym, subst, ◌∙◌, arith, true, false,
  Bool-cases, some, List, [], ◌∷◌, ltb, ltb→lt, if◌then◌else◌, length, Result, ok, bind-eq-ok,
  ok-injective, some_of_ok_or, ◌>>=◌,
}
use mathlib.Core.Option.{some-injective}
use native.Mathlib.Nat.{zero-mod}
use arma.Base.Align.{up, le-up, up-mod, up-lt}
use arma.Base.Bits.{and_not, and_not-pow}
use arma.Pe.Section.{
  Section, Fault, file_alignment, is_zero_shape, is_large_payload, alignment_for, checked_add_u32,
  to_u32, align_up_u32, or_overflow,
}

-- `PointerToRawData` and `SizeOfRawData`.
pub record Raw : Type 0 where
  pub offset : ℕ
  pub size : ℕ

-- One section: its raw extent, and the cursor behind it.
unfoldable pub place_raw : Section → ℕ → Result Fault (Raw × ℕ)
place_raw s cursor = if is_zero_shape s then ok (record { offset = 0; size = 0 }, cursor) else (do
  start ← or_overflow (align_up_u32 cursor (alignment_for s))
  len ← to_u32 (length s.contents)
  raw_size ← or_overflow (align_up_u32 len file_alignment)
  next ← or_overflow (checked_add_u32 start raw_size)
  ok (record { offset = start; size = raw_size }, next))

unfoldable pub place_raws : List Section → ℕ → Result Fault (List Raw × ℕ)
unfolding place_raw
place_raws [] cursor = ok ([], cursor)
place_raws (s ∷ ss) cursor = do
  (raw, cursor') ← place_raw s cursor
  (raws, end) ← place_raws ss cursor'
  ok (raw ∷ raws, end)

pub align_up_u32-some :
    (k v w : ℕ)
    → k ≤ 32
    → align_up_u32 v (2 ^ k) ≡ some w
    → (w ≡ up v (2 ^ k)) × (v + (2 ^ k - 1) < 2 ^ 32)
unfolding align_up_u32
align_up_u32-some k v w small h = elim (Bool-cases (ltb (v + (2 ^ k - 1)) (2 ^ 32))) [
  | inl e ↦
      let fits = ltb→lt (v + (2 ^ k - 1)) (2 ^ 32) e in
      let got : some (and_not 32 (v + (2 ^ k - 1)) (2 ^ k - 1)) ≡ some w = rw e at h in
      (sym (some-injective _ _ got) ∙ and_not-pow 32 k (v + (2 ^ k - 1)) small fits, fits)
  | inr e ↦ cc (rw e at h)
]

-- A section with a payload starts on its boundary, at or behind the cursor, in a raw size of
-- whole file-alignment units that holds the payload with less than a unit to spare; the cursor
-- moves behind it. A Zero section takes nothing.
pub record IsPlaced (s : Section) (cursor : ℕ) (raw : Raw) (next : ℕ) : Type 0 where
  pub after : is_zero_shape s ≡ false → cursor ≤ raw.offset
  pub on_boundary : raw.offset % alignment_for s ≡ 0
  pub whole : raw.size % file_alignment ≡ 0
  pub holds : length s.contents ≤ raw.size
  pub tight : raw.size < length s.contents + file_alignment
  pub moves : cursor ≤ next
  pub behind : raw.offset + raw.size ≤ next

alignment_pow : (s : Section) → (k : ℕ) × (k ≤ 32) × (alignment_for s ≡ 2 ^ k) × (1 ≤ 2 ^ k)
unfolding alignment_for
alignment_pow s = elim (Bool-cases (is_large_payload s)) [
  | inl e ↦ (21, omega arith, rw e refl, omega arith)
  | inr e ↦ (12, omega arith, rw e refl, omega arith)
]

pub to_u32-eq : (n v : ℕ) → to_u32 n ≡ ok v → v ≡ n
to_u32-eq n v h = elim (Bool-cases (ltb n (2 ^ 32))) [
  | inl e ↦ sym (ok-injective _ _ (rw e at h))
  | inr e ↦ cc (rw e at h)
]

pub checked_add_u32-some : (a b : ℕ) {c : ℕ} → checked_add_u32 a b ≡ some c → c ≡ a + b
checked_add_u32-some a b h = ground arith

module _ (s : Section) (cursor : ℕ) where
  IsPlaced-payload :
      (start len raw_size next : ℕ)
      → align_up_u32 cursor (alignment_for s) ≡ some start
      → to_u32 (length s.contents) ≡ ok len
      → align_up_u32 len file_alignment ≡ some raw_size
      → checked_add_u32 start raw_size ≡ some next
      → IsPlaced s cursor (record { offset = start; size = raw_size }) next
  IsPlaced-payload start len raw_size next e0 e1 e2 e3 =
      let (k, small, width, pos) = alignment_pow s in
      let (at, fits) = align_up_u32-some k cursor start small (rw width at e0) in
      let (sized, fits') = align_up_u32-some 12 len raw_size (omega arith) e2 in
      let same = to_u32-eq (length s.contents) len e1 in
      let end = checked_add_u32-some start raw_size e3 in
      record {
        after = λ _. rw at (le-up cursor (2 ^ k) pos);
        on_boundary = rw (at, width) (up-mod cursor (2 ^ k) pos);
        whole = rw sized (up-mod len file_alignment (omega arith));
        holds = omega (arith, le-up len file_alignment (omega arith));
        tight = omega (arith, up-lt len file_alignment (omega arith));
        moves = omega (arith, le-up cursor (2 ^ k) pos);
        behind = omega arith;
      }

  place_raw-IsPlaced : (t : Raw × ℕ) → place_raw s cursor ≡ ok t → IsPlaced s cursor t.0 t.1
  unfolding place_raw
  place_raw-IsPlaced t h = elim (Bool-cases (is_zero_shape s)) [
    | inl e ↦
        subst (λ (t : Raw × ℕ). IsPlaced s cursor t.0 t.1) (ok-injective _ _ (rw e at h))
          (record {
            after = λ k. let both : true ≡ false = sym e ∙ k in cc;
            on_boundary = zero-mod (alignment_for s);
            whole = refl;
            holds = ground arith;
            tight = ground arith;
            moves = omega arith;
            behind = omega arith;
          })
    | inr e ↦
        let (start, e0, h0) =
          bind-eq-ok (or_overflow (align_up_u32 cursor (alignment_for s))) _ (rw e at h) in
        let (len, e1, h1) = bind-eq-ok (to_u32 (length s.contents)) _ h0 in
        let (raw_size, e2, h2) = bind-eq-ok (or_overflow (align_up_u32 len file_alignment)) _ h1 in
        let (next, e3, h3) = bind-eq-ok (or_overflow (checked_add_u32 start raw_size)) _ h2 in
        subst (λ (t : Raw × ℕ). IsPlaced s cursor t.0 t.1) (ok-injective _ _ h3)
          (IsPlaced-payload start len raw_size next (some_of_ok_or _ _ e0) e1 (some_of_ok_or _ _ e2)
            (some_of_ok_or _ _ e3))
  ]

-- The sections are placed one after the other, from `cursor` to `end`.
abbrev pub Laid : List Section → ℕ → List Raw → ℕ → Type 0
Laid [] cursor [] end = cursor ≡ end
Laid [] cursor (r ∷ rs) end = ⊥
Laid (s ∷ ss) cursor [] end = ⊥
Laid (s ∷ ss) cursor (r ∷ rs) end = (next : ℕ) × IsPlaced s cursor r next × Laid ss next rs end

-- The offsets that the assignment loop returns lay the sections out one after the other: each
-- payload starts on its boundary at or behind the end of the one before, its raw size is its
-- length rounded up to the file alignment, and the cursor returned lies behind all of them.
pub place_raws-Laid :
    (ss : List Section) (cursor : ℕ) (raws : List Raw) (end : ℕ)
    → place_raws ss cursor ≡ ok (raws, end)
    → Laid ss cursor raws end
unfolding place_raws
place_raws-Laid [] cursor raws end h =
    subst (λ (t : List Raw × ℕ). Laid [] cursor t.0 t.1) (ok-injective _ _ h) refl
place_raws-Laid (s ∷ ss) cursor raws end h =
    let (t, e0, h0) = bind-eq-ok (place_raw s cursor) _ h in
    let (rest, e1, h1) = bind-eq-ok (place_raws ss t.1) _ h0 in
    subst (λ (u : List Raw × ℕ). Laid (s ∷ ss) cursor u.0 u.1) (ok-injective _ _ h1)
      (t.1, place_raw-IsPlaced s cursor t e0, place_raws-Laid ss t.1 rest.0 rest.1 e1)
