-- ===== src/Relocate/Handoff.antt =====
-- The tables that arma writes are the ones that the stub applies (src/kernel.rs: to_section_bytes;
-- deps/tatu/src/bootinfo.rs: relocs_words; deps/tatu/src/arch_x86_64.rs: apply_kaslr).
use arma.Base.{
  ℕ, suc, ◌+◌, ◌^◌, ◌<◌, ◌≡◌, inl, inr, refl, ap, arith, true, false, Bool-cases, List, [], ◌∷◌,
  ◌++◌, ◌==◌, ==_iff, if◌then◌else◌, take, drop, length, length-append, All, ok,
}
use arma.Base.Slice.{le, from_le, from_le-le, take-append, drop-append, drop-append_two}
use arma.Base.Text.{Bytes}
use arma.Bootinfo.{TatuBootInfo}
use arma.Bootinfo.Regions.{word_at, words, relocs_count, relocs_words}
use arma.Kernel.{Reader}
use arma.Kernel.Extract.{extract_relocs}
use arma.Kernel.Extract.Sites.{extract_relocs-fits}
use arma.Kernel.Relocs.{Relocs, chained, word_bytes, to_section_bytes}
use arma.Relocate.{choose_delta, patch_tables, apply_words, apply_kaslr}

-- The bytes lie in the memory, from an address on.
unfoldable pub IsPlaced : (ℕ → ℕ) → ℕ → Bytes → Type 0
IsPlaced memory gpa [] = Unit
IsPlaced memory gpa (b ∷ bs) = (memory gpa ≡ b) × IsPlaced memory (suc gpa) bs

module _ (memory : ℕ → ℕ) where
  word_at-IsPlaced :
      (gpa o : ℕ) (rest : Bytes)
      → o < 2 ^ 32
      → IsPlaced memory gpa (le 4 o ++ rest)
      → (word_at memory gpa ≡ o) × IsPlaced memory (gpa + 4) rest
  unfolding IsPlaced word_at
  word_at-IsPlaced gpa o rest small (a, (b, (c, (d, more)))) =
      let back : from_le (le 4 o) ≡ o = from_le-le 4 o small in
      let e : gpa + 4 ≡ suc (suc (suc (suc gpa))) = omega arith in (rw (a, b, c, d) back, rw e more)

  words-IsPlaced :
      (os : List ℕ) (gpa : ℕ)
      → All (λ o. o < 2 ^ 32) os
      → IsPlaced memory gpa (word_bytes os)
      → words memory gpa (length os) ≡ os
  unfolding words word_bytes
  words-IsPlaced [] gpa small placed = refl
  words-IsPlaced (o ∷ os) gpa (s, small) placed =
      let (here, rest) = word_at-IsPlaced gpa o (word_bytes os) s placed in
      rw here (ap (λ t. o ∷ t) (words-IsPlaced os (gpa + 4) small rest))

  relocs_words-IsPlaced :
      (info : TatuBootInfo) (r : Relocs)
      → IsPlaced memory info.relocs_gpa (to_section_bytes r)
      → All (λ o. o < 2 ^ 32) (chained r)
      → relocs_count memory info ≡ length (chained r)
      → relocs_words memory info ≡ chained r
  unfolding relocs_words to_section_bytes
  relocs_words-IsPlaced info r placed small count =
      rw count (elim (Bool-cases (length (chained r) == 0)) [
        | inl e ↦ rw e (nil (chained r) ((==_iff _ _).0 e))
        | inr e ↦ rw e (words-IsPlaced (chained r) info.relocs_gpa small placed)
      ])
    where
      nil : (os : List ℕ) → length os ≡ 0 → [] ≡ os
      nil [] e = refl
      nil (o ∷ os) e = absurd (omega arith)

-- The counts of the header are those of the tables.
pub record Counted (info : TatuBootInfo) (r : Relocs) : Type 0 where
  pub count64 : info.relocs64_count ≡ length r.relocs64
  pub count32neg : info.relocs32neg_count ≡ length r.relocs32neg
  pub count32 : info.relocs32_count ≡ length r.relocs32

length-chained :
    (r : Relocs)
    → length (chained r) ≡ length r.relocs64 + (length r.relocs32neg + length r.relocs32)
length-chained r = omega (
  arith,
  length-append r.relocs64 (r.relocs32neg ++ r.relocs32),
  length-append r.relocs32neg r.relocs32,
)

empty : (os : List ℕ) → length os ≡ 0 → os ≡ []
empty [] e = refl
empty (o ∷ os) e = absurd (omega arith)

still :
    (info : TatuBootInfo) (words : List ℕ) (delta : ℕ) (img : Bytes)
    → (delta == 0) ≡ true
    → apply_words info delta words img ≡ img
unfolding apply_words
still info words delta img e = ground arith

module _ (info : TatuBootInfo) (r : Relocs) (c : Counted info r) where
  drop-chained : drop (info.relocs64_count + info.relocs32neg_count) (chained r) ≡ r.relocs32
  drop-chained = rw (c.count64, c.count32neg) (drop-append_two r.relocs64 r.relocs32neg r.relocs32)

  middle-chained :
      take info.relocs32neg_count (drop info.relocs64_count (chained r)) ≡ r.relocs32neg
  middle-chained =
      rw (c.count64, c.count32neg)
        (rw (drop-append r.relocs64 (r.relocs32neg ++ r.relocs32))
          (take-append r.relocs32neg r.relocs32))

  take-chained : take info.relocs64_count (chained r) ≡ r.relocs64
  take-chained = rw c.count64 (take-append r.relocs64 (r.relocs32neg ++ r.relocs32))

  patch_tables-empty :
      (delta : ℕ) (img : Bytes)
      → length (chained r) ≡ 0
      → img ≡ patch_tables delta r.relocs64 r.relocs32neg r.relocs32 img
  unfolding patch_tables
  patch_tables-empty delta img none_left =
      let a = empty r.relocs64 (omega (arith, length-chained r)) in
      let b = empty r.relocs32neg (omega (arith, length-chained r)) in
      let d = empty r.relocs32 (omega (arith, length-chained r)) in simp (a, b, d)

  apply_words-chained :
      (delta : ℕ) (img : Bytes)
      → (delta == 0) ≡ false
      → apply_words info delta (chained r) img
        ≡ patch_tables delta r.relocs64 r.relocs32neg r.relocs32 img
  unfolding apply_words
  apply_words-chained delta img moved =
      let same : (info.relocs64_count + info.relocs32neg_count + info.relocs32_count
            == length (chained r))
          ≡ true =
        ground (arith, length-chained r, c.count64, c.count32neg, c.count32) in
      elim (Bool-cases (length (chained r) == 0)) [
        | inl e ↦ rw e (patch_tables-empty delta img ((==_iff _ _).0 e))
        | inr e ↦ rw (e, same, moved, drop-chained, middle-chained, take-chained) refl
      ]

  apply_words-either :
      (delta : ℕ) (img : Bytes)
      → apply_words info delta (chained r) img
        ≡ (if delta == 0 then img else patch_tables delta r.relocs64 r.relocs32neg r.relocs32 img)
  apply_words-either delta img = elim (Bool-cases (delta == 0)) [
    | inl e ↦ rw e (still info (chained r) delta img e)
    | inr e ↦ rw e (apply_words-chained delta img e)
  ]

-- The stub applies the tables of a section that lies where the header says.
apply_kaslr-tables :
    (memory : ℕ → ℕ) (info : TatuBootInfo) (r : Relocs) (random : ℕ) (img : Bytes)
    → IsPlaced memory info.relocs_gpa (to_section_bytes r)
    → All (λ o. o < 2 ^ 32) (chained r)
    → Counted info r
    → apply_kaslr memory info random img ≡ (
        if choose_delta info.kernel_alloc_size random == 0
        then img
        else patch_tables
            (choose_delta info.kernel_alloc_size random)
            r.relocs64
            r.relocs32neg
            r.relocs32
            img)
unfolding apply_kaslr
apply_kaslr-tables memory info r random img placed small c =
    let delta = choose_delta info.kernel_alloc_size random in
    let count : relocs_count memory info ≡ length (chained r) =
      omega (arith, length-chained r, c.count64, c.count32neg, c.count32) in
    rw (relocs_words-IsPlaced memory info r placed small count)
      (apply_words-either info r c delta img)

-- From one end to the other: where the section that is written from the relocations of a kernel
-- file lies at the address that the header names, and the header has the tables' counts, the stub
-- patches the kernel at exactly the offsets of the three tables, each with its own width and sign, by the
-- delta that it chose; a delta of zero leaves the kernel as it is.
pub extract_relocs-apply_kaslr :
    (reader : Reader) (file : Bytes) (r : Relocs) (memory : ℕ → ℕ) (info : TatuBootInfo)
    (random : ℕ) (img : Bytes)
    → extract_relocs reader file ≡ ok r
    → IsPlaced memory info.relocs_gpa (to_section_bytes r)
    → Counted info r
    → apply_kaslr memory info random img ≡ (
        if choose_delta info.kernel_alloc_size random == 0
        then img
        else patch_tables
            (choose_delta info.kernel_alloc_size random)
            r.relocs64
            r.relocs32neg
            r.relocs32
            img)
extract_relocs-apply_kaslr reader file r memory info random img e placed c =
    apply_kaslr-tables memory info r random img placed (extract_relocs-fits reader file r e) c
