-- ===== src/Kernel/Appended/Decoded.antt =====
-- The appended table is read back (src/kernel.rs: extract_appended_relocs).
use arma.Base.{
  ℕ, suc, ◌+◌, ◌-◌, ◌*◌, ◌^◌, ◌≤◌, ◌<◌, ◌≡◌, refl, sym, ap, ◌∙◌, subst, arith, true, false, List,
  [], ◌∷◌, ◌++◌, ltb, leb, take, drop, length, length-append, bind_of, if_false, Result, ok, ◌>>=◌,
}
use mathlib.Core.List.{append_assoc, append-nil}
use arma.Base.Slice.{le, from_le, from_le-le, length-le, drop-append_two}
use arma.Base.Text.{Bytes}
use arma.Kernel.{KernelError, Elf}
use arma.Kernel.Span.{ElfSpan, elf_span}
use arma.Kernel.Relocs.{Relocs}
use arma.Kernel.Appended.{
  text_base, table_start, site_of, read_back, of_lists, read_table, extract_appended_relocs,
}

-- A table of 32-bit words, the last one first.
unfoldable pub table_bytes : List ℕ → Bytes
table_bytes [] = []
table_bytes (v ∷ vs) = table_bytes vs ++ le 4 v

length-table_bytes : (vs : List ℕ) → length (table_bytes vs) ≡ 4 * length vs
unfolding table_bytes
length-table_bytes [] = refl
length-table_bytes (v ∷ vs) =
    omega (arith, length-append (table_bytes vs) (le 4 v), length-table_bytes vs, length-le 4 v)

module _ (text_vaddr image_size : ℕ) where
  -- The words of a list, and the offsets that they stand for.
  pub data Encodes : List ℕ → List ℕ → Type 0 where
    none_left : Encodes [] []
    word :
        (v o : ℕ) {vs os : List ℕ}
        → suc v < 2 ^ 32
        → site_of text_vaddr image_size (suc v) ≡ ok o
        → Encodes vs os
        → Encodes (suc v ∷ vs) (o ∷ os)

  module _ (image : Bytes) where
    abbrev end : List ℕ → ℕ
    end vs = length image + 4 * length vs

    abbrev file : List ℕ → Bytes → Bytes
    file vs rest = image ++ (table_bytes vs ++ rest)

    abbrev reads : ℕ → List ℕ → Bytes → List (List ℕ) → List ℕ → Result KernelError (List (List ℕ))
    reads fuel vs rest lists cur =
        read_back fuel (file vs rest) text_vaddr image_size (length image) (end vs) lists cur

    last_word :
        (v : ℕ) (vs : List ℕ) (rest : Bytes)
        → v < 2 ^ 32
        → from_le (take 4 (drop (end (v ∷ vs) - 4) (file (v ∷ vs) rest))) ≡ v
    unfolding table_bytes
    last_word v vs rest small =
        let at : end (v ∷ vs) - 4 ≡ length image + length (table_bytes vs) =
          omega (arith, length-table_bytes vs) in
        let back : from_le (le 4 v) ≡ v = from_le-le 4 v small in
        rw
          (
            at,
            append_assoc (table_bytes vs) (le 4 v) rest,
            drop-append_two image (table_bytes vs) (le 4 v ++ rest),
          )
          back

    file-shift :
        (v : ℕ) (vs : List ℕ) (rest : Bytes) → file (v ∷ vs) rest ≡ file vs (le 4 v ++ rest)
    unfolding table_bytes
    file-shift v vs rest = ap (λ t. image ++ t) (append_assoc (table_bytes vs) (le 4 v) rest)

    end-shift : (v : ℕ) (vs : List ℕ) → end (v ∷ vs) - 4 ≡ end vs
    end-shift v vs = omega arith

    read_end :
        (fuel : ℕ) (rest : Bytes) (lists : List (List ℕ)) (cur : List ℕ)
        → reads (suc fuel) [] rest lists cur ≡ ok lists
    unfolding read_back
    read_end fuel rest lists cur =
        let e : ltb (end []) (length image + 4) ≡ true = ground arith in rw e refl

    read_zero :
        (fuel : ℕ) (vs : List ℕ) (rest : Bytes) (lists : List (List ℕ)) (cur : List ℕ)
        → reads (suc fuel) (0 ∷ vs) rest lists cur
          ≡ reads fuel vs (le 4 0 ++ rest) (lists ++ (cur ∷ [])) []
    unfolding read_back
    read_zero fuel vs rest lists cur =
        let e : ltb (end (0 ∷ vs)) (length image + 4) ≡ false = ground arith in
        rw (e, last_word 0 vs rest (omega arith)) (rw (end-shift 0 vs, file-shift 0 vs rest) refl)

    read_word :
        (fuel v o : ℕ) (vs : List ℕ) (rest : Bytes) (lists : List (List ℕ)) (cur : List ℕ)
        → suc v < 2 ^ 32
        → site_of text_vaddr image_size (suc v) ≡ ok o
        → reads (suc fuel) (suc v ∷ vs) rest lists cur
          ≡ reads fuel vs (le 4 (suc v) ++ rest) lists (cur ++ (o ∷ []))
    unfolding read_back
    read_word fuel v o vs rest lists cur small s =
        let e : ltb (end (suc v ∷ vs)) (length image + 4) ≡ false = ground arith in
        rw (e, last_word (suc v) vs rest small, s)
          (rw (end-shift (suc v) vs, file-shift (suc v) vs rest) refl)

    -- A list of the table, in front of what the rest gives.
    read_list :
        (vs os : List ℕ)
        → Encodes vs os
        → (fuel : ℕ) (more : List ℕ) (rest : Bytes) (lists : List (List ℕ)) (cur : List ℕ)
        → (out : Result KernelError (List (List ℕ)))
        → ((rest' : Bytes) → reads fuel more rest' lists (cur ++ os) ≡ out)
        → reads (length vs + fuel) (vs ++ more) rest lists cur ≡ out
    read_list _ _ none_left fuel more rest lists cur out k =
        let e : 0 + fuel ≡ fuel = omega arith in
        rw e (subst (λ t. reads fuel more rest lists t ≡ out) (append-nil cur) (k rest))
    read_list _ _ (word v o {vs} {os} small s more_words) fuel more rest lists cur out k =
        let e : suc (length vs) + fuel ≡ suc (length vs + fuel) = omega arith in
        rw (e, read_word (length vs + fuel) v o (vs ++ more) rest lists cur small s)
          (read_list vs os more_words fuel more (le 4 (suc v) ++ rest) lists (cur ++ (o ∷ [])) out
            (λ rest'.
              subst (λ t. reads fuel more rest' lists t ≡ out) (sym (append_assoc cur (o ∷ []) os))
                (k rest')))

    -- A list and its terminator.
    read_closed :
        (vs os : List ℕ)
        → Encodes vs os
        → (fuel : ℕ) (more : List ℕ) (rest : Bytes) (lists : List (List ℕ))
        → (out : Result KernelError (List (List ℕ)))
        → ((rest' : Bytes) → reads fuel more rest' (lists ++ (os ∷ [])) [] ≡ out)
        → reads (length vs + suc fuel) (vs ++ (0 ∷ more)) rest lists [] ≡ out
    read_closed vs os e fuel more rest lists out k =
        read_list vs os e (suc fuel) (0 ∷ more) rest lists [] out
          (λ rest'. read_zero fuel more rest' lists os ∙ k (le 4 0 ++ rest'))

    -- Two lists, as the newer kernels write them, and three.
    read_two :
        (v32 o32 v64 o64 : List ℕ)
        → Encodes v32 o32
        → Encodes v64 o64
        → (fuel : ℕ) → length v32 + length v64 + 3 ≤ fuel
        → reads fuel (v32 ++ (0 ∷ (v64 ++ (0 ∷ [])))) [] [] [] ≡ ok (o32 ∷ o64 ∷ [])
    read_two v32 o32 v64 o64 e32 e64 fuel enough =
        let k = fuel - (length v32 + length v64 + 3) in
        let f : fuel ≡ length v32 + suc (length v64 + suc (suc k)) = omega arith in
        rw f (
          read_closed v32 o32 e32 (length v64 + suc (suc k)) (v64 ++ (0 ∷ [])) [] [] _ (λ r.
            read_closed v64 o64 e64 (suc k) [] r (o32 ∷ []) _
              (λ r'. read_end k r' (o32 ∷ o64 ∷ []) [])))

    read_three :
        (v32 o32 vneg oneg v64 o64 : List ℕ)
        → Encodes v32 o32
        → Encodes vneg oneg
        → Encodes v64 o64
        → (fuel : ℕ) → length v32 + length vneg + length v64 + 4 ≤ fuel
        → reads fuel (v32 ++ (0 ∷ (vneg ++ (0 ∷ (v64 ++ (0 ∷ [])))))) [] [] []
          ≡ ok (o32 ∷ oneg ∷ o64 ∷ [])
    read_three v32 o32 vneg oneg v64 o64 e32 eneg e64 fuel enough =
        let k = fuel - (length v32 + length vneg + length v64 + 4) in
        let f : fuel ≡ length v32 + suc (length vneg + suc (length v64 + suc (suc k))) =
          omega arith in
        rw f (
          read_closed v32 o32 e32 (length vneg + suc (length v64 + suc (suc k)))
            (vneg ++ (0 ∷ (v64 ++ (0 ∷ [])))) [] [] _
            (λ r.
              read_closed vneg oneg eneg (length v64 + suc (suc k)) (v64 ++ (0 ∷ [])) r (o32 ∷ []) _
                (λ r'.
                  read_closed v64 o64 e64 (suc k) [] r' (o32 ∷ oneg ∷ []) _
                    (λ r''. read_end k r'' (o32 ∷ oneg ∷ o64 ∷ []) []))))

-- A table that a kernel build appends: the words of the three lists, from the back; a newer kernel
-- has no inverse list.
pub data Table (text_vaddr image_size : ℕ) : List ℕ → Relocs → Type 0 where
  two :
      (v32 o32 v64 o64 : List ℕ)
      → Encodes text_vaddr image_size v32 o32
      → Encodes text_vaddr image_size v64 o64
      → Table text_vaddr image_size
          (v32 ++ (0 ∷ (v64 ++ (0 ∷ []))))
          (record { relocs32 = o32; relocs32neg = []; relocs64 = o64 })
  three :
      (v32 o32 vneg oneg v64 o64 : List ℕ)
      → Encodes text_vaddr image_size v32 o32
      → Encodes text_vaddr image_size vneg oneg
      → Encodes text_vaddr image_size v64 o64
      → Table text_vaddr image_size
          (v32 ++ (0 ∷ (vneg ++ (0 ∷ (v64 ++ (0 ∷ []))))))
          (record { relocs32 = o32; relocs32neg = oneg; relocs64 = o64 })

module _ (text_vaddr image_size : ℕ) (image : Bytes) where
  Table-some : (vs : List ℕ) (r : Relocs) → Table text_vaddr image_size vs r → 0 < length vs
  Table-some _ _ (two v32 o32 v64 o64 e32 e64) =
      omega (arith, length-append v32 (0 ∷ (v64 ++ (0 ∷ []))))
  Table-some _ _ (three v32 o32 vneg oneg v64 o64 e32 eneg e64) =
      omega (arith, length-append v32 (0 ∷ (vneg ++ (0 ∷ (v64 ++ (0 ∷ []))))))

  read_lists :
      (vs : List ℕ) (r : Relocs)
      → Table text_vaddr image_size vs r
      → (fuel : ℕ) → length vs + 1 ≤ fuel
      → (reads text_vaddr image_size image fuel vs [] [] [] >>= of_lists) ≡ ok r
  read_lists _ _ (two v32 o32 v64 o64 e32 e64) fuel enough =
      rw
        (read_two text_vaddr image_size image v32 o32 v64 o64 e32 e64 fuel
          (omega (arith, length-append v32 (0 ∷ (v64 ++ (0 ∷ []))), length-append v64 (0 ∷ []))))
        refl
  read_lists _ _ (three v32 o32 vneg oneg v64 o64 e32 eneg e64) fuel enough =
      rw
        (read_three text_vaddr image_size image v32 o32 vneg oneg v64 o64 e32 eneg e64 fuel (
          omega (
            arith,
            length-append v32 (0 ∷ (vneg ++ (0 ∷ (v64 ++ (0 ∷ []))))),
            length-append vneg (0 ∷ (v64 ++ (0 ∷ []))),
            length-append v64 (0 ∷ []),
          )))
        refl

  read_table-Table :
      (vs : List ℕ) (r : Relocs)
      → Table text_vaddr image_size vs r
      → read_table (image ++ table_bytes vs) text_vaddr image_size (length image) ≡ ok r
  unfolding read_table
  read_table-Table vs r table =
      let bytes = image ++ table_bytes vs in
      let long : length bytes ≡ length image + 4 * length vs =
        omega (arith, length-append image (table_bytes vs), length-table_bytes vs) in
      let some_words = Table-some vs r table in
      let n = length image + 4 * length vs in
      let back : (read_back (suc n) bytes text_vaddr image_size (length image) n [] [] >>= of_lists)
          ≡ ok r =
        subst
          (λ t.
            (read_back (suc n) (image ++ t) text_vaddr image_size (length image) n [] []
              >>= of_lists)
            ≡ ok r)
          (append-nil (table_bytes vs)) (read_lists vs r table (suc n) (omega arith)) in
      if_false (leb (length bytes) (length image)) _ (ground arith) (
        subst
          (λ k.
            (read_back (suc k) bytes text_vaddr image_size (length image) k [] [] >>= of_lists)
            ≡ ok r)
          (sym long) back)

-- Round trip: behind an ELF file that ends where its last structure does, a table of two or three
-- lists, each of words that stand for offsets in the image, is read back as those offsets, each list
-- under its own width.
pub extract_appended_relocs-Table :
    (elf : Elf) (span : ElfSpan) (text_vaddr : ℕ) (image : Bytes) (vs : List ℕ) (r : Relocs)
    → elf_span elf ≡ ok span
    → text_base elf span ≡ ok text_vaddr
    → table_start elf ≡ length image
    → Table text_vaddr (span.max_mem_end - span.min_paddr) vs r
    → extract_appended_relocs elf (image ++ table_bytes vs) ≡ ok r
unfolding extract_appended_relocs
extract_appended_relocs-Table elf span text_vaddr image vs r s t start table =
    let bytes = image ++ table_bytes vs in
    let size = span.max_mem_end - span.min_paddr in
    bind_of (elf_span elf)
      (λ p.
        text_base elf p >>= λ b. read_table bytes b (p.max_mem_end - p.min_paddr) (table_start elf))
      s
      (bind_of (text_base elf span) (λ b. read_table bytes b size (table_start elf)) t
        (subst (λ k. read_table bytes text_vaddr size k ≡ ok r) (sym start)
          (read_table-Table text_vaddr size image vs r table)))
