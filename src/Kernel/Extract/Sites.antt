-- ===== src/Kernel/Extract/Sites.antt =====
-- Every offset that is recorded fits 32 bits (src/kernel.rs: extract_relocs,
-- extract_appended_relocs).
use arma.Base.{
  ℕ, zero, suc, ◌+◌, ◌-◌, ◌<◌, ◌^◌, ◌≡◌, inl, inr, refl, subst, arith, Bool, true, false, ◌&&◌,
  ◌||◌, Bool-cases, List, [], ◌∷◌, ◌++◌, ltb, leb, ◌==◌, if◌then◌else◌, take, drop, length, All,
  All-append, Result, ok, err, ok_or, bind-eq-ok, ok-injective, if_ok-cases, ◌>>=◌,
}
use arma.Base.Slice.{from_le}
use arma.Base.Text.{Bytes}
use arma.Release.{nth}
use arma.Kernel.{
  KernelError, elf_malformed, parse_failed, reloc_outside, appended_outside, reloc_section,
  reloc_symbol, panics, Reloc, Elf, Reader,
}
use arma.Kernel.Span.{elf_span}
use arma.Kernel.Relocs.{Relocs, no_relocs, chained}
use arma.Kernel.Appended.{
  text_base, table_start, site_of, sign_extend, read_back, of_lists, read_table,
  extract_appended_relocs,
}
use arma.Kernel.Extract.{
  PerCpu, find_percpu, to_image_off, push64, push32, push32neg, is_relative, is_absolute, classify,
  add_reloc, add_relocs, is_walked, add_section, add_sections, extract_sections, extract_relocs,
}

abbrev Fits : List ℕ → Type 0
Fits os = All (λ o. o < 2 ^ 32) os

-- All three tables fit.
record IsSmall (r : Relocs) : Type 0 where
  fit64 : Fits r.relocs64
  fit32neg : Fits r.relocs32neg
  fit32 : Fits r.relocs32

add_one : (os : List ℕ) (o : ℕ) → Fits os → o < 2 ^ 32 → Fits (os ++ (o ∷ []))
add_one os o all h = All-append (λ n. n < 2 ^ 32) os (o ∷ []) all (h, tt)

to_image_off-lt : (base va o : ℕ) → to_image_off base va ≡ ok o → o < 2 ^ 32
to_image_off-lt base va o h = elim (Bool-cases (leb base va && ltb (va - base) (2 ^ 32))) [
  | inl e ↦
      let same : va - base ≡ o = ok-injective _ _ (rw e at h) in
      subst (λ t. t < 2 ^ 32) same (ground arith)
  | inr e ↦ absurd (
      let both : ◌≡◌ {A = Result KernelError ℕ} (err (elf_malformed reloc_outside)) (ok o) =
        (rw e at h) in
      cc)
]

site_of-lt : (base size v o : ℕ) → site_of base size v ≡ ok o → o < 2 ^ 32
unfolding site_of
site_of-lt base size v o h =
    elim (Bool-cases (
      leb base (sign_extend v)
      && ltb (sign_extend v - base) size
      && ltb (sign_extend v - base) (2 ^ 32))) [
        | inl e ↦
            let same : sign_extend v - base ≡ o = ok-injective _ _ (rw e at h) in
            subst (λ t. t < 2 ^ 32) same (ground arith)
        | inr e ↦ absurd (
            let both : ◌≡◌ {A = Result KernelError ℕ} (err (elf_malformed appended_outside))
                (ok o) =
              (rw e at h) in
            cc)
      ]

-- What a run records, if it gives anything.
record Records (r : Result KernelError Relocs) : Type 0 where
  each : (out : Relocs) → r ≡ ok out → IsSmall out

Records-ok : (out : Relocs) → IsSmall out → Records (ok out)
Records-ok out h = record { each = λ o e. subst IsSmall (ok-injective _ _ e) h }

Records-err : (e : KernelError) → Records (err e)
Records-err e = record {
  each = λ o h. absurd (let both : ◌≡◌ {A = Result KernelError Relocs} (err e) (ok o) = h in cc);
}

Records-if :
    (b : Bool) {x y : Result KernelError Relocs}
    → Records x
    → Records y
    → Records (if b then x else y)
Records-if true c d = c
Records-if false c d = d

Records-after {ℓ} :
    {A : Type ℓ} (m : Result KernelError A) (f : A → Result KernelError Relocs)
    → ((a : A) → m ≡ ok a → Records (f a))
    → Records (m >>= f)
Records-after (ok a) f g = g a refl
Records-after (err e) f g = Records-err e

Records-bind :
    (m : Result KernelError Relocs) (f : Relocs → Result KernelError Relocs)
    → Records m
    → ((out : Relocs) → IsSmall out → Records (f out))
    → Records (m >>= f)
Records-bind (ok a) f h g = g a (h.each a refl)
Records-bind (err e) f h g = Records-err e

IsSmall-64 : (out : Relocs) (o : ℕ) → IsSmall out → o < 2 ^ 32 → IsSmall (push64 o out)
IsSmall-64 out o h k = record {
  fit64 = add_one out.relocs64 o h.fit64 k;
  fit32neg = h.fit32neg;
  fit32 = h.fit32;
}

IsSmall-32 : (out : Relocs) (o : ℕ) → IsSmall out → o < 2 ^ 32 → IsSmall (push32 o out)
IsSmall-32 out o h k = record {
  fit64 = h.fit64;
  fit32neg = h.fit32neg;
  fit32 = add_one out.relocs32 o h.fit32 k;
}

IsSmall-32neg : (out : Relocs) (o : ℕ) → IsSmall out → o < 2 ^ 32 → IsSmall (push32neg o out)
IsSmall-32neg out o h k = record {
  fit64 = h.fit64;
  fit32neg = add_one out.relocs32neg o h.fit32neg k;
  fit32 = h.fit32;
}

IsSmall-if : (b : Bool) (x y : Relocs) → IsSmall x → IsSmall y → IsSmall (if b then x else y)
IsSmall-if true x y h k = h
IsSmall-if false x y h k = k

module _ (elf : Elf) (percpu : PerCpu) (base : ℕ) where
  classify-Records :
      (t va : ℕ) (is_percpu is_abs : Bool) (out : Relocs)
      → IsSmall out
      → Records (classify base t va is_percpu is_abs out)
  unfolding classify
  classify-Records t va is_percpu is_abs out h = Records-if (t == 0) (Records-ok out h) (
      Records-if (is_relative t)
        (Records-if is_percpu
          (Records-after (to_image_off base va) _
            (λ o e. Records-ok _ (IsSmall-32neg out o h (to_image_off-lt base va o e))))
          (Records-ok out h))
        (Records-if (t == 24) (Records-if is_percpu (Records-err _) (Records-ok out h)) (
          Records-if (is_absolute t)
            (Records-if (is_percpu || is_abs) (Records-ok out h) (
              Records-after (to_image_off base va) _ (λ o e.
                let k = to_image_off-lt base va o e in
                Records-ok _
                  (IsSmall-if (t == 1) _ _ (IsSmall-64 out o h k) (IsSmall-32 out o h k)))))
            (Records-err _))))

  add_reloc-Records :
      (inside : Bool) (rel : Reloc) (out : Relocs)
      → IsSmall out
      → Records (add_reloc elf percpu base inside rel out)
  unfolding add_reloc
  add_reloc-Records inside rel out h =
      Records-after (ok_or (elf_malformed reloc_symbol) (nth rel.r_sym elf.syms)) _ (λ sym _.
        Records-if (sym.st_shndx == 0) (Records-ok out h) (
          Records-if (sym.st_shndx == 0xffff) (Records-err _)
            (classify-Records rel.r_type _ _ _ out h)))

  add_relocs-Records :
      (inside : Bool) (rels : List Reloc) (out : Relocs)
      → IsSmall out
      → Records (add_relocs elf percpu base inside rels out)
  unfolding add_relocs
  add_relocs-Records inside [] out h = Records-ok out h
  add_relocs-Records inside (rel ∷ rels) out h =
      Records-bind (add_reloc elf percpu base inside rel out) _ (add_reloc-Records inside rel out h)
        (λ out' h'. add_relocs-Records inside rels out' h')

  add_section-Records :
      (i : ℕ) (rels : List Reloc) (out : Relocs)
      → IsSmall out
      → Records (add_section elf percpu base i rels out)
  unfolding add_section
  add_section-Records i rels out h =
      Records-after (ok_or panics (nth i elf.section_headers)) _ (λ sec _.
        Records-after (ok_or (elf_malformed reloc_section) (nth sec.sh_info elf.section_headers)) _
          (λ applies _.
            Records-if (is_walked applies) (add_relocs-Records _ rels out h) (Records-ok out h)))

  add_sections-Records :
      (sections : List (ℕ × List Reloc)) (out : Relocs)
      → IsSmall out
      → Records (add_sections elf percpu base sections out)
  unfolding add_sections
  add_sections-Records [] out h = Records-ok out h
  add_sections-Records ((i, rels) ∷ sections) out h =
      Records-bind (add_section elf percpu base i rels out) _ (add_section-Records i rels out h)
        (λ out' h'. add_sections-Records sections out' h')

-- The lists that are read back.
read_back-Fits :
    (fuel : ℕ) (bytes : Bytes) (base size start pos : ℕ) (lists : List (List ℕ)) (cur : List ℕ)
    (out : List (List ℕ))
    → All Fits lists
    → Fits cur
    → read_back fuel bytes base size start pos lists cur ≡ ok out
    → All Fits out
unfolding read_back
read_back-Fits zero bytes base size start pos lists cur out a c h = cc
read_back-Fits (suc fuel) bytes base size start pos lists cur out a c h =
    elim (if_ok-cases (ltb pos (start + 4)) lists _ h) [
      | inl e ↦ subst (All Fits) e a
      | inr e ↦
          word (from_le (take 4 (drop (pos - 4) bytes))) e
            (λ l k. read_back-Fits fuel bytes base size start (pos - 4) l k out)
    ]
  where
    word :
        (v : ℕ)
        → (elim v [
          | zero ↦ read_back fuel bytes base size start (pos - 4) (lists ++ (cur ∷ [])) []
          | suc v ↦ site_of base size (suc v) >>= λ off.
              read_back fuel bytes base size start (pos - 4) lists (cur ++ (off ∷ []))
        ])
          ≡ ok out
        → ((l : List (List ℕ)) (k : List ℕ)
            → All Fits l
            → Fits k
            → read_back fuel bytes base size start (pos - 4) l k ≡ ok out
            → All Fits out)
        → All Fits out
    word zero e rec = rec (lists ++ (cur ∷ [])) [] (All-append Fits lists (cur ∷ []) a (c, tt)) tt e
    word (suc v) e rec =
        let (off, s, e) = bind-eq-ok (site_of base size (suc v)) _ e in
        rec lists (cur ++ (off ∷ [])) a (add_one cur off c (site_of-lt base size (suc v) off s)) e

of_lists-Records : (lists : List (List ℕ)) → All Fits lists → Records (of_lists lists)
of_lists-Records [] a = Records-err _
of_lists-Records (x ∷ []) a = Records-err _
of_lists-Records (x ∷ y ∷ []) (fx, (fy, _)) =
    Records-ok _ (record { fit64 = fy; fit32neg = tt; fit32 = fx })
of_lists-Records (x ∷ y ∷ z ∷ []) (fx, (fy, (fz, _))) =
    Records-ok _ (record { fit64 = fz; fit32neg = fy; fit32 = fx })
of_lists-Records (x ∷ y ∷ z ∷ w ∷ lists) a = Records-err _

none-IsSmall : IsSmall no_relocs
none-IsSmall = record { fit64 = tt; fit32neg = tt; fit32 = tt }

read_table-Records :
    (bytes : Bytes) (base size start : ℕ) → Records (read_table bytes base size start)
unfolding read_table
read_table-Records bytes base size start =
    Records-if (leb (length bytes) start) (Records-ok no_relocs none-IsSmall) (
      Records-after (read_back (suc (length bytes)) bytes base size start (length bytes) [] []) _
        (λ lists e. of_lists-Records lists (
          read_back-Fits (suc (length bytes)) bytes base size start (length bytes) [] [] lists tt tt
            e)))

extract_appended-Records : (elf : Elf) (bytes : Bytes) → Records (extract_appended_relocs elf bytes)
unfolding extract_appended_relocs
extract_appended-Records elf bytes = Records-after (elf_span elf) _ (λ span _.
    Records-after (text_base elf span) _
      (λ base _. read_table-Records bytes base _ (table_start elf)))

extract_sections-Records : (elf : Elf) → Records (extract_sections elf)
unfolding extract_sections
extract_sections-Records elf = Records-after (elf_span elf) _ (λ span _.
    Records-after (find_percpu elf 0 elf.section_headers) _ (λ percpu _.
      Records-after (text_base elf span) _
        (λ base _. add_sections-Records elf percpu base elf.shdr_relocs no_relocs none-IsSmall)))

-- Whichever way a kernel carries its relocations, every offset that is taken from it fits 32 bits,
-- as the section that is written from the tables and the stub that reads it need.
pub extract_relocs-fits :
    (r : Reader) (bytes : Bytes) (out : Relocs)
    → extract_relocs r bytes ≡ ok out
    → All (λ o. o < 2 ^ 32) (chained out)
unfolding extract_relocs
extract_relocs-fits r bytes out h =
    let (elf, _, h) = bind-eq-ok (ok_or (elf_malformed parse_failed) (r.elf_parse bytes)) _ h in
    let small =
      (Records-if (length elf.shdr_relocs == 0) (extract_appended-Records elf bytes)
          (extract_sections-Records elf)).each
        out h in
    All-append (λ o. o < 2 ^ 32) out.relocs64 (out.relocs32neg ++ out.relocs32) small.fit64
      (All-append (λ o. o < 2 ^ 32) out.relocs32neg out.relocs32 small.fit32neg small.fit32)
