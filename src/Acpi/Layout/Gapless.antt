-- ===== src/Acpi/Layout/Gapless.antt =====
-- The layout of the tables has no gap (src/count.rs: Offsets::new).
use arma.Base.{
  ℕ, ◌+◌, ◌≡◌, sym, subst, Bool, true, false, ◌&&◌, Option, List, [], ◌∷◌, ◌++◌, ltb, Result, ok,
  bind-eq-ok, ok-injective, some_of_ok_or, ◌>>=◌,
}
use arma.Base.Bits.{checked_add-some}
use arma.Acpi.{DtbError, add}
use arma.Acpi.Layout.{
  Slot, carve, Counts, Offsets, madt_size, mcfg_size, srat_size, slit_size, xsdt_size, dsdt_size,
  carve_sized, carve_if, one_if, layout_from, layout, present, slots,
}

-- Slots that follow one another without a gap, from one place of the buffer to another.
pub data Adjacent : ℕ → List Slot → ℕ → Type 0 where
  ends : (at : ℕ) → Adjacent at [] at
  next :
      (s : Slot) {ss : List Slot} {to : ℕ}
      → Adjacent (s.offset + s.len) ss to
      → Adjacent s.offset (s ∷ ss) to

Adjacent-append :
    (a b c : ℕ) (ss ts : List Slot) → Adjacent a ss b → Adjacent b ts c → Adjacent a (ss ++ ts) c
Adjacent-append _ _ c _ ts (ends at) k = k
Adjacent-append _ b c _ ts (next s h) k = next s (Adjacent-append (s.offset + s.len) b c _ ts h k)

carve-Adjacent :
    (cur n : ℕ) (out : Slot × ℕ) → carve cur n ≡ ok out → Adjacent cur (out.0 ∷ []) (out.1)
unfolding carve
carve-Adjacent cur n out h =
    let (to, e, h) = bind-eq-ok (add cur n) _ h in
    let at : to ≡ cur + n = checked_add-some cur n (some_of_ok_or _ _ e) in
    let s : Slot = record { offset = cur; len = n } in
    subst (λ (o : Slot × ℕ). Adjacent cur (o.0 ∷ []) (o.1)) (ok-injective _ _ h)
      (next s (subst (λ t. Adjacent (cur + n) [] t) (sym at) (ends (cur + n))))

carve_sized-Adjacent :
    (cur : ℕ) (size : Result DtbError ℕ) (out : Slot × ℕ)
    → carve_sized cur size ≡ ok out
    → Adjacent cur (out.0 ∷ []) (out.1)
unfolding carve_sized
carve_sized-Adjacent cur size out h =
    let (n, _, h) = bind-eq-ok size _ h in carve-Adjacent cur n out h

carve_if-Adjacent :
    (b : Bool) (cur : ℕ) (size : Result DtbError ℕ) (out : Option Slot × ℕ)
    → carve_if b cur size ≡ ok out
    → Adjacent cur (present (out.0)) (out.1)
unfolding carve_if
carve_if-Adjacent false cur size out h =
    subst (λ (o : Option Slot × ℕ). Adjacent cur (present (o.0)) (o.1)) (ok-injective _ _ h)
      (ends cur)
carve_if-Adjacent true cur size out h =
    let (s, e, h) = bind-eq-ok (carve_sized cur size) _ h in
    subst (λ (o : Option Slot × ℕ). Adjacent cur (present (o.0)) (o.1)) (ok-injective _ _ h)
      (carve_sized-Adjacent cur size s e)

-- A step of the layout, with its results as variables.
through :
    {A : Type 0} (m : Result DtbError (A × ℕ)) (f : A × ℕ → Result DtbError Offsets) (o : Offsets)
    {P : Type 0}
    → (m >>= f) ≡ ok o
    → ((a : A) (at : ℕ) → m ≡ ok (a, at) → f (a, at) ≡ ok o → P)
    → P
through m f o h k = let (out, e, rest) = bind-eq-ok m f h in k (out.0) (out.1) e rest

layout_from-Adjacent :
    (start : ℕ) (c : Counts) (n_domains : ℕ) (o : Offsets)
    → layout_from start c n_domains ≡ ok o
    → Adjacent start (slots o) o.total
unfolding layout_from
layout_from-Adjacent start c n_domains o h = through (carve start 36) _ o h (λ rsdp at1 r h.
    through (carve_sized at1 (dsdt_size c)) _ o h (λ dsdt at2 d h.
      through (carve at2 276) _ o h (λ fadt at3 f h.
        through (carve_sized at3 (madt_size c.ioapic_count c.vcpu_entries_bytes)) _ o h
          (λ madt at4 m h.
            through (carve_if (ltb 0 c.ecam_count) at4 (mcfg_size c.ecam_count)) _ o h
              (λ mcfg at5 g h. through (carve_if c.has_serial at5 (ok 80)) _ o h (λ spcr at6 s h.
                through
                  (carve_if c.has_numa at6 (srat_size c.memory_region_count c.cpu_entries_bytes)) _
                  o h
                  (λ srat at7 t h.
                    through (carve_if (c.has_numa && c.has_distances) at7 (slit_size n_domains)) _ o
                      h
                      (λ slit at8 l h.
                        through
                          (carve_sized at8 (
                            xsdt_size
                              (2 + (one_if mcfg + (one_if spcr + (one_if srat + one_if slit))))))
                          _ o h
                          (λ xsdt at9 x h.
                            subst (λ t. Adjacent start (slots t) t.total) (ok-injective _ _ h)
                              (all start at1 at2 at3 at4 at5 at6 at7 at8 at9 rsdp dsdt fadt madt
                                xsdt mcfg spcr srat slit (carve-Adjacent start 36 (rsdp, at1) r)
                                (carve_sized-Adjacent at1 _ (dsdt, at2) d)
                                (carve-Adjacent at2 276 (fadt, at3) f)
                                (carve_sized-Adjacent at3 _ (madt, at4) m)
                                (carve_if-Adjacent _ at4 _ (mcfg, at5) g)
                                (carve_if-Adjacent _ at5 (ok 80) (spcr, at6) s)
                                (carve_if-Adjacent _ at6 _ (srat, at7) t)
                                (carve_if-Adjacent _ at7 _ (slit, at8) l)
                                (carve_sized-Adjacent at8 _ (xsdt, at9) x)))))))))))
  where
    all :
        (a b c d e f g h i j : ℕ) (rsdp dsdt fadt madt xsdt : Slot)
        (mcfg spcr srat slit : Option Slot)
        → Adjacent a (rsdp ∷ []) b
        → Adjacent b (dsdt ∷ []) c
        → Adjacent c (fadt ∷ []) d
        → Adjacent d (madt ∷ []) e
        → Adjacent e (present mcfg) f
        → Adjacent f (present spcr) g
        → Adjacent g (present srat) h
        → Adjacent h (present slit) i
        → Adjacent i (xsdt ∷ []) j
        → Adjacent a
            (rsdp
              ∷ dsdt
              ∷ fadt
              ∷ madt
              ∷ (present mcfg ++ (present spcr ++ (present srat ++ (present slit ++ (xsdt ∷ []))))))
            j
    all a b c d e f g h i j rsdp dsdt fadt madt xsdt mcfg spcr srat slit p q r s t u v w x =
        let tail = Adjacent-append h i j (present slit) (xsdt ∷ []) w x in
        let tail = Adjacent-append g h j (present srat) _ v tail in
        let tail = Adjacent-append f g j (present spcr) _ u tail in
        let tail = Adjacent-append e f j (present mcfg) _ t tail in
        let tail = Adjacent-append d e j (madt ∷ []) _ s tail in
        let tail = Adjacent-append c d j (fadt ∷ []) _ r tail in
        let tail = Adjacent-append b c j (dsdt ∷ []) _ q tail in
        Adjacent-append a b j (rsdp ∷ []) _ p tail

-- The layout has no gap and no overlap: the tables that are present follow one another from the
-- start of the buffer to the total.
pub layout-Adjacent :
    (c : Counts) (n_domains : ℕ) (o : Offsets)
    → layout c n_domains ≡ ok o
    → Adjacent 0 (slots o) o.total
unfolding layout
layout-Adjacent c n_domains o h = layout_from-Adjacent 0 c n_domains o h
