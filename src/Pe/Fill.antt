-- ===== src/Pe/Fill.antt =====
-- The buffer half of the writer (src/pe.rs: build_pe): every write lands inside the buffer that the
-- layout sized.
use arma.Base.{
  ℕ, ◌+◌, ◌-◌, ◌*◌, ◌≤◌, ◌≡◌, ◌≢◌, inl, inr, refl, sym, ap, ◌∙◌, subst, arith, true, false,
  Bool-cases, List, [], ◌∷◌, ltb, ge_of_ltb, leb, leb→le, length, replicate, Result, ok, err,
  refuse_if, refuse_if-ok, bind-eq-ok, ok-injective, some_of_ok_or, ◌>>=◌, length-append,
  length-replicate,
}
use arma.Base.Text.{Bytes}
use arma.Base.Slice.{le, splice-fits}
use arma.Pe.Section.{
  check_names, PeError, Section, Fault, pe_error, panic, is_zero_shape, checked_add_u32, to_u32,
  align_up_u32, or_overflow, decimal, pad8, name_field, name_fields, string_table_offset_too_large,
  file_alignment, size_of_image, sum_sizes,
}
use arma.Pe.Place.{
  Raw, place_raws, IsPlaced, Laid, place_raws-Laid, checked_add_u32-some, align_up_u32-some,
  to_u32-eq,
}
use arma.Base.Align.{le-up}
use arma.Pe.Write.{
  section_header, vaddr_field, write_at, write_headers, write_payload, write_payloads, place_strtab,
  Layout, lay_out, patch_size, write_strtab, compose, build_pe, section_hdr_size, dos_header,
  pe_signature, coff_header, opt_header, pe_offset, opt_size,
}
use arma.Pe.Total.{Calm, ok-Calm, bind-Calm, to_u32-Calm, lay_out-Calm, sum_sizes-Calm}

-- A run ends in a buffer of the given size, or in an error of the writer.
data Fills (size : ℕ) (r : Result Fault Bytes) : Type 0 where
  filled : (out : Bytes) → r ≡ ok out → length out ≡ size → Fills size r
  refused : (e : PeError) → r ≡ err (pe_error e) → Fills size r

-- The next step of a run that fills so far.
Fills-bind :
    (size : ℕ) (m : Result Fault Bytes) (f : Bytes → Result Fault Bytes)
    → Fills size m
    → ((out : Bytes) → length out ≡ size → Fills size (f out))
    → Fills size (m >>= f)
Fills-bind size m f (filled out e n) k = rw e (k out n)
Fills-bind size m f (refused x e) k = refused x (rw e refl)

write_at-Fills :
    (size off : ℕ) (bs buf : Bytes)
    → length buf ≡ size
    → off + length bs ≤ size
    → Fills size (write_at off bs buf)
write_at-Fills size off bs buf n h =
    let (out, e, same) = splice-fits off bs buf (omega arith) in filled out (rw e refl) (same ∙ n)

-- A layout that fits: one eight-byte name and one raw extent per section.
abbrev Named : List Section → List Bytes → Type 0
Named [] fields = Unit
Named (s ∷ ss) [] = ⊥
Named (s ∷ ss) (f ∷ fs) = (length f ≡ 8) × Named ss fs

length-pad8 : (bs : Bytes) → length bs ≤ 8 → length (pad8 bs) ≡ 8
length-pad8 bs h = omega (
  arith,
  length-append bs (replicate (8 - length bs) 0),
  length-replicate {A = ℕ} (8 - length bs) 0,
)

module _ {ℓ} {A : Type ℓ} where
  Fills-step :
      (size : ℕ) (m : Result Fault A) (f : A → Result Fault Bytes)
      → Calm m
      → ((a : A) → m ≡ ok a → Fills size (f a))
      → Fills size (m >>= f)
  Fills-step size (ok a) f c k = k a refl
  Fills-step size (err (pe_error e)) f c k = refused e refl
  Fills-step size (err panic) f c k = absurd (c refl)

length-section_header :
    (f : Bytes) (s : Section) (r : Raw) (hdr : Bytes)
    → length f ≡ 8
    → section_header f s r ≡ ok hdr
    → length hdr ≡ 40
unfolding section_header
length-section_header f s r hdr n h =
    let (vaddr, e0, h0) = bind-eq-ok (vaddr_field s) _ h in
    let (natural, e1, h1) = bind-eq-ok (to_u32 s.virtual_size) _ h0 in
    subst (λ t. length t ≡ 40) (ok-injective _ _ h1) (length-append f _ ∙ ap (λ (k : ℕ). k + 32) n)

vaddr_field-Calm : (s : Section) → Calm (vaddr_field s)
vaddr_field-Calm s = elim (Bool-cases s.non_loaded) [
  | inl e ↦ rw e ok-Calm
  | inr e ↦ rw e (to_u32-Calm s.vaddr)
]

section_header-Calm : (f : Bytes) (s : Section) (r : Raw) → Calm (section_header f s r)
unfolding section_header
section_header-Calm f s r =
    bind-Calm (vaddr_field s) _ (vaddr_field-Calm s)
      (λ v e. bind-Calm (to_u32 s.virtual_size) _ (to_u32-Calm _) (λ n e'. ok-Calm))

write_headers-Fills :
    (size : ℕ) (ss : List Section) (fs : List Bytes) (rs : List Raw) (off cursor end : ℕ)
    (buf : Bytes)
    → Named ss fs
    → Laid ss cursor rs end
    → length buf ≡ size
    → off + length ss * 40 ≤ size
    → Fills size (write_headers ss fs rs off buf)
unfolding write_headers
write_headers-Fills size [] fs rs off cursor end buf named laid n h = filled buf refl n
write_headers-Fills size (s ∷ ss) [] rs off cursor end buf named laid n h = absurd named
write_headers-Fills size (s ∷ ss) (f ∷ fs) [] off cursor end buf named laid n h = absurd laid
write_headers-Fills size (s ∷ ss) (f ∷ fs) (r ∷ rs) off cursor end buf (eight, named)
      (next, _, laid) n h =
    Fills-step size (section_header f s r) _ (section_header-Calm f s r) (λ hdr e.
      let forty = length-section_header f s r hdr eight e in
      Fills-bind size (write_at off hdr buf) _ (write_at-Fills size off hdr buf n (omega arith))
        (λ buf' n'.
          write_headers-Fills size ss fs rs (off + 40) next end buf' named laid n' (omega arith)))

-- The cursor never moves back.
Laid-le :
    (ss : List Section) (cursor : ℕ) (rs : List Raw) (end : ℕ)
    → Laid ss cursor rs end
    → cursor ≤ end
Laid-le [] cursor [] end h = omega arith
Laid-le [] cursor (r ∷ rs) end h = absurd h
Laid-le (s ∷ ss) cursor [] end h = absurd h
Laid-le (s ∷ ss) cursor (r ∷ rs) end (next, p, laid) =
    omega (arith, p.moves, Laid-le ss next rs end laid)

write_payload-Fills :
    (size : ℕ) (s : Section) (r : Raw) (cursor next : ℕ) (buf : Bytes)
    → IsPlaced s cursor r next
    → next ≤ size
    → length buf ≡ size
    → Fills size (write_payload s r buf)
write_payload-Fills size s r cursor next buf p h n = elim (Bool-cases (is_zero_shape s)) [
  | inl e ↦ rw e (filled buf refl n)
  | inr e ↦ rw e (write_at-Fills size r.offset s.contents buf n (omega (arith, p.behind, p.holds)))
]

write_payloads-Fills :
    (size : ℕ) (ss : List Section) (rs : List Raw) (cursor end : ℕ) (buf : Bytes)
    → Laid ss cursor rs end
    → end ≤ size
    → length buf ≡ size
    → Fills size (write_payloads ss rs buf)
unfolding write_payloads
write_payloads-Fills size [] rs cursor end buf laid h n = filled buf refl n
write_payloads-Fills size (s ∷ ss) [] cursor end buf laid h n = absurd laid
write_payloads-Fills size (s ∷ ss) (r ∷ rs) cursor end buf (next, p, laid) h n =
    Fills-bind size (write_payload s r buf) _
      (write_payload-Fills size s r cursor next buf p (omega (arith, Laid-le ss next rs end laid))
        n)
      (λ buf' n'. write_payloads-Fills size ss rs next end buf' laid h n')

name_field-length :
    (strtab n : Bytes) (t : Bytes × Bytes) → name_field strtab n ≡ ok t → length t.0 ≡ 8
unfolding name_field
name_field-length strtab n t h = elim (Bool-cases (leb (length n) 8)) [
  | inl e ↦
      subst (λ (t : Bytes × Bytes). length t.0 ≡ 8) (ok-injective _ _ (rw e at h))
        (length-pad8 n (leb→le (length n) 8 e))
  | inr e ↦
      let field = b'/' ∷ decimal 20 (length strtab) in
      let (u, e0, h0) =
        bind-eq-ok
          (refuse_if (ltb 8 (length field))
            (pe_error (string_table_offset_too_large (length strtab))))
          _ (rw e at h) in
      let short = refuse_if-ok _ _ e0 in
      subst (λ (t : Bytes × Bytes). length t.0 ≡ 8) (ok-injective _ _ h0)
        (length-pad8 field (ge_of_ltb 8 (length field) short))
]

name_fields-Named :
    (ss : List Section) (strtab : Bytes) (t : List Bytes × Bytes)
    → name_fields ss strtab ≡ ok t
    → Named ss t.0
unfolding name_fields
name_fields-Named [] strtab t h = tt
name_fields-Named (s ∷ ss) strtab t h =
    let (u, e0, h0) = bind-eq-ok (name_field strtab s.name) _ h in
    let (v, e1, h1) = bind-eq-ok (name_fields ss u.1) _ h0 in
    subst (λ (t : List Bytes × Bytes). Named (s ∷ ss) t.0) (ok-injective _ _ h1)
      (name_field-length strtab s.name u e0, name_fields-Named ss u.1 v e1)

place_strtab-fits :
    (strtab : Bytes) (cursor : ℕ) (t : ℕ × ℕ)
    → place_strtab strtab cursor ≡ ok t
    → (cursor ≤ t.1) × (ltb 4 (length strtab) ≡ true → t.0 + length strtab ≤ t.1)
unfolding place_strtab
place_strtab-fits strtab cursor t h = elim (Bool-cases (ltb 4 (length strtab))) [
  | inl e ↦
      let (len, e0, h0) = bind-eq-ok (to_u32 (length strtab)) _ (rw e at h) in
      let (end, e1, h1) = bind-eq-ok (or_overflow (checked_add_u32 cursor len)) _ h0 in
      let same = to_u32-eq (length strtab) len e0 in
      let sum = checked_add_u32-some cursor len (some_of_ok_or _ _ e1) in
      subst
        (λ (t : ℕ × ℕ). (cursor ≤ t.1) × (ltb 4 (length strtab) ≡ true → t.0 + length strtab ≤ t.1))
        (ok-injective _ _ h1) (omega arith, λ k. omega arith)
  | inr e ↦
      subst
        (λ (t : ℕ × ℕ). (cursor ≤ t.1) × (ltb 4 (length strtab) ≡ true → t.0 + length strtab ≤ t.1))
        (ok-injective _ _ (rw e at h)) (omega arith, λ k. let both : true ≡ false = sym k ∙ e in cc)
]

-- What the buffer half relies on.
record IsFitting (ss : List Section) (l : Layout) : Type 0 where
  named : Named ss l.fields
  room : 328 + length ss * 40 ≤ l.headers
  end : ℕ
  laid : Laid ss l.headers l.raws end
  inside : end ≤ l.file_size
  table : ltb 4 (length l.strtab) ≡ true → l.strtab_offset + length l.strtab ≤ l.file_size

lay_out-IsFitting : (ss : List Section) (l : Layout) → lay_out ss ≡ ok l → IsFitting ss l
unfolding lay_out
lay_out-IsFitting ss l h =
    let (_, _, h) = bind-eq-ok (refuse_if (ltb 65535 (length ss)) _) _ h in
    let (_, _, h) = bind-eq-ok (check_names ss) _ h in
    let (t, e0, h) = bind-eq-ok (name_fields ss (le 4 0)) _ h in
    let (n, e1, h) =
      bind-eq-ok (to_u32 (pe_offset + 4 + 20 + opt_size + length ss * section_hdr_size)) _ h in
    let (headers, e2, h) = bind-eq-ok (or_overflow (align_up_u32 n file_alignment)) _ h in
    let (r, e3, h) = bind-eq-ok (place_raws ss headers) _ h in
    let (p, e4, h) = bind-eq-ok (place_strtab (patch_size t.1) r.1) _ h in
    let same = to_u32-eq (pe_offset + 4 + 20 + opt_size + length ss * section_hdr_size) n e1 in
    let (sized, _) = align_up_u32-some 12 n headers (omega arith) (some_of_ok_or _ _ e2) in
    let (inside, table) = place_strtab-fits (patch_size t.1) r.1 p e4 in
    subst (IsFitting ss) (ok-injective _ _ h) (record {
      named = name_fields-Named ss (le 4 0) t e0;
      room = omega (arith, le-up n file_alignment (omega arith));
      end = r.1;
      laid = place_raws-Laid ss headers r.0 r.1 e3;
      inside = inside;
      table = table;
    })

write_strtab-Fills :
    (size : ℕ) (strtab : Bytes) (off : ℕ) (buf : Bytes)
    → (ltb 4 (length strtab) ≡ true → off + length strtab ≤ size)
    → length buf ≡ size
    → Fills size (write_strtab strtab off buf)
write_strtab-Fills size strtab off buf h n = elim (Bool-cases (ltb 4 (length strtab))) [
  | inl e ↦ rw e (write_at-Fills size off strtab buf n (h e))
  | inr e ↦ rw e (filled buf refl n)
]

compose-Fills :
    (machine : ℕ) (ss : List Section) (l : Layout)
    → IsFitting ss l
    → Fills l.file_size (compose machine ss l)
unfolding compose
compose-Fills machine ss l fit =
    let size = l.file_size in
    let zeros : length (replicate l.file_size 0) ≡ l.file_size =
      length-replicate {A = ℕ} l.file_size 0 in
    let big : 328 + length ss * 40 ≤ l.file_size =
      omega (arith, fit.room, fit.inside, Laid-le ss l.headers l.raws fit.end fit.laid) in
    Fills-bind size (write_at 0 dos_header (replicate l.file_size 0)) _
      (write_at-Fills size 0 dos_header _ zeros (omega arith))
      (λ b n.
        Fills-bind size (write_at 64 pe_signature b) _
          (write_at-Fills size 64 pe_signature b n (omega arith))
          (λ b n. Fills-step size (sum_sizes ss _) _ (sum_sizes-Calm ss _) (λ z e.
            Fills-bind size (write_at 68 (coff_header machine (length ss) l.strtab_offset) b) _
              (write_at-Fills size 68 (coff_header machine (length ss) l.strtab_offset) b n
                (omega arith))
              (λ b n.
                Fills-bind size
                  (write_at 88 (opt_header z (size_of_image ss l.headers) l.headers) b) _
                  (write_at-Fills size 88 (opt_header z (size_of_image ss l.headers) l.headers) b n
                    (omega arith))
                  (λ b n.
                    Fills-bind size (write_headers ss l.fields l.raws 328 b) _
                      (write_headers-Fills size ss l.fields l.raws 328 l.headers fit.end b fit.named
                        fit.laid n big)
                      (λ b n.
                        Fills-bind size (write_payloads ss l.raws b) _
                          (write_payloads-Fills size ss l.raws l.headers fit.end b fit.laid
                            fit.inside n)
                          (λ b n.
                            write_strtab-Fills size l.strtab l.strtab_offset b fit.table n)))))))

Fills-Calm : (size : ℕ) (r : Result Fault Bytes) → Fills size r → Calm r
Fills-Calm size r (filled out e n) = rw e ok-Calm
Fills-Calm size r (refused x e) =
    λ h. let both : ◌≡◌ {A = Result Fault Bytes} (err (pe_error x)) (err panic) = sym e ∙ h in cc

-- For every machine and every list of sections, `build_pe` does not slice out of bounds.
pub build_pe-never_panics : (machine : ℕ) (ss : List Section) → build_pe machine ss ≢ err panic
unfolding build_pe
build_pe-never_panics machine ss = bind-Calm (lay_out ss) _ (lay_out-Calm ss) (λ l e.
    Fills-Calm l.file_size (compose machine ss l)
      (compose-Fills machine ss l (lay_out-IsFitting ss l e)))
