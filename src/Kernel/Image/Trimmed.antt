-- ===== src/Kernel/Image/Trimmed.antt =====
-- The flat image is written in bounds, and loses only zeros (src/kernel.rs: elf_load_image).
use mathlib.Core.Option.{some-injective}
use arma.Base.{
  ℕ, zero, suc, ◌-◌, ◌≤◌, ◌≡◌, inl, inr, refl, ap, subst, arith, true, false, ◌&&◌, Bool-cases,
  Option, none, some, List, [], ◌∷◌, ◌++◌, ltb, leb, if◌then◌else◌, take, drop, replicate, length,
  length-replicate, length-take, All, Result, ok, err, ok_or, ◌>>=◌,
}
use arma.Base.Align.{le-up}
use arma.Base.Bits.{checked_add, checked_add-some}
use arma.Base.Slice.{splice, splice-fits, length-drop}
use arma.Base.Text.{Bytes}
use arma.Kernel.{
  KernelError, elf_malformed, Malformed, segment_bounds, panics, ProgramHeader, Elf, Reader,
  get_range,
}
use arma.Kernel.Span.{
  ElfSpan, elf_span, is_counted, Holds, elf_span-Holds, Spanned, spanned, elf_span-Spanned,
}
use arma.Kernel.Image.{
  is_copied, segment_bytes, copy_segment, copy_segments, content_end, kept, trim, flat_image,
  elf_load_image,
}

zeros : (image : Bytes) → content_end image ≡ 0 → replicate (length image) 0 ≡ image
zeros [] h = refl
zeros (b ∷ bs) h =
    let rest : content_end bs ≡ 0 = ground arith in
    let here : b ≡ 0 = ground arith in rw (here, zeros bs rest) refl

-- Behind the content there are zeros.
take-content :
    (n : ℕ) (image : Bytes)
    → content_end image ≤ n
    → n ≤ length image
    → take n image ++ replicate (length image - n) 0 ≡ image
take-content zero image h k =
    let e : length image - 0 ≡ length image = omega arith in rw e (zeros image (omega arith))
take-content (suc n) [] h k = absurd (omega arith)
take-content (suc n) (b ∷ bs) h k =
    let e : suc (length bs) - suc n ≡ length bs - n = omega arith in
    rw e (ap (λ t. b ∷ t) (take-content n bs (ground arith) (omega arith)))

content_end-le : (image : Bytes) → content_end image ≤ length image
content_end-le [] = omega arith
content_end-le (b ∷ bs) = ground (arith, content_end-le bs)

-- What is cut from the image is zeros, fewer than a page of the content's own are kept.
trim-padded :
    (image : Bytes) → trim image ++ replicate (length image - length (trim image)) 0 ≡ image
unfolding trim
trim-padded image =
    let e : length (take (kept image) image) ≡ kept image =
      omega (arith, length-take (kept image) image) in
    rw e (
      take-content (kept image) image
        (omega (arith, content_end-le image, le-up (content_end image) 0x1000 (omega arith)))
        (omega arith))

-- A run that gives an image of `n` bytes, or reports a malformed file.
data Sized (n : ℕ) : Result KernelError Bytes → Type 0 where
  sized : (image : Bytes) → length image ≡ n → Sized n (ok image)
  refused : (m : Malformed) → Sized n (err (elf_malformed m))

Sized-bind :
    (n k : ℕ) (r : Result KernelError Bytes) (f : Bytes → Result KernelError Bytes)
    → Sized n r
    → ((image : Bytes) → length image ≡ n → Sized k (f image))
    → Sized k (r >>= f)
Sized-bind n k r f (sized image e) g = g image e
Sized-bind n k r f (refused m) g = refused m

get_range-length :
    (bytes contents : Bytes) (start end : ℕ)
    → get_range bytes start end ≡ some contents
    → length contents ≡ end - start
get_range-length bytes contents start end h =
    elim (Bool-cases (leb start end && leb end (length bytes))) [
      | inl e ↦
          let same : take (end - start) (drop start bytes) ≡ contents =
            some-injective _ _ (rw e at h) in
          subst (λ t. length t ≡ end - start) same
            (ground (arith, length-take (end - start) (drop start bytes), length-drop start bytes))
      | inr e ↦ absurd (let both : none ≡ some contents = (rw e at h) in cc)
    ]

segment_bytes-length :
    (bytes : Bytes) (p : ProgramHeader) (contents : Bytes)
    → segment_bytes bytes p ≡ some contents
    → length contents ≡ p.p_filesz
segment_bytes-length bytes p contents h = from (checked_add p.p_offset p.p_filesz) refl h
  where
    from :
        (o : Option ℕ)
        → checked_add p.p_offset p.p_filesz ≡ o
        → elim o [ none ↦ none | some end ↦ get_range bytes p.p_offset end ] ≡ some contents
        → length contents ≡ p.p_filesz
    from none e k = absurd (let both : none ≡ some contents = k in cc)
    from (some end) e k = omega (
      arith,
      checked_add-some p.p_offset p.p_filesz e,
      get_range-length bytes contents p.p_offset end k,
    )

module _ (bytes : Bytes) (span : ElfSpan) where
  abbrev size : ℕ
  size = span.max_file_end - span.min_paddr

  copy_segment-Sized :
      (p : ProgramHeader)
      → Holds span p
      → (image : Bytes) → length image ≡ size
      → Sized size (copy_segment bytes span p image)
  unfolding copy_segment
  copy_segment-Sized p h image e =
      let inside : ltb p.p_paddr span.min_paddr ≡ false = ground arith in
      rw inside (from (segment_bytes bytes p) refl)
    where
      from :
          (o : Option Bytes)
          → segment_bytes bytes p ≡ o
          → Sized size (
              ok_or (elf_malformed segment_bounds) o >>= λ contents.
              ok_or panics (splice (p.p_paddr - span.min_paddr) contents image))
      from none k = refused segment_bounds
      from (some contents) k =
          let n = segment_bytes-length bytes p contents k in
          let (out, at, same) =
            splice-fits (p.p_paddr - span.min_paddr) contents image (omega arith) in
          rw at (sized out (omega arith))

  copy_segments-Sized :
      (headers : List ProgramHeader)
      → All (λ p. is_copied p ≡ true → Holds span p) headers
      → (image : Bytes) → length image ≡ size
      → Sized size (copy_segments bytes span headers image)
  unfolding copy_segments
  copy_segments-Sized [] all image e = sized image e
  copy_segments-Sized (p ∷ headers) (h, all) image e =
      Sized-bind size size (if is_copied p then copy_segment bytes span p image else ok image) _
        (elim (Bool-cases (is_copied p)) [
          | inl c ↦ rw c (copy_segment-Sized p (h c) image e)
          | inr c ↦ rw c (sized image e)
        ])
        (λ image' e'. copy_segments-Sized headers all image' e')

-- Each segment that is copied has memory.
unfoldable pub IsBacked : Elf → Type 0
IsBacked elf = All (λ p. is_copied p ≡ true → is_counted p ≡ true) elf.program_headers

-- An image that is loaded: with zeros behind it, it is the flat image, which is as long as the
-- file-backed part of the span.
pub data Loaded (elf : Elf) (bytes : Bytes) : Result KernelError Bytes → Type 0 where
  loaded :
      (span : ElfSpan) (image flat : Bytes)
      → elf_span elf ≡ ok span
      → flat_image elf bytes ≡ ok flat
      → length flat ≡ span.max_file_end - span.min_paddr
      → image ++ replicate (length flat - length image) 0 ≡ flat
      → Loaded elf bytes (ok image)
  malformed : (m : Malformed) → Loaded elf bytes (err (elf_malformed m))

flat_image-malformed :
    (elf : Elf) (bytes : Bytes) (m : Malformed)
    → elf_span elf ≡ err (elf_malformed m)
    → flat_image elf bytes ≡ err (elf_malformed m)
unfolding flat_image
flat_image-malformed elf bytes m e = rw e refl

flat_image-Sized :
    (elf : Elf) (bytes : Bytes) (span : ElfSpan)
    → IsBacked elf
    → elf_span elf ≡ ok span
    → Sized (span.max_file_end - span.min_paddr) (flat_image elf bytes)
unfolding flat_image IsBacked
flat_image-Sized elf bytes span backed e =
    let size' = span.max_file_end - span.min_paddr in
    rw e (
      copy_segments-Sized bytes span elf.program_headers
        (both elf.program_headers backed (elf_span-Holds elf span e)) (replicate size' 0)
        (length-replicate size' 0))
  where
    both :
        (headers : List ProgramHeader)
        → All (λ p. is_copied p ≡ true → is_counted p ≡ true) headers
        → All (λ p. is_counted p ≡ true → Holds span p) headers
        → All (λ p. is_copied p ≡ true → Holds span p) headers
    both [] a b = tt
    both (p ∷ headers) (a, left) (b, right) = (λ c. b (a c), both headers left right)

-- Where each segment that has bytes in the file has memory, the image is loaded without a panic, or
-- the file is reported as malformed: every segment is written within the image, and with zeros
-- behind it the result is the flat image, as long as the file-backed part of the span.
pub elf_load_image-Loaded :
    (r : Reader) (bytes : Bytes) (elf : Elf)
    → r.elf_parse bytes ≡ some elf
    → IsBacked elf
    → Loaded elf bytes (elf_load_image r bytes)
unfolding elf_load_image
elf_load_image-Loaded r bytes elf parsed backed = rw parsed (from (elf_span-Spanned elf) refl)
  where
    trimmed :
        (span : ElfSpan) (m : Result KernelError Bytes)
        → elf_span elf ≡ ok span
        → flat_image elf bytes ≡ m
        → Sized (span.max_file_end - span.min_paddr) m
        → Loaded elf bytes (m >>= λ image. ok (trim image))
    trimmed span m e f (sized flat n) = loaded span (trim flat) flat e f n (trim-padded flat)
    trimmed span m e f (refused x) = malformed x

    from :
        {s : Result KernelError ElfSpan}
        → Spanned s
        → elf_span elf ≡ s
        → Loaded elf bytes (flat_image elf bytes >>= λ image. ok (trim image))
    from (spanned span) e =
        trimmed span (flat_image elf bytes) e refl (flat_image-Sized elf bytes span backed e)
    from (Spanned.refused m) e = rw (flat_image-malformed elf bytes m e) (malformed m)
