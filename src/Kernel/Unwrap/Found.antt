-- ===== src/Kernel/Unwrap/Found.antt =====
-- The first kernel inside a bzImage, described by its bytes alone (src/kernel.rs: extract_vmlinux,
-- scan_decompress).
use arma.Base.{
  ℕ, suc, ◌≤◌, ◌≡◌, inl, inr, refl, sym, ap, subst, ◌∙◌, arith, Bool, true, false, Bool-cases, ◌&&◌,
  Option, none, some, [], ◌∷◌, ◌++◌, leb, take, drop, take-append-drop, length, Result, ok, err,
  ok_or, ◌>>=◌,
}
use mathlib.Core.Option.{some-injective}
use arma.Base.Text.{
  Bytes, codes, bytes_eq, bytes_eq_sound, strip_prefix, strip_prefix-append, strip_prefix_lem,
}
use arma.Kernel.{KernelError, Reader, no_vmlinux, elf_magic}
use arma.Kernel.Unwrap.{
  has_magic, accepted, is_bzimage, gzip_magic, zstd_magic, or_zstd, extract_vmlinux,
}
use arma.Kernel.Unwrap.Scan.{chosen, first_kernel, scan_decompress-first}

-- From this place on, the bytes are a compressed kernel: they start with the magic and unpack to
-- `out`, which starts with the bytes 0x7f, E, L and F.
abbrev pub HoldsKernel : Bytes → (Bytes → Option Bytes) → Bytes → Bytes → Type 0
HoldsKernel magic decompress at out =
    ((tail : Bytes) × (at ≡ magic ++ tail))
    × (decompress at ≡ some out)
    × ((body : Bytes) × (out ≡ 0x7f ∷ (codes "ELF" ++ body)))

-- No place of the input is a compressed kernel.
abbrev pub NoKernel : Bytes → (Bytes → Option Bytes) → Bytes → Type 0
NoKernel magic decompress input =
    (pre at out : Bytes) → input ≡ pre ++ at → ¬ HoldsKernel magic decompress at out

-- `out` is the kernel of the first place that is one.
abbrev pub FirstKernel : Bytes → (Bytes → Option Bytes) → Bytes → Bytes → Type 0
FirstKernel magic decompress input out =
    (pre : Bytes) × (at : Bytes) × (input ≡ pre ++ at)
    × HoldsKernel magic decompress at out
    × ((pre' at' out' : Bytes)
        → input ≡ pre' ++ at'
        → HoldsKernel magic decompress at' out'
        → length pre ≤ length pre')

-- What a scan of the input should give.
abbrev Scanned : Bytes → (Bytes → Option Bytes) → Bytes → Option Bytes → Type 0
Scanned magic decompress input none = NoKernel magic decompress input
Scanned magic decompress input (some out) = FirstKernel magic decompress input out

tails : (x y : ℕ) (xs ys : Bytes) → x ∷ xs ≡ y ∷ ys → xs ≡ ys
tails x y xs ys e = cc

accepted-elf :
    (o : Option Bytes) (out : Bytes)
    → accepted o ≡ some out
    → (o ≡ some out) × ((body : Bytes) × (out ≡ 0x7f ∷ (codes "ELF" ++ body)))
unfolding accepted
accepted-elf none out h = cc
accepted-elf (some x) out h =
    elim (Bool-cases (leb 4 (length x) && bytes_eq (take 4 x) elf_magic)) [
      | inl e ↦
          let same : x ≡ out = some-injective _ _ (rw e at h) in
          let front = bytes_eq_sound (take 4 x) elf_magic (ground (arith, e)) in
          (
            ap some same,
            (drop 4 x, sym same ∙ sym (take-append-drop 4 x) ∙ ap (λ t. t ++ drop 4 x) front),
          )
      | inr e ↦ cc (rw e at h)
    ]

elf-accepted :
    (body : Bytes)
    → accepted (some (0x7f ∷ (codes "ELF" ++ body))) ≡ some (0x7f ∷ (codes "ELF" ++ body))
unfolding accepted
elf-accepted body =
    let room : leb 4 (length (0x7f ∷ (codes "ELF" ++ body))) ≡ true = ground arith in rw room refl

module _ (m : ℕ) (ms : Bytes) (decompress : Bytes → Option Bytes) where
  -- A place that the code takes is a compressed kernel.
  HoldsKernel-of :
      (at out : Bytes)
      → has_magic (m ∷ ms) at ≡ true
      → accepted (decompress at) ≡ some out
      → HoldsKernel (m ∷ ms) decompress at out
  unfolding has_magic
  HoldsKernel-of at out h k = go (strip_prefix (m ∷ ms) at) refl h
    where
      go :
          (o : Option Bytes)
          → strip_prefix (m ∷ ms) at ≡ o
          → (elim o [ none ↦ false | some rest ↦ true ]) ≡ true
          → HoldsKernel (m ∷ ms) decompress at out
      go none e g = cc
      go (some rest) e g =
          let (unpacked, elf) = accepted-elf (decompress at) out k in
          ((rest, strip_prefix-append (m ∷ ms) at rest e), unpacked, elf)

  -- The code takes every compressed kernel.
  HoldsKernel-taken :
      (at out : Bytes)
      → HoldsKernel (m ∷ ms) decompress at out
      → (has_magic (m ∷ ms) at ≡ true) × (accepted (decompress at) ≡ some out)
  unfolding has_magic
  HoldsKernel-taken at out ((tail, e), unpacked, (body, elf)) = (
    rw (has_magic, e, strip_prefix_lem (m ∷ ms) tail) refl,
    rw (unpacked, elf) (elf-accepted body),
  )

  -- The kernel of a longer input.
  Scanned-here :
      (at out : Bytes)
      → HoldsKernel (m ∷ ms) decompress at out
      → FirstKernel (m ∷ ms) decompress at out
  Scanned-here at out h = ([], at, refl, h, λ pre' at' out' e k. omega arith)

  Scanned-onward :
      (b : ℕ) (bs : Bytes) (o : Option Bytes)
      → ((out : Bytes) → ¬ HoldsKernel (m ∷ ms) decompress (b ∷ bs) out)
      → Scanned (m ∷ ms) decompress bs o
      → Scanned (m ∷ ms) decompress (b ∷ bs) o
  Scanned-onward b bs none here s = away
    where
      away : NoKernel (m ∷ ms) decompress (b ∷ bs)
      away [] at out e k = here out (subst (λ t. HoldsKernel (m ∷ ms) decompress t out) (sym e) k)
      away (x ∷ pre) at out e k = s pre at out (tails _ _ _ _ e) k
  Scanned-onward b bs (some out) here (pre, at, e, k, least) =
      (b ∷ pre, at, ap (λ t. b ∷ t) e, k, later)
    where
      later :
          (pre' at' out' : Bytes)
          → b ∷ bs ≡ pre' ++ at'
          → HoldsKernel (m ∷ ms) decompress at' out'
          → suc (length pre) ≤ length pre'
      later [] at' out' e' k' =
          absurd (here out' (subst (λ t. HoldsKernel (m ∷ ms) decompress t out') (sym e') k'))
      later (x ∷ pre') at' out' e' k' = omega (arith, least pre' at' out' (tails _ _ _ _ e') k')

  first_kernel-Scanned :
      (input : Bytes) → Scanned (m ∷ ms) decompress input (first_kernel (m ∷ ms) decompress input)
  unfolding first_kernel
  first_kernel-Scanned [] = away
    where
      away : NoKernel (m ∷ ms) decompress []
      away [] at out e ((tail, f), k, l) = cc
      away (x ∷ pre) at out e k = cc
  first_kernel-Scanned (b ∷ bs) =
      step (has_magic (m ∷ ms) (b ∷ bs)) (accepted (decompress (b ∷ bs))) refl refl
        (first_kernel-Scanned bs)
    where
      step :
          (t : Bool) (o : Option Bytes)
          → has_magic (m ∷ ms) (b ∷ bs) ≡ t
          → accepted (decompress (b ∷ bs)) ≡ o
          → Scanned (m ∷ ms) decompress bs (first_kernel (m ∷ ms) decompress bs)
          → Scanned (m ∷ ms) decompress (b ∷ bs) (chosen t o (first_kernel (m ∷ ms) decompress bs))
      step true (some out) h k s = Scanned-here (b ∷ bs) out (HoldsKernel-of (b ∷ bs) out h k)
      step true none h k s =
          Scanned-onward b bs (first_kernel (m ∷ ms) decompress bs)
            (λ out l. let g = (HoldsKernel-taken (b ∷ bs) out l).1 in cc) s
      step false o h k s =
          Scanned-onward b bs (first_kernel (m ∷ ms) decompress bs)
            (λ out l. let g = (HoldsKernel-taken (b ∷ bs) out l).0 in cc) s

-- What the extraction may give.
pub data Extracted (r : Reader) (input : Bytes) (result : Result KernelError Bytes) : Type 0 where
  untouched : is_bzimage input ≡ false → result ≡ ok input → Extracted r input result
  gzipped :
      (out : Bytes)
      → is_bzimage input ≡ true
      → FirstKernel gzip_magic r.gzip input out
      → result ≡ ok out
      → Extracted r input result
  zstd_compressed :
      (out : Bytes)
      → is_bzimage input ≡ true
      → NoKernel gzip_magic r.gzip input
      → FirstKernel zstd_magic r.zstd input out
      → result ≡ ok out
      → Extracted r input result
  without_kernel :
      is_bzimage input ≡ true
      → NoKernel gzip_magic r.gzip input
      → NoKernel zstd_magic r.zstd input
      → result ≡ err no_vmlinux
      → Extracted r input result

zstd-Extracted :
    (r : Reader) (input : Bytes)
    → is_bzimage input ≡ true
    → NoKernel gzip_magic r.gzip input
    → Extracted r input (or_zstd r input none)
unfolding or_zstd
zstd-Extracted r input big away =
    subst (λ t. Extracted r input (t >>= ok_or no_vmlinux))
      (sym (scan_decompress-first zstd_magic r.zstd input))
      (last (first_kernel zstd_magic r.zstd input) (first_kernel-Scanned _ _ r.zstd input))
  where
    last :
        (o : Option Bytes)
        → Scanned zstd_magic r.zstd input o
        → Extracted r input (ok_or no_vmlinux o)
    last none s = without_kernel big away s refl
    last (some out) s = zstd_compressed out big away s refl

-- An input that is no bzImage stays as it is. A bzImage gives the unpacked bytes of its first place,
-- among all of its bytes, that starts with the gzip magic and unpacks to bytes that start as an
-- ELF file; if there is none, of the first such place with the zstd magic; and if there is none of
-- these either, the error for an image without a kernel. The scans end.
pub extract_vmlinux-Extracted :
    (r : Reader) (input : Bytes) → Extracted r input (extract_vmlinux r input)
unfolding extract_vmlinux or_zstd
extract_vmlinux-Extracted r input = elim (Bool-cases (is_bzimage input)) [
  | inl big ↦ rw big (
      subst (λ t. Extracted r input (t >>= or_zstd r input))
        (sym (scan_decompress-first gzip_magic r.gzip input))
        (either big (first_kernel gzip_magic r.gzip input) (first_kernel-Scanned _ _ r.gzip input)))
  | inr small ↦ rw small (untouched small refl)
]
  where
    either :
        is_bzimage input ≡ true
        → (o : Option Bytes) → Scanned gzip_magic r.gzip input o
        → Extracted r input (or_zstd r input o)
    either big none s = zstd-Extracted r input big s
    either big (some out) s = gzipped out big s refl
