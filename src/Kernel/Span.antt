-- ===== src/Kernel/Span.antt =====
-- The format of a kernel, and the span of its segments (src/kernel.rs: parse, elf_span).
use arma.Base.{
  ℕ, ◌+◌, ◌-◌, ◌≤◌, ◌≡◌, inl, inr, sym, ap, ◌∙◌, subst, arith, min, max, Bool, true, false, not,
  ◌&&◌, ◌||◌, Bool-cases, Option, none, some, List, [], ◌∷◌, ltb, leb, ◌==◌, if◌then◌else◌, take,
  drop, length, All, Result, ok, err, ok_or, refuse_if, bind-eq-ok, ok-injective, some_of_ok_or,
  ◌>>=◌, ◌>>◌,
}
use arma.Base.Bits.{u64_max, checked_add, checked_add-some}
use arma.Base.Slice.{from_le}
use arma.Base.Text.{Bytes, bytes_eq}
use arma.Kernel.{
  Arch, x86_64, aarch64, KernelError, too_small, unrecognized, elf_malformed, Malformed,
  entry_out_of_range, parse_failed, not_x86_64, file_end_overflows, mem_end_overflows,
  no_load_segments, ProgramHeader, Elf, Reader, pt_load, elf_magic,
}

pub record ElfSpan : Type 0 where
  pub min_paddr : ℕ
  pub max_file_end : ℕ
  pub max_mem_end : ℕ

pub record ElfMeta : Type 0 where
  pub alloc_size : ℕ
  pub min_paddr : ℕ
  pub entry_offset : ℕ

pub record Parsed : Type 0 where
  pub arch : Arch
  pub aarch64_image_size : Option ℕ
  pub elf : Option ElfMeta

-- A segment that the span counts.
abbrev pub is_counted : ProgramHeader → Bool
is_counted p = not (not (p.p_type == pt_load) || p.p_memsz == 0)

unfoldable pub extend : ProgramHeader → ElfSpan → Result KernelError ElfSpan
extend p span = do
  file_end ← ok_or (elf_malformed file_end_overflows) (checked_add p.p_paddr p.p_filesz)
  mem_end ← ok_or (elf_malformed mem_end_overflows) (checked_add p.p_paddr p.p_memsz)
  ok (record {
    min_paddr = min span.min_paddr p.p_paddr;
    max_file_end = max span.max_file_end file_end;
    max_mem_end = max span.max_mem_end mem_end;
  })

-- The loop over the program headers, with the flag `any`.
unfoldable pub span_of : List ProgramHeader → ElfSpan → Bool → Result KernelError (ElfSpan × Bool)
unfolding extend
span_of [] span any = ok (span, any)
span_of (p ∷ headers) span any = do
  (span', any') ← (if is_counted p then (extend p span >>= λ s. ok (s, true)) else ok (span, any))
  span_of headers span' any'

abbrev pub no_span : ElfSpan
no_span = record { min_paddr = u64_max; max_file_end = 0; max_mem_end = 0 }

unfoldable pub elf_span : Elf → Result KernelError ElfSpan
unfolding span_of
elf_span elf = do
  (span, any) ← span_of elf.program_headers no_span false
  refuse_if (not any) (elf_malformed no_load_segments)
  ok span

-- `checked_sub` and `filter`
abbrev pub entry_in : ElfSpan → ℕ → Option ℕ
entry_in span entry =
    if leb span.min_paddr entry && ltb (entry - span.min_paddr) (span.max_mem_end - span.min_paddr)
    then some (entry - span.min_paddr)
    else none

abbrev pub word : Bytes → ℕ → ℕ → ℕ
word bytes at n = from_le (take n (drop at bytes))

unfoldable pub parse_elf : Elf → Result KernelError Parsed
unfolding elf_span
parse_elf elf = do
  refuse_if (not elf.is_64 || not (elf.e_machine == 62)) (elf_malformed not_x86_64)
  span ← elf_span elf
  entry_offset ← ok_or (entry_out_of_range elf.entry span.min_paddr) (entry_in span elf.entry)
  ok (record {
    arch = x86_64;
    aarch64_image_size = none;
    elf = some (record {
      alloc_size = span.max_mem_end - span.min_paddr;
      min_paddr = span.min_paddr;
      entry_offset = entry_offset;
    });
  })

unfoldable pub parse : Reader → Bytes → Result KernelError Parsed
unfolding parse_elf
parse r bytes = do
  refuse_if (ltb (length bytes) 64) (too_small (length bytes))
  (if bytes_eq (take 4 bytes) elf_magic
      then (do elf ← ok_or (elf_malformed parse_failed) (r.elf_parse bytes); parse_elf elf)
      else if word bytes 56 4 == 0x644D5241
      then ok (record { arch = aarch64; aarch64_image_size = some (word bytes 16 8); elf = none })
      else err unrecognized)

-- The span holds a segment.
pub record Holds (span : ElfSpan) (p : ProgramHeader) : Type 0 where
  pub from : span.min_paddr ≤ p.p_paddr
  pub file : p.p_paddr + p.p_filesz ≤ span.max_file_end
  pub mem : p.p_paddr + p.p_memsz ≤ span.max_mem_end

-- One span lies in another.
pub record Within (a b : ElfSpan) : Type 0 where
  pub lower : b.min_paddr ≤ a.min_paddr
  pub file : a.max_file_end ≤ b.max_file_end
  pub mem : a.max_mem_end ≤ b.max_mem_end

Holds-Within : (a b : ElfSpan) (p : ProgramHeader) → Holds a p → Within a b → Holds b p
Holds-Within a b p h w = record { from = omega arith; file = omega arith; mem = omega arith }

extend-Holds :
    (p : ProgramHeader) (span out : ElfSpan)
    → extend p span ≡ ok out
    → Holds out p × Within span out
unfolding extend
extend-Holds p span out h =
    let (file_end, f, h) =
      bind-eq-ok (ok_or (elf_malformed file_end_overflows) (checked_add p.p_paddr p.p_filesz)) _
        h in
    let (mem_end, m, h) =
      bind-eq-ok (ok_or (elf_malformed mem_end_overflows) (checked_add p.p_paddr p.p_memsz)) _ h in
    let ef = checked_add-some p.p_paddr p.p_filesz (some_of_ok_or _ _ f) in
    let em = checked_add-some p.p_paddr p.p_memsz (some_of_ok_or _ _ m) in
    subst (λ t. Holds t p × Within span t) (ok-injective _ _ h)
      (
        record { from = omega arith; file = omega arith; mem = omega arith },
        record { lower = omega arith; file = omega arith; mem = omega arith },
      )

Within-refl : (a : ElfSpan) → Within a a
Within-refl a = record { lower = omega arith; file = omega arith; mem = omega arith }

Within-trans : (a b c : ElfSpan) → Within a b → Within b c → Within a c
Within-trans a b c v w = record { lower = omega arith; file = omega arith; mem = omega arith }

-- What the loop promises of the headers that are left.
record Spans (headers : List ProgramHeader) (span : ElfSpan) (any : Bool) (out : ElfSpan × Bool)
    : Type 0 where
  grows : Within span (out.0)
  each : All (λ p. is_counted p ≡ true → Holds (out.0) p) headers

span_of-Spans :
    (headers : List ProgramHeader) (span : ElfSpan) (any : Bool) (out : ElfSpan × Bool)
    → span_of headers span any ≡ ok out
    → Spans headers span any out
unfolding span_of
span_of-Spans [] span any out h =
    subst (Spans [] span any) (ok-injective _ _ h) (record { grows = Within-refl span; each = tt })
span_of-Spans (p ∷ headers) span any out h =
    let one = extend p span >>= λ s. ok (s, true) in
    let (mid, e, h) = bind-eq-ok (if is_counted p then one else ok (span, any)) _ h in
    let rest = span_of-Spans headers (mid.0) (mid.1) out h in
    elim (Bool-cases (is_counted p)) [
      | inl c ↦
          let (s, x, k) =
            bind-eq-ok {B = ElfSpan × Bool} (extend p span) (λ s. ok (s, true)) (rw c at e) in
          let (holds, w) = extend-Holds p span s x in
          let same : s ≡ mid.0 = ap (λ t. t.0) (ok-injective _ _ k) in
          record {
            grows = Within-trans span (mid.0) (out.0) (subst (Within span) same w) rest.grows;
            each = (
              λ _. Holds-Within (mid.0) (out.0) p (subst (λ t. Holds t p) same holds) rest.grows,
              rest.each,
            );
          }
      | inr c ↦
          let same : span ≡ mid.0 = ap (λ t. t.0) (ok-injective _ _ (rw c at e)) in
          record {
            grows = subst (λ t. Within t (out.0)) (sym same) rest.grows;
            each = (λ k. absurd (let both : false ≡ true = sym c ∙ k in cc), rest.each);
          }
    ]

-- A span holds each load segment that has memory.
pub elf_span-Holds :
    (elf : Elf) (span : ElfSpan)
    → elf_span elf ≡ ok span
    → All (λ p. is_counted p ≡ true → Holds span p) elf.program_headers
unfolding elf_span
elf_span-Holds elf span h =
    let (found, e, h) = bind-eq-ok (span_of elf.program_headers no_span false) _ h in
    let (_, _, h) = bind-eq-ok (refuse_if (not (found.1)) (elf_malformed no_load_segments)) _ h in
    let all = (span_of-Spans elf.program_headers no_span false found e).each in
    subst (λ t. All (λ p. is_counted p ≡ true → Holds t p) elf.program_headers) (ok-injective _ _ h)
      all

-- The span, or a malformed file.
pub data Spanned {ℓ} {A : Type ℓ} : Result KernelError A → Type ℓ where
  spanned : (span : A) → Spanned (ok span)
  refused : (m : Malformed) → Spanned (err (elf_malformed m))

Spanned-bind {ℓ κ} :
    {A : Type ℓ} {B : Type κ} (r : Result KernelError A) (f : A → Result KernelError B)
    → Spanned r
    → ((a : A) → Spanned (f a))
    → Spanned (r >>= f)
Spanned-bind r f (spanned a) g = g a
Spanned-bind r f (refused m) g = refused m

Spanned-ok_or {ℓ} :
    {A : Type ℓ} (m : Malformed) (o : Option A) → Spanned (ok_or (elf_malformed m) o)
Spanned-ok_or m none = refused m
Spanned-ok_or m (some a) = spanned a

Spanned-if {ℓ} :
    {A : Type ℓ} (b : Bool) {x y : Result KernelError A}
    → Spanned x
    → Spanned y
    → Spanned (if b then x else y)
Spanned-if true c d = c
Spanned-if false c d = d

Spanned-unless {ℓ} :
    {A : Type ℓ} (b : Bool) (m : Malformed) (r : Result KernelError A)
    → Spanned r
    → Spanned (refuse_if b (elf_malformed m) >> r)
Spanned-unless true m r s = refused m
Spanned-unless false m r s = s

ruleset spans = (Spanned-bind, Spanned-ok_or, Spanned-if, Spanned-unless, spanned, refused)

extend-Spanned : (p : ProgramHeader) (span : ElfSpan) → Spanned (extend p span)
unfolding extend
extend-Spanned p span = search (spans)

span_of-Spanned :
    (headers : List ProgramHeader) (span : ElfSpan) (any : Bool)
    → Spanned (span_of headers span any)
unfolding span_of
span_of-Spanned [] span any = spanned (span, any)
span_of-Spanned (p ∷ headers) span any = search (spans, extend-Spanned, span_of-Spanned headers)

pub elf_span-Spanned : (elf : Elf) → Spanned (elf_span elf)
unfolding elf_span
elf_span-Spanned elf = search (spans, span_of-Spanned)
