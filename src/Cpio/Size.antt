-- ===== src/Cpio/Size.antt =====
-- The size that is checked is the size that is written (src/initrd.rs: checked_entry_size,
-- cpio_entry).
use arma.Base.{
  ℕ, zero, suc, ◌+◌, ◌-◌, ◌*◌, ◌/◌, ◌%◌, ◌^◌, ◌<◌, ◌≡◌, inl, inr, refl, sym, ap, ◌∙◌, subst, arith,
  Bool, Bool-cases, ==_iff, Option, [], ◌∷◌, ◌++◌, ltb, ltb→lt, lt→ltb, ◌==◌, if◌then◌else◌,
  replicate, length, length-append, length-replicate, ok, refuse_if, bind-eq-ok, ok-injective,
}
use arma.Base.Text.{Bytes}
use arma.Cpio.{
  archive_too_large, hex_fixed, hex_digit, hex08, padding, pad4, rdev_of, entry_header, cpio_entry,
  add, round4, fits_u32, checked_entry_size,
}
use arma.Cpio.Scan.{add-ok, round4-ok}

length-hex_fixed : (n v : ℕ) → length (hex_fixed n v) ≡ n
length-hex_fixed zero v = refl
length-hex_fixed (suc n) v = omega (
  arith,
  length-append (hex_fixed n (v / 16)) (hex_digit (v % 16) ∷ []),
  length-hex_fixed n (v / 16),
)

length-hex08 : (v : ℕ) → v < 2 ^ 32 → length (hex08 v) ≡ 8
unfolding hex08
length-hex08 v h = let small = lt→ltb v (2 ^ 32) h in rw small (length-hex_fixed 8 v)

length-pad4 : (out : Bytes) → length (pad4 out) ≡ (length out + 3) / 4 * 4
length-pad4 out = elim (Bool-cases (length out % 4 == 0)) [
  | inl e ↦
      let whole = (==_iff (length out % 4) 0).0 e in
      omega (
        arith,
        length-append out (padding (length out)),
        ap (λ (b : Bool). length (replicate {A = ℕ} (if b then 0 else 4 - length out % 4) 0)) e,
      )
  | inr e ↦
      let part : 0 < length out % 4 = ground arith in
      omega (
        arith,
        length-append out (padding (length out)),
        ap (λ (b : Bool). length (replicate {A = ℕ} (if b then 0 else 4 - length out % 4) 0)) e,
        length-replicate {A = ℕ} (4 - length out % 4) 0,
      )
]

-- The numbers that an entry is given are u32s.
pub record IsEntry (ino mode nlink : ℕ) (rdev : Option (ℕ × ℕ)) : Type 0 where
  pub ino_fits : ino < 2 ^ 32
  pub mode_fits : mode < 2 ^ 32
  pub nlink_fits : nlink < 2 ^ 32
  pub major_fits : (rdev_of rdev).0 < 2 ^ 32
  pub minor_fits : (rdev_of rdev).1 < 2 ^ 32

length-field :
    (v : ℕ) (rest : Bytes) (n : ℕ) → v < 2 ^ 32 → length rest ≡ n → length (hex08 v ++ rest) ≡ 8 + n
length-field v rest n h e = omega (arith, length-append (hex08 v) rest, length-hex08 v h)

length-entry_header :
    (ino mode nlink filesize : ℕ) (rdev : Option (ℕ × ℕ)) (namesize : ℕ)
    → IsEntry ino mode nlink rdev
    → filesize < 2 ^ 32
    → namesize < 2 ^ 32
    → length (entry_header ino mode nlink filesize (rdev_of rdev) namesize) ≡ 110
unfolding entry_header
length-entry_header ino mode nlink filesize rdev namesize h f n =
    let z : 0 < 2 ^ 32 = omega arith in
    let t0 : length (hex08 0) ≡ 8 = length-hex08 0 z in
    let t1 = length-field namesize _ 8 n t0 in
    let t2 = length-field (rdev_of rdev).1 _ 16 h.minor_fits t1 in
    let t3 = length-field (rdev_of rdev).0 _ 24 h.major_fits t2 in
    let t4 = length-field 0 _ 32 z t3 in
    let t5 = length-field 0 _ 40 z t4 in
    let t6 = length-field filesize _ 48 f t5 in
    let t7 = length-field 0 _ 56 z t6 in
    let t8 = length-field nlink _ 64 h.nlink_fits t7 in
    let t9 = length-field 0 _ 72 z t8 in
    let t10 = length-field 0 _ 80 z t9 in
    let t11 = length-field mode _ 88 h.mode_fits t10 in
    let t12 = length-field ino _ 96 h.ino_fits t11 in omega (arith, t12)

fits_u32-ok : (n : ℕ) {u : Unit {0}} → fits_u32 n ≡ ok u → n < 2 ^ 32
fits_u32-ok n h = elim (Bool-cases (ltb n (2 ^ 32))) [
  | inl e ↦ ltb→lt n (2 ^ 32) e
  | inr e ↦ cc (rw e at h)
]

-- Where the size of an entry is accepted, writing the entry makes the archive longer by exactly
-- that size, and the archive ends on a multiple of four.
pub checked_entry_size_exact :
    (out : Bytes) (ino mode nlink : ℕ) (name contents : Bytes) (rdev : Option (ℕ × ℕ)) (n : ℕ)
    → IsEntry ino mode nlink rdev
    → checked_entry_size (length out) (length name) (length contents) ≡ ok n
    → (length (cpio_entry out ino mode nlink name contents rdev) ≡ length out + n)
      × (length (cpio_entry out ino mode nlink name contents rdev) % 4 ≡ 0)
unfolding checked_entry_size cpio_entry
checked_entry_size_exact out ino mode nlink name contents rdev n entry h =
    let header = entry_header ino mode nlink (length contents) (rdev_of rdev) (length name + 1) in
    let (namesize, e0, h) = bind-eq-ok (add (length name) 1) _ h in
    let (_, e1, h) = bind-eq-ok (fits_u32 namesize) _ h in
    let (_, e2, h) = bind-eq-ok (fits_u32 (length contents)) _ h in
    let (a, e3, h) = bind-eq-ok (add (length out) 110) _ h in
    let (b, e4, h) = bind-eq-ok (add a namesize) _ h in
    let (c, e5, h) = bind-eq-ok (round4 b) _ h in
    let (d, e6, h) = bind-eq-ok (add c (length contents)) _ h in
    let (end, e7, h) = bind-eq-ok (round4 d) _ h in
    let (_, _, h) = bind-eq-ok (refuse_if (ltb end (length out)) archive_too_large) _ h in
    let difference : end - length out ≡ n = ok-injective _ _ h in
    let (s0, _) = add-ok (length name) 1 namesize e0 in
    let (s3, _) = add-ok (length out) 110 a e3 in
    let (s4, _) = add-ok a namesize b e4 in
    let s5 = round4-ok b c e5 in
    let (s6, _) = add-ok c (length contents) d e6 in
    let s7 = round4-ok d end e7 in
    let wide : length header ≡ 110 =
      length-entry_header ino mode nlink (length contents) rdev (length name + 1) entry
        (fits_u32-ok (length contents) e2)
        (subst (λ (t : ℕ). t < 2 ^ 32) s0 (fits_u32-ok namesize e1)) in
    let front = out ++ (header ++ (name ++ 0 ∷ [])) in
    let f : length front ≡ b = omega (
      arith,
      length-append out (header ++ (name ++ 0 ∷ [])),
      length-append header (name ++ 0 ∷ []),
      length-append name (0 ∷ []),
    ) in
    let g : length (pad4 front) ≡ c = length-pad4 front ∙ rw f (sym s5) in
    let whole = length-pad4 (pad4 front ++ contents) in
    let sum = length-append (pad4 front) contents in
    let total : length (pad4 (pad4 front ++ contents)) ≡ end = whole ∙ rw (sum, g) (omega arith) in
    (total ∙ omega arith, rw total (omega arith))
