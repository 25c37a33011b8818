-- ===== src/Cpio/Scan.antt =====
-- The check of an archive ends (src/initrd.rs: validate_cpio).
use arma.Base.{
  ℕ, zero, suc, ◌+◌, ◌*◌, ◌/◌, ◌^◌, ◌≤◌, ◌<◌, ◌≡◌, inl, inr, refl, sym, ap, ◌∙◌, subst, arith, Bool,
  true, false, not, ◌&&◌, ◌||◌, Bool-cases, some, [], ◌∷◌, ◌++◌, ltb, ltb→lt, leb, leb→le, ◌==◌,
  take, drop, length, Result, ok, err, refuse_if, bind-eq-ok, ok-injective,
}
use arma.Base.Bits.{u64_mod, and_not-pow}
use arma.Base.Slice.{length-drop}
use arma.Base.Text.{Bytes, codes, bytes_eq}
use arma.Cpio.{
  Error, malformed, newc_magic, add, round4, parse_fields, nth_field, get_to, get_from, bad_name,
  record_end, next_record, is_empty, drop_while, skip_padding, Onward, verdict, continues,
  behind_record, scan_records, validate_cpio,
}

pub add-ok : (a b c : ℕ) → add a b ≡ ok c → (c ≡ a + b) × (a + b < 2 ^ 64)
add-ok a b c h = elim (Bool-cases (ltb (a + b) u64_mod)) [
  | inl e ↦ (sym (ok-injective _ _ (rw e at h)), ltb→lt (a + b) u64_mod e)
  | inr e ↦ cc (rw e at h)
]

pub round4-ok : (n m : ℕ) → round4 n ≡ ok m → m ≡ (n + 3) / 4 * 4
round4-ok n m h =
    let (k, e, h') = bind-eq-ok (add n 3) _ h in
    let (same, fits) = add-ok n 3 k e in
    let word : k < 2 ^ 64 = omega arith in
    sym (ok-injective _ _ h')
    ∙ and_not-pow 64 2 k (omega arith) word
    ∙ ap (λ (t : ℕ). t / 4 * 4) same

get_from-shorter :
    (n : ℕ) (bytes rest : Bytes) → 0 < n → get_from n bytes ≡ ok rest → length rest < length bytes
get_from-shorter n bytes rest pos h = elim (Bool-cases (leb n (length bytes))) [
  | inl e ↦
      let inside = leb→le n (length bytes) e in
      subst (λ t. length t < length bytes) (ok-injective _ _ (rw e at h))
        (omega (arith, length-drop n bytes))
  | inr e ↦ cc (rw e at h)
]

record_end-le : (name_end size next : ℕ) → record_end name_end size ≡ ok next → name_end ≤ next
unfolding record_end
record_end-le name_end size next h =
    let (start, e0, h) = bind-eq-ok (round4 name_end) _ h in
    let (end, e1, h) = bind-eq-ok (add start size) _ h in
    let a = round4-ok name_end start e0 in
    let (b, _) = add-ok start size end e1 in let c = round4-ok end next h in omega arith

-- A record takes bytes.
next_record-shorter :
    (bytes : Bytes) (t : Bytes × Bool) → next_record bytes ≡ ok t → length t.0 < length bytes
unfolding next_record
next_record-shorter bytes t h =
    let (header, _, h) = bind-eq-ok (get_to 110 bytes) _ h in
    let (_, _, h) =
      bind-eq-ok (refuse_if (not (bytes_eq (take 6 header) newc_magic)) malformed) _ h in
    let (fields, _, h) = bind-eq-ok (parse_fields 13 (drop 6 header)) _ h in
    let (name_end, e0, h) = bind-eq-ok (add 110 (nth_field 11 fields)) _ h in
    let (up_to_name, _, h) = bind-eq-ok (get_to name_end bytes) _ h in
    let (_, _, h) =
      bind-eq-ok
        (refuse_if (bad_name (drop 110 up_to_name) || not (nth_field 12 fields == 0)) malformed) _
        h in
    let (next, e1, h) = bind-eq-ok (record_end name_end (nth_field 6 fields)) _ h in
    let (rest, e2, h) = bind-eq-ok (get_from next bytes) _ h in
    let (_, _, h) =
      bind-eq-ok
        (refuse_if
          (bytes_eq (drop 110 up_to_name) (codes "TRAILER!!!" ++ 0 ∷ [])
            && not (nth_field 6 fields == 0))
          malformed)
        _ h in
    let (a, _) = add-ok 110 (nth_field 11 fields) name_end e0 in
    let b = record_end-le name_end (nth_field 6 fields) next e1 in
    subst (λ (t : Bytes × Bool). length t.0 < length bytes) (ok-injective _ _ h)
      (get_from-shorter next bytes rest (omega arith) e2)

drop_while-le : (c : ℕ) (bytes : Bytes) → length (drop_while c bytes) ≤ length bytes
drop_while-le c [] = omega arith
drop_while-le c (x ∷ xs) = elim (Bool-cases (x == c)) [
  | inl e ↦ rw e (omega (arith, drop_while-le c xs))
  | inr e ↦ rw e (omega arith)
]

-- What is left to scan is shorter than `n`.
Shorter : Onward → ℕ → Type 0
Shorter (verdict b) n = Unit
Shorter (continues rest) n = length rest < n

behind_record-Shorter :
    (bytes : Bytes) (r : Result Error (Bytes × Bool))
    → next_record bytes ≡ r
    → Shorter (behind_record r) (length bytes)
unfolding behind_record Shorter
behind_record-Shorter bytes (err e) h = tt
behind_record-Shorter bytes (ok (rest, false)) h = next_record-shorter bytes (rest, false) h
behind_record-Shorter bytes (ok (rest, true)) h = elim (Bool-cases (is_empty (skip_padding rest))) [
  | inl e ↦ rw e tt
  | inr e ↦ rw e (omega (arith, next_record-shorter bytes (rest, true) h, drop_while-le 0 rest))
]

scan_from :
    (fuel : ℕ) (bytes : Bytes) (t : Onward)
    → ((rest : Bytes) → length rest < fuel → (b : Bool) × (scan_records fuel rest ≡ some b))
    → behind_record (next_record bytes) ≡ t
    → Shorter t (length bytes)
    → length bytes < suc fuel
    → (b : Bool) × (scan_records (suc fuel) bytes ≡ some b)
unfolding scan_records Shorter
scan_from fuel bytes (verdict b) ih e s h = (b, rw (scan_records, e) refl)
scan_from fuel bytes (continues rest) ih e s h =
    let (b, done) = ih rest (omega arith) in (b, rw (scan_records, e) done)

-- One record more than the archive has bytes is enough.
scan_records-end :
    (fuel : ℕ) (bytes : Bytes)
    → length bytes < fuel
    → (b : Bool) × (scan_records fuel bytes ≡ some b)
scan_records-end zero bytes h = absurd (omega arith)
scan_records-end (suc fuel) bytes h =
    scan_from fuel bytes (behind_record (next_record bytes)) (scan_records-end fuel) refl
      (behind_record-Shorter bytes (next_record bytes) refl) h

-- The check of an archive ends with a verdict on every byte string.
pub validate_cpio_ends : (bytes : Bytes) → (b : Bool) × (validate_cpio bytes ≡ some b)
unfolding validate_cpio
validate_cpio_ends bytes = scan_records-end (suc (length bytes)) bytes (omega arith)
