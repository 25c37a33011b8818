-- ===== src/Acpi/Aml/Appends.antt =====
-- The writers append what they stand for (src/emit/aml.rs).
use arma.Base.{
  ℕ, ◌+◌, ◌*◌, ◌%◌, ◌≤◌, ◌<◌, ◌≡◌, refl, ap, subst, arith, Bool, true, false, [], ◌∷◌, ◌++◌, ltb,
  take, drop, length, length-append, length-take, take-append-drop, bind_of, some, ok, ok_or,
  refuse_if, ◌>>=◌, ◌>>◌,
}
use mathlib.Core.List.{append_assoc}
use arma.Base.Bits.{u64_mod}
use arma.Base.Slice.{splice, splice-append, length-drop}
use arma.Base.Text.{Bytes}
use arma.Acpi.{DtbError, internal, add}
use arma.Acpi.Aml.{Written, write_bytes, pkg_bytes, write_pkg_length, write_byte_buffer}

-- A slot whose bytes behind `pre` are free: the writer puts `bs` there and moves behind it.
pub record Appended (pre room bs : Bytes) (r : Written) : Type 0 where
  pub rest : Bytes
  pub left : length rest + length bs ≡ length room
  pub result : r ≡ ok ((pre ++ bs) ++ rest, length (pre ++ bs))

-- The writer appends to every slot with room.
pub record Appends (w : Bytes → ℕ → Written) (bs : Bytes) : Type 0 where
  pub runs :
      (pre room : Bytes)
      → length bs ≤ length room
      → length pre + length room < u64_mod
      → Appended pre room bs (w (pre ++ room) (length pre))

write_bytes-Appends : (bs : Bytes) → Appends (λ s p. write_bytes s p bs) bs
unfolding write_bytes
write_bytes-Appends bs = record { runs = runs }
  where
    runs :
        (pre room : Bytes)
        → length bs ≤ length room
        → length pre + length room < u64_mod
        → Appended pre room bs (write_bytes (pre ++ room) (length pre) bs)
    runs pre room fits small =
        let n = length bs in
        let rest = drop n room in
        let sum : add (length pre) n ≡ ok (length pre + n) =
          let e : ltb (length pre + n) u64_mod ≡ true = ground arith in rw e refl in
        let whole : take n room ++ rest ≡ room = take-append-drop n room in
        let put : splice (length pre) bs (pre ++ room) ≡ some (pre ++ (bs ++ rest)) =
          subst (λ t. splice (length pre) bs (pre ++ t) ≡ some (pre ++ (bs ++ rest))) whole
            (splice-append pre (take n room) bs rest (omega (arith, length-take n room))) in
        record {
          rest = rest;
          left = omega (arith, length-drop n room);
          result =
              bind_of (add (length pre) n)
                (λ end. ok_or internal (splice (length pre) bs (pre ++ room)) >>= λ slot'.
                  ok (slot', end))
                sum
                (bind_of (ok_or internal (splice (length pre) bs (pre ++ room)))
                  (λ slot'. ok (slot', length pre + n)) (ap (ok_or internal) put)
                  (rw (append_assoc pre bs rest, length-append pre bs) refl));
        }

-- One writer behind another.
Appends-then :
    (w g : Bytes → ℕ → Written) (a b : Bytes)
    → Appends w a
    → Appends g b
    → Appends (λ s p. w s p >>= λ (r : Bytes × ℕ). g (r.0) (r.1)) (a ++ b)
Appends-then w g a b wa gb = record { runs = runs }
  where
    runs :
        (pre room : Bytes)
        → length (a ++ b) ≤ length room
        → length pre + length room < u64_mod
        → Appended pre room
            (a ++ b)
            (w (pre ++ room) (length pre) >>= λ (r : Bytes × ℕ). g (r.0) (r.1))
    runs pre room fits small =
        let first = wa.runs pre room (omega (arith, length-append a b)) small in
        let l = first.left in
        let second =
          gb.runs (pre ++ a) first.rest (omega (arith, length-append a b))
            (omega (arith, length-append pre a)) in
        let m = second.left in
        let same : (pre ++ a) ++ b ≡ pre ++ (a ++ b) = append_assoc pre a b in
        record {
          rest = second.rest;
          left = omega (arith, length-append a b);
          result =
              bind_of (w (pre ++ room) (length pre)) (λ (r : Bytes × ℕ). g (r.0) (r.1)) first.result
                (subst
                  (λ t.
                    g ((pre ++ a) ++ first.rest) (length (pre ++ a))
                    ≡ ok (t ++ second.rest, length t))
                  same second.result);
        }

Appends-unless :
    (b : Bool) (e : DtbError) (w : Bytes → ℕ → Written) (bs : Bytes)
    → b ≡ false
    → Appends w bs
    → Appends (λ s p. refuse_if b e >> w s p) bs
Appends-unless true e w bs h a = absurd (let both : true ≡ false = h in cc)
Appends-unless false e w bs h a = a

write_pkg_length-Appends :
    (value : ℕ) → value ≤ 0xFFF → Appends (λ s p. write_pkg_length s p value) (pkg_bytes value)
unfolding write_pkg_length
write_pkg_length-Appends value h =
    Appends-unless (ltb 0xFFF value) internal _ (pkg_bytes value) (ground arith)
      (write_bytes-Appends (pkg_bytes value))

-- The value of a package length of two bytes.
abbrev pub pkg_value : Bytes → ℕ
pkg_value [] = 0
pkg_value (b ∷ []) = 0
pkg_value (b ∷ c ∷ bs) = b % 16 + 16 * c

-- A buffer of at most 255 bytes is written at the position, wherever the slot has room, as its
-- operator, its package length, its size and its bytes; the package length counts all bytes behind
-- the operator, and is read back as that count.
pub write_byte_buffer-Appends :
    (bytes : Bytes)
    → length bytes ≤ 255
    → Appends
        (λ s p. write_byte_buffer s p bytes)
        ((0x11 ∷ []) ++ (pkg_bytes (4 + length bytes) ++ ((0x0A ∷ length bytes ∷ []) ++ bytes)))
      × (pkg_value (pkg_bytes (4 + length bytes))
          ≡ length (pkg_bytes (4 + length bytes) ++ ((0x0A ∷ length bytes ∷ []) ++ bytes)))
unfolding write_byte_buffer
write_byte_buffer-Appends bytes h =
    let sum : add 4 (length bytes) ≡ ok (4 + length bytes) =
      let e : ltb (4 + length bytes) u64_mod ≡ true = ground arith in rw e refl in
    (
      Appends-unless (ltb 255 (length bytes)) internal _ _ (ground arith) (
          Appends-then _ _ _ _ (write_bytes-Appends (0x11 ∷ [])) (
            rw sum (
              Appends-then _ _ _ _ (write_pkg_length-Appends (4 + length bytes) (omega arith)) (
                Appends-then _ _ _ _ (write_bytes-Appends (0x0A ∷ length bytes ∷ []))
                  (write_bytes-Appends bytes))))),
      omega arith,
    )
