-- ===== src/Cpio.antt =====
-- The newc archive (src/initrd.rs: cpio_entry, wrap_as_cpio, checked_entry_size, checked_entry,
-- validate_cpio, skip_padding).
pub mod Size
pub mod Scan
mod Tests
use arma.Base.{
  ℕ, zero, suc, ◌+◌, ◌-◌, ◌*◌, ◌/◌, ◌%◌, ◌^◌, Bool, true, false, not, ◌&&◌, ◌||◌, Option, none,
  some, List, [], ◌∷◌, ◌++◌, ltb, leb, ◌==◌, if◌then◌else◌, take, drop, replicate, length, Result,
  ok, err, ok_or, refuse_if, ◌>>=◌, ◌>>◌,
}
use arma.Base.Bits.{checked_add, and_not}
use arma.Base.Text.{Bytes, codes, bytes_eq, contains}

abbrev pub newc_magic : Bytes
newc_magic = codes "070701"

abbrev pub elf_magic : Bytes
elf_magic = 0x7F ∷ codes "ELF"

unfoldable pub is_cpio : Bytes → Bool
is_cpio bytes =
    leb (length newc_magic) (length bytes) && bytes_eq (take (length newc_magic) bytes) newc_magic

unfoldable pub is_elf : Bytes → Bool
is_elf bytes =
    leb (length elf_magic) (length bytes) && bytes_eq (take (length elf_magic) bytes) elf_magic

abbrev pub hex_digit : ℕ → ℕ
hex_digit d = if ltb d 10 then b'0' + d else b'A' + (d - 10)

abbrev pub hex_fixed : ℕ → ℕ → Bytes
hex_fixed zero v = []
hex_fixed (suc n) v = hex_fixed n (v / 16) ++ hex_digit (v % 16) ∷ []

-- Leading characters `c` dropped.
abbrev pub drop_while : ℕ → Bytes → Bytes
drop_while c [] = []
drop_while c (x ∷ xs) = if x == c then drop_while c xs else x ∷ xs

-- `{:08X}` of a u64: eight digits, more where the number needs them.
unfoldable pub hex08 : ℕ → Bytes
hex08 v = if ltb v (2 ^ 32) then hex_fixed 8 v else drop_while b'0' (hex_fixed 16 v)

-- Zeros up to a multiple of four: `while !out.len().is_multiple_of(4)`.
abbrev pub padding : ℕ → Bytes
padding n = replicate (if n % 4 == 0 then 0 else 4 - n % 4) 0

abbrev pub pad4 : Bytes → Bytes
pad4 out = out ++ padding (length out)

abbrev pub rdev_of : Option (ℕ × ℕ) → ℕ × ℕ
rdev_of none = (0, 0)
rdev_of (some r) = r

-- The text of the header: thirteen fields behind the magic.
unfoldable pub entry_header : ℕ → ℕ → ℕ → ℕ → ℕ × ℕ → ℕ → Bytes
entry_header ino mode nlink filesize rdev namesize =
    newc_magic
    ++ (hex08 ino
        ++ (hex08 mode
            ++ (hex08 0
                ++ (hex08 0
                    ++ (hex08 nlink
                        ++ (hex08 0
                            ++ (hex08 filesize
                                ++ (hex08 0
                                    ++ (hex08 0
                                        ++ (hex08 rdev.0
                                            ++ (hex08 rdev.1
                                                ++ (hex08 namesize ++ hex08 0))))))))))))

unfoldable pub cpio_entry : Bytes → ℕ → ℕ → ℕ → Bytes → Bytes → Option (ℕ × ℕ) → Bytes
cpio_entry out ino mode nlink name contents rdev =
    let header = entry_header ino mode nlink (length contents) (rdev_of rdev) (length name + 1) in
    pad4 (pad4 (out ++ (header ++ (name ++ 0 ∷ []))) ++ contents)

unfoldable pub wrap_as_cpio : Bytes → Bytes
wrap_as_cpio init =
    let out = cpio_entry [] 1 0x41ED 3 (codes ".") [] none in
    let out = cpio_entry out 2 0x41ED 2 (codes "dev") [] none in
    let out = cpio_entry out 3 0x21B6 1 (codes "dev/console") [] (some (5, 1)) in
    let out = cpio_entry out 4 0x81ED 1 (codes "init") init none in
    cpio_entry out 0 0 1 (codes "TRAILER!!!") [] none

-- `ArchiveTooLarge`
pub data Error : Type 0 where
  archive_too_large : Error
  malformed : Error

abbrev pub fits_u32 : ℕ → Result Error (Unit {0})
fits_u32 n = refuse_if (not (ltb n (2 ^ 32))) archive_too_large

abbrev pub add : ℕ → ℕ → Result Error ℕ
add a b = ok_or archive_too_large (checked_add a b)

-- `checked_add(3).map(|n| n & !3)`
abbrev pub round4 : ℕ → Result Error ℕ
round4 n = add n 3 >>= λ m. ok (and_not 64 m 3)

-- The last subtraction is of an offset below the end.
unfoldable pub checked_entry_size : ℕ → ℕ → ℕ → Result Error ℕ
checked_entry_size offset name_len size = do
  namesize ← add name_len 1
  fits_u32 namesize
  fits_u32 size
  n ← add offset 110
  n ← add n namesize
  n ← round4 n
  n ← add n size
  end ← round4 n
  refuse_if (ltb end offset) archive_too_large
  ok (end - offset)

-- With the reservation of memory, which is not modelled, left out.
unfoldable pub checked_entry :
    Bytes → ℕ → ℕ → ℕ → Bytes → Bytes → Option (ℕ × ℕ) → Result Error Bytes
unfolding checked_entry_size cpio_entry
checked_entry out ino mode nlink name contents rdev = do
  additional ← checked_entry_size (length out) (length name) (length contents)
  ok (cpio_entry out ino mode nlink name contents rdev)

-- The reader. A `?` on an Option is an error without a value.
abbrev pub is_hex : ℕ → Bool
is_hex c = leb b'0' c && leb c b'9' || (leb b'A' c && leb c b'F' || leb b'a' c && leb c b'f')

abbrev pub hex_value : ℕ → ℕ
hex_value c = if leb c b'9' then c - b'0' else if leb c b'F' then c - b'A' + 10 else c - b'a' + 10

-- `from_str_radix(.., 16)` of eight digits.
abbrev pub from_hex : ℕ → Bytes → Result Error ℕ
from_hex acc [] = ok acc
from_hex acc (c ∷ cs) = if is_hex c then from_hex (acc * 16 + hex_value c) cs else err malformed

-- The fields of eight digits: `as_chunks::<8>`.
unfoldable pub parse_fields : ℕ → Bytes → Result Error (List ℕ)
parse_fields zero text = ok []
parse_fields (suc n) text = do
  field ← from_hex 0 (take 8 text)
  fields ← parse_fields n (drop 8 text)
  ok (field ∷ fields)

abbrev pub nth_field : ℕ → List ℕ → ℕ
nth_field i [] = 0
nth_field zero (x ∷ xs) = x
nth_field (suc i) (x ∷ xs) = nth_field i xs

-- `get(..n)` and `get(n..)`
abbrev pub get_to : ℕ → Bytes → Result Error Bytes
get_to n bytes = if leb n (length bytes) then ok (take n bytes) else err malformed

abbrev pub get_from : ℕ → Bytes → Result Error Bytes
get_from n bytes = if leb n (length bytes) then ok (drop n bytes) else err malformed

-- A name of `n` bytes ends in its only NUL.
abbrev pub bad_name : Bytes → Bool
bad_name [] = true
bad_name (c ∷ []) = not (c == 0)
bad_name (c ∷ d ∷ cs) = c == 0 || bad_name (d ∷ cs)

-- Where the next record starts, from the name's end and the size.
unfoldable pub record_end : ℕ → ℕ → Result Error ℕ
record_end name_end size = do
  data_start ← round4 name_end
  data_end ← add data_start size
  round4 data_end

-- One record: the bytes behind it, and whether it is the trailer.
unfoldable pub next_record : Bytes → Result Error (Bytes × Bool)
unfolding record_end parse_fields
next_record bytes = do
  header ← get_to 110 bytes
  refuse_if (not (bytes_eq (take 6 header) newc_magic)) malformed
  fields ← parse_fields 13 (drop 6 header)
  name_end ← add 110 (nth_field 11 fields)
  up_to_name ← get_to name_end bytes
  let name = drop 110 up_to_name
  refuse_if (bad_name name || not (nth_field 12 fields == 0)) malformed
  next ← record_end name_end (nth_field 6 fields)
  rest ← get_from next bytes
  let trailer = bytes_eq name (codes "TRAILER!!!" ++ 0 ∷ [])
  refuse_if (trailer && not (nth_field 6 fields == 0)) malformed
  ok (rest, trailer)

abbrev pub is_empty : Bytes → Bool
is_empty [] = true
is_empty (b ∷ bs) = false

abbrev pub skip_padding : Bytes → Bytes
skip_padding bytes = drop_while 0 bytes

-- What a record leads to: the verdict, or the bytes to go on with.
pub data Onward : Type 0 where
  verdict : Bool → Onward
  continues : Bytes → Onward

unfoldable pub behind_record : Result Error (Bytes × Bool) → Onward
behind_record (err e) = verdict false
behind_record (ok (rest, false)) = continues rest
behind_record (ok (rest, true)) =
    if is_empty (skip_padding rest) then verdict true else continues (skip_padding rest)

-- The two loops, for at most `fuel` records: whether the archive is accepted.
unfoldable pub scan_records : ℕ → Bytes → Option Bool
unfolding behind_record next_record
scan_records zero bytes = none
scan_records (suc fuel) bytes = elim (behind_record (next_record bytes)) [
  | verdict b ↦ some b
  | continues rest ↦ scan_records fuel rest
]

unfoldable pub validate_cpio : Bytes → Option Bool
unfolding scan_records
validate_cpio bytes = scan_records (suc (length bytes)) bytes
