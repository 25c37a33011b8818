-- ===== src/Acpi/Aml.antt =====
-- The AML writers (src/emit/aml.rs), on a slot and a position.
pub mod Appends
use arma.Base.{
  ℕ, zero, suc, ◌+◌, ◌-◌, ◌/◌, ◌%◌, ◌<◌, Bool, true, false, List, [], ◌∷◌, ◌++◌, ltb, leb,
  if◌then◌else◌, length, Result, ok, err, ok_or, refuse_if, ◌>>=◌, ◌>>◌,
}
use arma.Base.Slice.{splice, le}
use arma.Base.Text.{Bytes}
use arma.Acpi.{DtbError, internal, add}

-- The slot that is written, and the position behind.
abbrev pub Written : Type 0
Written = Result DtbError (Bytes × ℕ)

unfoldable pub write_bytes : Bytes → ℕ → Bytes → Written
unfolding splice
write_bytes slot pos bytes = do
  end ← add pos (length bytes)
  slot' ← ok_or internal (splice pos bytes slot)
  ok (slot', end)

-- `0x40 | (value & 0x0F)`, whose bits do not meet, and `(value >> 4) & 0xFF`.
abbrev pub pkg_bytes : ℕ → Bytes
pkg_bytes value = (0x40 + value % 16) ∷ (value / 16 % 256) ∷ []

unfoldable pub write_pkg_length : Bytes → ℕ → ℕ → Written
unfolding write_bytes
write_pkg_length slot pos value = do
  refuse_if (ltb 0x0FFF value) internal
  write_bytes slot pos (pkg_bytes value)

unfoldable pub write_name_seg : Bytes → ℕ → Bytes → Written
unfolding write_bytes
write_name_seg slot pos name = write_bytes slot pos name

unfoldable pub write_device_header : Bytes → ℕ → Bytes → ℕ → Written
unfolding write_bytes write_pkg_length write_name_seg
write_device_header slot pos name total_bytes = do
  (slot', pos') ← write_bytes slot pos (0x5B ∷ 0x82 ∷ [])
  refuse_if (ltb total_bytes 2) internal
  (slot'', pos'') ← write_pkg_length slot' pos' (total_bytes - 2)
  write_name_seg slot'' pos'' name

unfoldable pub write_name_byte : Bytes → ℕ → Bytes → ℕ → Written
unfolding write_bytes write_name_seg
write_name_byte slot pos name value = do
  (slot', pos') ← write_bytes slot pos (0x08 ∷ [])
  (slot'', pos'') ← write_name_seg slot' pos' name
  write_bytes slot'' pos'' (0x0A ∷ value ∷ [])

unfoldable pub write_name_dword : Bytes → ℕ → Bytes → ℕ → Written
unfolding write_bytes write_name_seg
write_name_dword slot pos name value = do
  (slot1, pos1) ← write_bytes slot pos (0x08 ∷ [])
  (slot2, pos2) ← write_name_seg slot1 pos1 name
  (slot3, pos3) ← write_bytes slot2 pos2 (0x0C ∷ [])
  write_bytes slot3 pos3 (le 4 value)

unfoldable pub write_string : Bytes → ℕ → Bytes → Written
unfolding write_bytes
write_string slot pos value = do
  (slot', pos') ← write_bytes slot pos (0x0D ∷ [])
  (slot'', pos'') ← write_bytes slot' pos' value
  write_bytes slot'' pos'' (0 ∷ [])

unfoldable pub write_name_string : Bytes → ℕ → Bytes → Bytes → Written
unfolding write_bytes write_name_seg write_string
write_name_string slot pos name value = do
  (slot', pos') ← write_bytes slot pos (0x08 ∷ [])
  (slot'', pos'') ← write_name_seg slot' pos' name
  write_string slot'' pos'' value

unfoldable pub write_byte_buffer : Bytes → ℕ → Bytes → Written
unfolding write_bytes write_pkg_length
write_byte_buffer slot pos bytes = do
  refuse_if (ltb 255 (length bytes)) internal
  (slot1, pos1) ← write_bytes slot pos (0x11 ∷ [])
  two ← add 2 2
  pkg ← add two (length bytes)
  (slot2, pos2) ← write_pkg_length slot1 pos1 pkg
  (slot3, pos3) ← write_bytes slot2 pos2 (0x0A ∷ length bytes ∷ [])
  write_bytes slot3 pos3 bytes
