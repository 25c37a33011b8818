-- ===== src/Acpi.antt =====
-- The ACPI tables of the stub (deps/tatu/deps/dtb2acpi/src): the layout of the tables in the
-- buffer, the checksums, and the AML writers.
pub mod Layout
pub mod Checksum
pub mod Aml
mod Tests
use arma.Base.{ℕ, ◌+◌, ◌<◌, Option, none, some, Result, ok, err, ok_or}
use arma.Base.Bits.{checked_add}

-- `DtbError::Internal`, the only error of the modelled code.
pub data DtbError : Type 0 where
  internal : DtbError

abbrev pub add : ℕ → ℕ → Result DtbError ℕ
add a b = ok_or internal (checked_add a b)
