-- ===== src/Kernel/Relocs.antt =====
-- The relocation tables (src/kernel.rs: Relocs), and their way to the stub.
use arma.Base.{ℕ, ◌==◌, Bool, ◌&&◌, List, [], ◌∷◌, ◌++◌, length}
use arma.Base.Slice.{le}
use arma.Base.Text.{Bytes}

pub record Relocs : Type 0 where
  pub relocs32 : List ℕ
  pub relocs32neg : List ℕ
  pub relocs64 : List ℕ

abbrev pub no_relocs : Relocs
no_relocs = record { relocs32 = []; relocs32neg = []; relocs64 = [] }

unfoldable pub is_empty : Relocs → Bool
is_empty r = length r.relocs64 == 0 && length r.relocs32neg == 0 && length r.relocs32 == 0

abbrev pub chained : Relocs → List ℕ
chained r = r.relocs64 ++ (r.relocs32neg ++ r.relocs32)

unfoldable pub word_bytes : List ℕ → Bytes
word_bytes [] = []
word_bytes (o ∷ os) = le 4 o ++ word_bytes os

unfoldable pub to_section_bytes : Relocs → Bytes
unfolding word_bytes
to_section_bytes r = word_bytes (chained r)
