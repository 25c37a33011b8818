-- ===== src/Release.antt =====
-- The release of a kernel (src/kernel_release.rs: validate_component, detect, symbol_bytes, merge,
-- parse_banner). The ELF reader is a third-party crate, and its views are the parameter Goblin.
pub mod Detect
pub mod Agreed
mod Tests
use arma.Base.{
  ℕ, zero, suc, ◌+◌, ◌-◌, ◌*◌, ◌/◌, ◌%◌, ◌^◌, min, bit_and, Bool, true, false, not, ◌&&◌, ◌||◌,
  Option, none, some, List, [], ◌∷◌, ◌++◌, ltb, leb, ◌==◌, if◌then◌else◌, take, drop, length, any,
  Result, ok, err, ok_or, refuse_if, ◌>>=◌, ◌>>◌,
}
use arma.Base.Bits.{checked_add}
use arma.Base.Text.{Bytes, codes, bytes_eq, before, contains, strip_prefix}

-- `Malformed` for every message of the source.
pub data ReleaseError : Type 0 where
  missing : ReleaseError
  malformed : ReleaseError
  conflicting : Bytes → Bytes → ReleaseError

abbrev pub prefix : Bytes
prefix = codes "Linux version "

abbrev pub max_banner : ℕ
max_banner = 4096

abbrev pub max_release : ℕ
max_release = 255

-- `is_ascii_graphic`, without the separators and the colon.
abbrev pub is_safe_byte : ℕ → Bool
is_safe_byte b = leb 33 b && leb b 126 && not (b == b'/' || b == 92 || b == b':')

abbrev pub all_safe : Bytes → Bool
all_safe [] = true
all_safe (b ∷ bs) = is_safe_byte b && all_safe bs

abbrev pub is_dots : Bytes → Bool
is_dots release = bytes_eq release (codes ".") || bytes_eq release (codes "..")

unfoldable pub validate_component : Bytes → Result ReleaseError (Unit {0})
validate_component release =
    refuse_if
      (length release == 0
        || ltb max_release (length release)
        || is_dots release
        || not (all_safe release))
      malformed

unfoldable pub merge : Option Bytes → Bytes → Result ReleaseError (Option Bytes)
merge none candidate = ok (some candidate)
merge (some first) candidate =
    if bytes_eq first candidate then ok (some first) else err (conflicting first candidate)

-- `strip_suffix(b"\n").unwrap_or(..)`
abbrev pub strip_newline : Bytes → Bytes
strip_newline [] = []
strip_newline (c ∷ []) = if c == 10 then [] else c ∷ []
strip_newline (c ∷ d ∷ cs) = c ∷ strip_newline (d ∷ cs)

-- `position(|b| b == b')').is_none_or(|n| n == 0)`
abbrev pub no_identity : Bytes → Bool
no_identity identity = not (contains b')' identity) || length (before b')' identity) == 0

unfoldable pub parse_banner : (Bytes → Bool) → Bytes → Result ReleaseError Bytes
unfolding validate_component
parse_banner is_utf8 bytes = do
  let bounded = take (min (length bytes) (max_banner + 1)) bytes
  refuse_if (not (contains 0 bounded)) malformed
  tail ← ok_or malformed (strip_prefix prefix (strip_newline (before 0 bounded)))
  refuse_if (not (contains b' ' tail)) malformed
  let release = before b' ' tail
  refuse_if (not (is_utf8 release)) malformed
  validate_component release
  identity ← ok_or malformed (strip_prefix (codes " (") (drop (length release) tail))
  refuse_if (no_identity identity) malformed
  ok release

-- What the code reads of an ELF file.
pub record Section : Type 0 where
  pub sh_type : ℕ
  pub sh_flags : ℕ
  pub sh_addr : ℕ
  pub sh_offset : ℕ
  pub sh_size : ℕ
  pub sh_entsize : ℕ
  pub sh_link : ℕ

pub record Segment : Type 0 where
  pub p_type : ℕ
  pub p_vaddr : ℕ
  pub p_memsz : ℕ
  pub p_offset : ℕ
  pub p_filesz : ℕ

pub record Symbol : Type 0 where
  pub st_name : ℕ
  pub st_shndx : ℕ
  pub st_value : ℕ
  pub st_size : ℕ

pub record Goblin : Type 1 where
  pub Elf : Type 0
  pub Strtab : Type 0
  pub parse : Bytes → Option Elf
  pub is_64 : Elf → Bool
  pub section_headers : Elf → List Section
  pub program_headers : Elf → List Segment
  pub symbol_tables : Elf → List (List Symbol × Strtab)
  pub parse_symtab : Elf → Bytes → ℕ → ℕ → Option (List Symbol)
  pub parse_strtab : Bytes → ℕ → ℕ → Option Strtab
  pub get_at : Strtab → ℕ → Option Bytes
  pub is_utf8 : Bytes → Bool

abbrev pub nth {ℓ} : {A : Type ℓ} → ℕ → List A → Option A
nth i [] = none
nth zero (x ∷ xs) = some x
nth (suc i) (x ∷ xs) = nth i xs

-- `checked_sub`
abbrev pub checked_sub : ℕ → ℕ → Option ℕ
checked_sub a b = if leb b a then some (a - b) else none

-- `filter(|&n| n > 0)`
abbrev pub positive : Option ℕ → Option ℕ
positive none = none
positive (some n) = if ltb 0 n then some n else none

abbrev pub or_bad {ℓ} : {A : Type ℓ} → Option A → Result ReleaseError A
or_bad o = ok_or malformed o

abbrev pub is_none {ℓ} : {A : Type ℓ} → Option A → Bool
is_none none = true
is_none (some a) = false

abbrev pub is_value : Option ℕ → ℕ → Bool
is_value none n = false
is_value (some m) n = m == n

abbrev pub past : Option ℕ → ℕ → Bool
past none n = true
past (some m) n = ltb n m

-- A segment that holds the symbol at `delta`.
unfoldable pub bound_in : ℕ → ℕ → Segment → ℕ → ℕ → ℕ → Result ReleaseError ℕ
bound_in file_size start segment delta st_size bound = do
  remaining ← or_bad (positive (checked_sub segment.p_filesz delta))
  refuse_if
      (ltb segment.p_memsz segment.p_filesz
        || is_none (checked_add segment.p_vaddr segment.p_memsz)
        || past (checked_add segment.p_offset segment.p_filesz) file_size
        || not (is_value (checked_add segment.p_offset delta) start)
        || (not (st_size == 0) && ltb remaining bound))
      malformed
  ok (min bound remaining)

abbrev pub bound_at : Option ℕ → ℕ → ℕ → Segment → ℕ → ℕ → Bool → Result ReleaseError (ℕ × Bool)
unfolding bound_in
bound_at none file_size start segment st_size bound backed = ok (bound, backed)
bound_at (some delta) file_size start segment st_size bound backed =
    if leb segment.p_memsz delta
    then ok (bound, backed)
    else bound_in file_size start segment delta st_size bound >>= λ n. ok (n, true)

-- The loop over the load segments: the length that they leave, and whether one holds the symbol.
unfoldable pub bound_by : ℕ → ℕ → List Segment → Symbol → ℕ → Bool → Result ReleaseError (ℕ × Bool)
unfolding bound_at
bound_by file_size start [] symbol bound backed = ok (bound, backed)
bound_by file_size start (segment ∷ segments) symbol bound backed = do
  (bound', backed') ←
      (if segment.p_type == 1
        then bound_at (checked_sub symbol.st_value segment.p_vaddr) file_size start segment
            symbol.st_size bound backed
        else ok (bound, backed))
  bound_by file_size start segments symbol bound' backed'

-- `bytes.get(start..end)`
abbrev pub slice : Bytes → ℕ → ℕ → Option Bytes
slice bytes start end =
    if leb start end && leb end (length bytes)
    then some (take (end - start) (drop start bytes))
    else none

unfoldable pub symbol_bytes :
    Bytes → List Section → List Segment → Symbol → Result ReleaseError Bytes
unfolding bound_by
symbol_bytes bytes sections segments symbol = do
  refuse_if (symbol.st_shndx == 0 || leb 0xff00 symbol.st_shndx) malformed
  section ← or_bad (nth symbol.st_shndx sections)
  refuse_if (section.sh_type == 8 || bit_and section.sh_flags 2 == 0) malformed
  or_bad (checked_add section.sh_addr section.sh_size)
  section_end ← or_bad (checked_add section.sh_offset section.sh_size)
  refuse_if (ltb (length bytes) section_end) malformed
  relative ← or_bad (checked_sub symbol.st_value section.sh_addr)
  available ← or_bad (positive (checked_sub section.sh_size relative))
  let wanted = if symbol.st_size == 0 then available else symbol.st_size
  refuse_if (ltb available wanted) malformed
  start ← or_bad (checked_add section.sh_offset relative)
  (bound, backed) ← bound_by (length bytes) start segments symbol wanted false
  refuse_if (not backed) malformed
  end ← or_bad (checked_add start bound)
  or_bad (slice bytes start end)
