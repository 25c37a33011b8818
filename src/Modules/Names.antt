-- ===== src/Modules/Names.antt =====
-- Module names and paths (src/modules.rs: validate_name, validate_path, module_path).
use arma.Base.{
  ℕ, ◌-◌, Bool, true, false, not, ◌&&◌, ◌||◌, Option, none, some, List, [], ◌∷◌, map, leb, ◌==◌,
  if◌then◌else◌, take, drop, length, any, Result, ok, err, ok_or, refuse_if, ◌>>=◌, ◌>>◌,
}
use arma.Base.Text.{Bytes, codes, bytes_eq, starts_with}

-- `ModuleError`, by its messages; `panics` and `exhausted` are the model's own.
pub data ModuleError : Type 0 where
  unsafe_release : ModuleError
  invalid_name : Bytes → ModuleError
  unsafe_path : Bytes → ModuleError
  unsupported_suffix : Bytes → ModuleError
  malformed_line : Bytes → ModuleError
  duplicate_dependency : Bytes → ModuleError
  duplicate_definition : Bytes → ModuleError
  ambiguous_name : Bytes → ModuleError
  missing_dependency : Bytes → Bytes → ModuleError
  unknown_module : Bytes → ModuleError
  cycle : Bytes → ModuleError
  io_error : ModuleError
  not_directory : Bytes → ModuleError
  tree_count : ℕ → ModuleError
  special_entry : ModuleError
  escapes_tree : ModuleError
  not_newc_sized : ModuleError
  exceeds_newc : ModuleError
  invalid_utf8 : Bytes → ModuleError
  panics : ModuleError
  exhausted : ModuleError

abbrev pub is_alphanumeric : ℕ → Bool
is_alphanumeric b = leb b'0' b && leb b b'9' || leb b'A' b && leb b b'Z' || leb b'a' b && leb b b'z'

abbrev pub all_bytes : (ℕ → Bool) → Bytes → Bool
all_bytes p [] = true
all_bytes p (b ∷ bs) = p b && all_bytes p bs

-- The pattern `[A-Za-z0-9_][A-Za-z0-9_-]*` on a whole text.
abbrev pub is_match : Bytes → Bool
is_match [] = false
is_match (b ∷ bs) =
    (is_alphanumeric b || b == b'_')
    && all_bytes (λ c. is_alphanumeric c || c == b'_' || c == b'-') bs

abbrev pub underscored : ℕ → ℕ
underscored b = if b == b'-' then b'_' else b

unfoldable pub validate_name : Bytes → Result ModuleError Bytes
validate_name name = if is_match name then ok (map underscored name) else err (invalid_name name)

-- A byte in front of the first text of a list.
abbrev pub cut : ℕ → List Bytes → List Bytes
cut c [] = (c ∷ []) ∷ []
cut c (part ∷ parts) = (c ∷ part) ∷ parts

-- `split`
abbrev pub split : ℕ → Bytes → List Bytes
split sep [] = [] ∷ []
split sep (c ∷ cs) = let rest = split sep cs in if c == sep then [] ∷ rest else cut c rest

-- `rsplit(..).next()`
abbrev pub last_part : List Bytes → Bytes
last_part [] = []
last_part (part ∷ []) = part
last_part (part ∷ next ∷ parts) = last_part (next ∷ parts)

-- `lines`: a newline, or a return and a newline, ends one.
abbrev pub lines : Bytes → List Bytes
lines [] = []
lines (c ∷ cs) =
    let rest = lines cs in
    if c == 10 then [] ∷ rest else if c == 13 && starts_with 10 cs then rest else cut c rest

abbrev pub is_space : ℕ → Bool
is_space c = c == 32 || c == 9 || c == 10 || c == 12 || c == 13

abbrev pub in_word : Bytes → Bool
in_word [] = false
in_word (c ∷ cs) = not (is_space c)

-- `split_ascii_whitespace`
abbrev pub words : Bytes → List Bytes
words [] = []
words (c ∷ cs) =
    let rest = words cs in
    if is_space c then rest else if in_word cs then cut c rest else (c ∷ []) ∷ rest

-- `strip_suffix`
abbrev pub strip_suffix : Bytes → Bytes → Option Bytes
strip_suffix suffix text =
    let at = length text - length suffix in
    if leb (length suffix) (length text) && bytes_eq (drop at text) suffix
    then some (take at text)
    else none

abbrev pub first_stem : List Bytes → Bytes → Option Bytes
first_stem [] filename = none
first_stem (suffix ∷ suffixes) filename = elim (strip_suffix suffix filename) [
  | some stem ↦ some stem
  | none ↦ first_stem suffixes filename
]

abbrev pub suffixes : List Bytes
suffixes = codes ".ko" ∷ codes ".ko.xz" ∷ codes ".ko.gz" ∷ codes ".ko.zst" ∷ []

abbrev pub is_unsafe_part : Bytes → Bool
is_unsafe_part part =
    length part == 0
    || bytes_eq part (codes ".")
    || bytes_eq part (codes "..")
    || any (λ b. not (is_alphanumeric b) && not (b == b'.' || b == b'_' || b == b'+' || b == b'-'))
        part

unfoldable pub validate_path : Bytes → Result ModuleError (Unit {0})
validate_path path =
    refuse_if (length path == 0 || any is_unsafe_part (split b'/' path)) (unsafe_path path)

unfoldable pub module_path : Bytes → Result ModuleError Bytes
unfolding validate_path validate_name
module_path path = do
  validate_path path
  stem ← ok_or (unsupported_suffix path) (first_stem suffixes (last_part (split b'/' path)))
  validate_name stem
