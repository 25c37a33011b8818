-- ===== src/Cmdline.antt =====
-- Recognition of Linux kernel arguments (src/kernel_cmdline.rs: KernelCommandLine).
mod Argument
pub mod Ends
pub mod Words
mod Tests
use arma.Base.{
  ℕ, zero, suc, ◌+◌, ◌-◌, Bool, true, false, not, ◌&&◌, ◌||◌, Option, none, some, List, [], ◌∷◌,
  ◌++◌, leb, ◌==◌, if◌then◌else◌, take, drop, length,
}
use arma.Base.Text.{Bytes, codes, before, bytes_eq, starts_with}

-- `matches!(c, b' ' | b'\t'..=b'\r' | 0xa0)`
unfoldable pub is_space : ℕ → Bool
is_space c = c == b' ' || leb 9 c && leb c 13 || c == 0xa0

unfoldable pub skip_spaces : Bytes → Bytes
unfolding is_space
skip_spaces [] = []
skip_spaces (c ∷ cs) = let rest = skip_spaces cs in if is_space c then rest else c ∷ cs

-- The loop over one argument: its end, and the index of its first `=` (0 for none).
unfoldable pub scan : Bytes → ℕ → Bool → ℕ → ℕ × ℕ
unfolding is_space
scan [] i in_quote equals = (i, equals)
scan (c ∷ cs) i in_quote equals =
    let rest =
      scan cs (suc i) (if c == b'"' then not in_quote else in_quote)
        (if equals == 0 && c == b'=' then i else equals) in
    if is_space c && not in_quote then (i, equals) else rest

abbrev pub ends_in_quote : Bytes → Bool
ends_in_quote [] = false
ends_in_quote (c ∷ []) = c == b'"'
ends_in_quote (c ∷ d ∷ cs) = ends_in_quote (d ∷ cs)

-- The name of an argument.
unfoldable pub argument_name : Bool → ℕ → ℕ → Bytes → Bytes
argument_name quoted end equals rest =
    let name = take (if equals == 0 then end else equals) rest in
    if quoted && (equals == 0 && ends_in_quote name) then take (length name - 1) name else name

-- What one turn of the loop does: it returns, or it goes on with the rest of the line.
pub data Turn : Type 0 where
  answer : Bool → Turn
  go_on : Bytes → Turn

unfoldable pub decide_argument : Bool → ℕ → ℕ → Bytes → Turn
unfolding argument_name
decide_argument quoted end equals rest =
    if equals == 0 && bytes_eq (argument_name quoted end equals rest) (codes "--")
    then answer false
    else if bytes_eq (argument_name quoted end equals rest) (codes "bootconfig")
    then answer true
    else go_on (drop end rest)

unfoldable pub argument : Bool → Bytes → Turn
unfolding scan decide_argument
argument quoted rest =
    let found = scan rest 0 quoted 0 in decide_argument quoted found.0 found.1 rest

-- The turn on a line without leading spaces.
abbrev pub turn_at : Bytes → Turn
turn_at [] = answer false
turn_at (c ∷ cs) = if c == b'"' then argument true cs else argument false (c ∷ cs)

unfoldable pub turn : Bytes → Turn
unfolding argument skip_spaces
turn rest = turn_at (skip_spaces rest)

-- The loop, for at most `fuel` turns.
unfoldable pub turns : ℕ → Bytes → Option Bool
unfolding turn
turns zero rest = none
turns (suc fuel) rest = elim (turn rest) [ answer b ↦ some b | go_on rest' ↦ turns fuel rest' ]

-- The line up to its first NUL, with one turn more than it has bytes.
unfoldable pub bootconfig_requested : Bytes → Option Bool
unfolding turns
bootconfig_requested line = turns (suc (length (before 0 line))) (before 0 line)
