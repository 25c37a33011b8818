-- ===== src/Cmdline/Words.antt =====
-- A command line without quotes, read as its words (src/kernel_cmdline.rs: bootconfig_requested).
use arma.Base.{
  ℕ, zero, suc, ◌≤◌, ◌<◌, ◌≡◌, inl, inr, refl, ap, subst, ◌∙◌, arith, Bool, true, false, Bool-cases,
  Option, some, List, [], ◌∷◌, ◌==◌, if◌then◌else◌, drop, length,
}
use arma.Base.Slice.{length-drop}
use arma.Base.Text.{Bytes, codes, before, contains, bytes_eq}
use arma.Cmdline.{
  is_space, skip_spaces, Turn, answer, go_on, turn_at, turn, turns, bootconfig_requested,
}
use arma.Cmdline.Argument.{key, word, judge, argument-judge, drop-unquoted}

abbrev push : ℕ → List Bytes → List Bytes
push c [] = (c ∷ []) ∷ []
push c (w ∷ ws) = (c ∷ w) ∷ ws

-- The pieces between the spaces of a line; two spaces in a row have an empty one between them.
unfoldable pub pieces : Bytes → List Bytes
pieces [] = [] ∷ []
pieces (c ∷ cs) = if is_space c then [] ∷ pieces cs else push c (pieces cs)

-- A word with the key `bootconfig` comes before any word `--`.
unfoldable pub asks : List Bytes → Bool
asks [] = false
asks (w ∷ ws) =
    if bytes_eq w (codes "--")
    then false
    else if bytes_eq (key w) (codes "bootconfig")
    then true
    else asks ws

-- The pieces behind the first one.
others : Bytes → List Bytes
others [] = []
others (c ∷ cs) = if is_space c then pieces cs else others cs

pieces-word : (cs : Bytes) → pieces cs ≡ word cs ∷ others cs
unfolding pieces word others
pieces-word [] = refl
pieces-word (c ∷ cs) = elim (Bool-cases (is_space c)) [
  | inl e ↦ rw e refl
  | inr e ↦ rw (e, pieces-word cs) refl
]

asks-others : (cs : Bytes) → asks (pieces (drop (length (word cs)) cs)) ≡ asks (others cs)
unfolding pieces word others asks
asks-others [] = refl
asks-others (c ∷ cs) = elim (Bool-cases (is_space c)) [
  | inl e ↦ rw e (rw e refl)
  | inr e ↦ rw e (asks-others cs)
]

asks-skip_spaces : (cs : Bytes) → asks (pieces (skip_spaces cs)) ≡ asks (pieces cs)
unfolding pieces asks skip_spaces
asks-skip_spaces [] = refl
asks-skip_spaces (c ∷ cs) = elim (Bool-cases (is_space c)) [
  | inl e ↦ rw e (asks-skip_spaces cs)
  | inr e ↦ rw (e, e) refl
]

-- The line behind its leading spaces.
record Skipped (cs out : Bytes) : Type 0 where
  shorter : length out ≤ length cs
  unquoted : contains b'"' out ≡ false
  at_word : (c : ℕ) (rest : Bytes) → out ≡ c ∷ rest → is_space c ≡ false

skip_spaces-Skipped : (cs : Bytes) → contains b'"' cs ≡ false → Skipped cs (skip_spaces cs)
unfolding skip_spaces
skip_spaces-Skipped [] h = record { shorter = omega arith; unquoted = refl; at_word = λ c r e. cc }
skip_spaces-Skipped (c ∷ cs) h = elim (Bool-cases (is_space c)) [
  | inl e ↦
      let rest = skip_spaces-Skipped cs (ground arith) in
      rw e (record {
        shorter = omega (arith, rest.shorter);
        unquoted = rest.unquoted;
        at_word = rest.at_word;
      })
  | inr e ↦ rw e (record {
    shorter = omega arith;
    unquoted = h;
    at_word = λ d r k. let same : c ≡ d = cc in subst (λ t. is_space t ≡ false) same e;
  })
]

-- The turn on a line without quotes.
spoken : Bytes → Turn
spoken [] = answer false
spoken (c ∷ cs) = judge (c ∷ word cs) (drop (length (word cs)) cs)

turn_at-spoken :
    (out : Bytes)
    → ((c : ℕ) (rest : Bytes) → out ≡ c ∷ rest → is_space c ≡ false)
    → contains b'"' out ≡ false
    → turn_at out ≡ spoken out
unfolding spoken
turn_at-spoken [] at_word q = refl
turn_at-spoken (c ∷ cs) at_word q =
    let plain : (c == b'"') ≡ false = ground arith in
    rw plain (argument-judge c cs (at_word c cs refl) q)

-- What the loop does after a turn.
follow : ℕ → Turn → Option Bool
follow fuel (answer b) = some b
follow fuel (go_on rest) = turns fuel rest

follow-judge :
    (fuel : ℕ) (w rest : Bytes) (ws : List Bytes)
    → turns fuel rest ≡ some (asks ws)
    → follow fuel (judge w rest) ≡ some (asks (w ∷ ws))
unfolding asks judge follow
follow-judge fuel w rest ws h = ground (arith, h)

follow-spoken :
    (fuel : ℕ) (out : Bytes)
    → ((c : ℕ) (rest : Bytes) → out ≡ c ∷ rest → is_space c ≡ false)
    → contains b'"' out ≡ false
    → ((rest : Bytes)
        → length rest < length out
        → contains b'"' rest ≡ false
        → turns fuel rest ≡ some (asks (pieces rest)))
    → follow fuel (spoken out) ≡ some (asks (pieces out))
unfolding spoken pieces asks follow
follow-spoken fuel [] at_word q ih = refl
follow-spoken fuel (c ∷ cs) at_word q ih =
    let rest = drop (length (word cs)) cs in
    let behind : turns fuel rest ≡ some (asks (others cs)) =
      ih rest (omega (arith, length-drop (length (word cs)) cs))
        (drop-unquoted (length (word cs)) cs (ground arith))
      ∙ ap some (asks-others cs) in
    rw (at_word c cs refl, pieces-word cs) (follow-judge fuel (c ∷ word cs) rest (others cs) behind)

turns-follow : (fuel : ℕ) (line : Bytes) → turns (suc fuel) line ≡ follow fuel (turn line)
unfolding turns follow
turns-follow fuel line = step (turn line)
  where
    step : (t : Turn) → elim t [ answer b ↦ some b | go_on rest ↦ turns fuel rest ] ≡ follow fuel t
    step (answer b) = refl
    step (go_on rest) = refl

turns-asks :
    (fuel : ℕ) (line : Bytes)
    → length line < fuel
    → contains b'"' line ≡ false
    → turns fuel line ≡ some (asks (pieces line))
unfolding turns turn
turns-asks zero line h q = absurd (omega arith)
turns-asks (suc fuel) line h q =
    let s = skip_spaces-Skipped line q in
    let followed =
      follow-spoken fuel (skip_spaces line) s.at_word s.unquoted
        (λ rest less plain. turns-asks fuel rest (omega (arith, s.shorter)) plain) in
    turns-follow fuel line
    ∙ ap (follow fuel) (turn_at-spoken (skip_spaces line) s.at_word s.unquoted)
    ∙ followed
    ∙ ap some (asks-skip_spaces line)

-- On a line that has no quote before its first NUL, the answer is the one of its words up to that
-- NUL: yes where a word that is `bootconfig`, or goes on from there with a `=`, comes before any
-- word `--`, and no otherwise. The words are the pieces between the spaces that are not empty.
pub bootconfig_requested-asks :
    (line : Bytes)
    → contains b'"' (before 0 line) ≡ false
    → bootconfig_requested line ≡ some (asks (pieces (before 0 line)))
unfolding bootconfig_requested
bootconfig_requested-asks line q =
    turns-asks (suc (length (before 0 line))) (before 0 line) (omega arith) q
