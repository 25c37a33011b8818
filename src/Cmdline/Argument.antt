-- ===== src/Cmdline/Argument.antt =====
-- One argument without quotes (src/kernel_cmdline.rs: bootconfig_requested, a turn of its loop).
use arma.Base.{
  ℕ, zero, suc, ◌+◌, ◌<◌, ◌≡◌, inl, inr, refl, arith, true, false, Bool-cases, [], ◌∷◌, ◌==◌,
  if◌then◌else◌, take, drop, length,
}
use arma.Base.Text.{Bytes, codes, before, contains, bytes_eq}
use arma.Cmdline.{is_space, scan, argument_name, Turn, answer, go_on, decide_argument, argument}

-- A word up to its first `=`, but the one that it may start with.
abbrev pub key : Bytes → Bytes
key [] = []
key (c ∷ cs) = c ∷ before b'=' cs

-- The bytes before the first space.
unfoldable pub word : Bytes → Bytes
word [] = []
word (c ∷ cs) = if is_space c then [] else c ∷ word cs

-- A loop behind its first `=` only looks for the end.
scan-ends :
    (cs : Bytes) (i e : ℕ)
    → 0 < e
    → contains b'"' cs ≡ false
    → ((scan cs i false e).0 ≡ i + length (word cs)) × ((scan cs i false e).1 ≡ e)
unfolding scan word
scan-ends [] i e h q = (omega arith, refl)
scan-ends (c ∷ cs) i e h q = ground (arith, scan-ends cs (suc i) e)

-- The index of the first `=` of the first piece, from `i`, or else 0.
equals_at : ℕ → Bytes → ℕ
equals_at i w = if contains b'=' w then i + length (before b'=' w) else 0

scan-finds :
    (cs : Bytes) (i : ℕ)
    → 0 < i
    → contains b'"' cs ≡ false
    → ((scan cs i false 0).0 ≡ i + length (word cs))
      × ((scan cs i false 0).1 ≡ equals_at i (word cs))
unfolding scan word equals_at
scan-finds [] i h q = (omega arith, refl)
scan-finds (c ∷ cs) i h q = ground (arith, scan-finds cs (suc i), scan-ends cs (suc i) i)

take-word : (cs : Bytes) → take (length (word cs)) cs ≡ word cs
unfolding word
take-word [] = refl
take-word (c ∷ cs) = ground (arith, take-word cs)

take-before : (cs : Bytes) → take (length (before b'=' (word cs))) cs ≡ before b'=' (word cs)
unfolding word
take-before [] = refl
take-before (c ∷ cs) = ground (arith, take-before cs)

before-whole : (w : Bytes) → contains b'=' w ≡ false → before b'=' w ≡ w
before-whole [] h = refl
before-whole (c ∷ w) h = ground (arith, before-whole w)

-- What a word decides, and the line goes on behind it.
unfoldable pub judge : Bytes → Bytes → Turn
judge w rest =
    if bytes_eq w (codes "--")
    then answer false
    else if bytes_eq (key w) (codes "bootconfig")
    then answer true
    else go_on rest

dashes : (w : Bytes) → contains b'=' w ≡ true → (c : ℕ) → bytes_eq (c ∷ w) (codes "--") ≡ false
dashes [] h c = cc
dashes (x ∷ []) h c = ground arith
dashes (x ∷ y ∷ w) h c = ground arith

scan-first :
    (c : ℕ) (cs : Bytes)
    → is_space c ≡ false
    → contains b'"' (c ∷ cs) ≡ false
    → ((scan (c ∷ cs) 0 false 0).0 ≡ suc (length (word cs)))
      × ((scan (c ∷ cs) 0 false 0).1 ≡ equals_at 1 (word cs))
unfolding scan equals_at
scan-first c cs s q = ground (arith, scan-finds cs 1)

-- The decision on a word that has a `=`, and on one that has none.
decide_argument-key :
    (c n m : ℕ) (cs w : Bytes)
    → take m cs ≡ before b'=' w
    → contains b'=' w ≡ true
    → decide_argument false (suc n) (suc m) (c ∷ cs) ≡ judge (c ∷ w) (drop n cs)
unfolding decide_argument argument_name judge
decide_argument-key c n m cs w name e =
    let found : (suc m == 0) ≡ false = ground arith in rw (found, name, dashes w e c) refl

decide_argument-plain :
    (c n : ℕ) (cs w : Bytes)
    → take n cs ≡ w
    → contains b'=' w ≡ false
    → decide_argument false (suc n) 0 (c ∷ cs) ≡ judge (c ∷ w) (drop n cs)
unfolding decide_argument argument_name judge
decide_argument-plain c n cs w name e = rw (name, before-whole w e) refl

decide_argument-judge :
    (c : ℕ) (cs : Bytes)
    → decide_argument false (suc (length (word cs))) (equals_at 1 (word cs)) (c ∷ cs)
      ≡ judge (c ∷ word cs) (drop (length (word cs)) cs)
unfolding equals_at
decide_argument-judge c cs = elim (Bool-cases (contains b'=' (word cs))) [
  | inl e ↦
      let at : 1 + length (before b'=' (word cs)) ≡ suc (length (before b'=' (word cs))) =
        omega arith in
      rw (e, at)
        (decide_argument-key c (length (word cs)) (length (before b'=' (word cs))) cs (word cs)
          (take-before cs) e)
  | inr e ↦ rw e (decide_argument-plain c (length (word cs)) cs (word cs) (take-word cs) e)
]

pub argument-judge :
    (c : ℕ) (cs : Bytes)
    → is_space c ≡ false
    → contains b'"' (c ∷ cs) ≡ false
    → argument false (c ∷ cs) ≡ judge (c ∷ word cs) (drop (length (word cs)) cs)
unfolding argument
argument-judge c cs s q =
    let (end, equals) = scan-first c cs s q in rw (end, equals) (decide_argument-judge c cs)

pub drop-unquoted :
    (n : ℕ) (cs : Bytes) → contains b'"' cs ≡ false → contains b'"' (drop n cs) ≡ false
drop-unquoted zero cs h = h
drop-unquoted (suc n) [] h = refl
drop-unquoted (suc n) (c ∷ cs) h = ground (arith, drop-unquoted n cs)
