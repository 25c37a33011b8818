-- ===== src/Cmdline/Ends.antt =====
-- The loop over the arguments ends (src/kernel_cmdline.rs: bootconfig_requested).
use arma.Base.{
  ℕ, zero, suc, ◌-◌, ◌≤◌, ◌<◌, ◌≡◌, inl, inr, refl, arith, Bool, true, false, not, Bool-cases, ◌&&◌,
  some, [], ◌∷◌, ◌==◌, if◌then◌else◌, length,
}
use arma.Base.Slice.{length-drop}
use arma.Base.Text.{Bytes, codes, before, bytes_eq}
use arma.Cmdline.{
  is_space, skip_spaces, scan, argument_name, Turn, answer, go_on, decide_argument, argument,
  turn_at, turn, turns, bootconfig_requested,
}

-- A turn that goes on leaves a shorter line.
Shorter : Turn → ℕ → Type 0
Shorter (answer b) n = Unit
Shorter (go_on rest) n = length rest < n

Shorter-le : (t : Turn) (m n : ℕ) → Shorter t m → m ≤ n → Shorter t n
unfolding Shorter
Shorter-le (answer b) m n h le = tt
Shorter-le (go_on rest) m n h le = omega arith

decide_argument-Shorter :
    (quoted : Bool) (end equals : ℕ) (rest : Bytes) (n : ℕ)
    → length rest - end < n
    → Shorter (decide_argument quoted end equals rest) n
unfolding Shorter decide_argument
decide_argument-Shorter quoted end equals rest n h =
    elim (Bool-cases
      (equals == 0 && bytes_eq (argument_name quoted end equals rest) (codes "--"))) [
        | inl e ↦ rw e tt
        | inr e ↦
            elim (Bool-cases
              (bytes_eq (argument_name quoted end equals rest) (codes "bootconfig"))) [
                | inl f ↦ rw (e, f) tt
                | inr f ↦ rw (e, f) (omega (arith, length-drop end rest))
              ]
      ]

-- The scan moves forward from where it starts.
scan-le : (rest : Bytes) (i : ℕ) (q : Bool) (equals : ℕ) → i ≤ (scan rest i q equals).0
unfolding scan
scan-le [] i q equals = omega arith
scan-le (c ∷ cs) i q equals = elim (Bool-cases (is_space c && not q)) [
  | inl e ↦ rw e (omega arith)
  | inr e ↦ rw e (
      omega (
        arith,
        scan-le cs (suc i) (if c == b'"' then not q else q)
            (if equals == 0 && c == b'=' then i else equals),
      ))
]

-- An argument that starts with no space takes a byte at least.
scan-positive : (c : ℕ) (cs : Bytes) (q : Bool) → is_space c ≡ false → 0 < (scan (c ∷ cs) 0 q 0).0
unfolding scan
scan-positive c cs q e = rw e (
    omega
      (arith, scan-le cs 1 (if c == b'"' then not q else q) (if 0 == 0 && c == b'=' then 0 else 0)))

argument-Shorter :
    (quoted : Bool) (rest : Bytes) (n : ℕ)
    → length rest - (scan rest 0 quoted 0).0 < n
    → Shorter (argument quoted rest) n
unfolding argument
argument-Shorter quoted rest n h =
    decide_argument-Shorter quoted (scan rest 0 quoted 0).0 (scan rest 0 quoted 0).1 rest n h

branch-Shorter :
    (b : Bool) (t u : Turn) (n : ℕ) → Shorter t n → Shorter u n → Shorter (if b then t else u) n
branch-Shorter true t u n h k = h
branch-Shorter false t u n h k = k

turn_at-Shorter :
    (c : ℕ) (cs : Bytes) → is_space c ≡ false → Shorter (turn_at (c ∷ cs)) (suc (length cs))
turn_at-Shorter c cs e =
    branch-Shorter (c == b'"') (argument true cs) (argument false (c ∷ cs)) (suc (length cs))
      (argument-Shorter true cs (suc (length cs)) (omega arith))
      (argument-Shorter false (c ∷ cs) (suc (length cs))
        (omega (arith, scan-positive c cs false e)))

turn-Shorter : (rest : Bytes) → Shorter (turn rest) (length rest)
unfolding Shorter turn skip_spaces
turn-Shorter [] = tt
turn-Shorter (c ∷ cs) = elim (Bool-cases (is_space c)) [
  | inl e ↦
      rw e (Shorter-le (turn cs) (length cs) (suc (length cs)) (turn-Shorter cs) (omega arith))
  | inr e ↦ rw e (turn_at-Shorter c cs e)
]

turns_from :
    (fuel : ℕ) (rest : Bytes) (t : Turn)
    → ((rest' : Bytes) → length rest' < fuel → (b : Bool) × (turns fuel rest' ≡ some b))
    → turn rest ≡ t
    → Shorter t (length rest)
    → length rest < suc fuel
    → (b : Bool) × (turns (suc fuel) rest ≡ some b)
unfolding turns Shorter
turns_from fuel rest (answer b) ih e s h = (b, rw (turns, e) refl)
turns_from fuel rest (go_on rest') ih e s h =
    let (b, done) = ih rest' (omega arith) in (b, rw (turns, e) done)

-- One turn more than the line has bytes is enough.
turns-end : (fuel : ℕ) (rest : Bytes) → length rest < fuel → (b : Bool) × (turns fuel rest ≡ some b)
turns-end zero rest h = absurd (omega arith)
turns-end (suc fuel) rest h =
    turns_from fuel rest (turn rest) (turns-end fuel) refl (turn-Shorter rest) h

-- The recognition of the bootconfig argument ends with an answer on every command line.
pub bootconfig_requested_ends : (line : Bytes) → (b : Bool) × (bootconfig_requested line ≡ some b)
unfolding bootconfig_requested
bootconfig_requested_ends line =
    turns-end (suc (length (before 0 line))) (before 0 line) (omega arith)
