-- ===== src/Modules/Packing.antt =====
-- The unpacking of a module (src/modules.rs: ModulePacking). The decoders are third-party crates,
-- and their streams a parameter.
use arma.Base.{
  ℕ, zero, suc, ◌+◌, ◌-◌, ◌*◌, ◌≤◌, ◌<◌, ◌≡◌, refl, arith, Bool, true, false, Option, none, some,
  List, [], ◌∷◌, ◌++◌, ltb, leb, ge_of_ltb, ◌⊎◌, inl, inr, Bool-cases, ◌==◌, if◌then◌else◌, length,
  take, Result, ok, err, ok_or, refuse_if, ◌>>=◌, ◌>>◌,
}
use arma.Base.Text.{Bytes}
use arma.Modules.Resolve.{ModuleFile}

pub data ModulePacking : Type 0 where
  packed_keep : ModulePacking
  gzip : ModulePacking
  xz : ModulePacking
  zstd : ModulePacking

-- A stream that fails, and more than the limit; the others are the model's own: a subtraction
-- below zero, no turn left, and an arm that is never taken.
pub data PackError : Type 0 where
  corrupt : PackError
  too_large : PackError
  underflow : PackError
  out_of_turns : PackError
  unreachable : PackError

-- `MAX_DECOMPRESSED_SIZE`
abbrev pub max_decompressed : ℕ
max_decompressed = 64 * 1024 * 1024

-- What a decoder gives, and whether it fails behind that.
pub record Stream : Type 0 where
  pub given : Bytes
  pub fails : Bool

-- The stream of a file; for zstd that of a frame, with the input behind it, if it has a header.
pub record Decoders : Type 0 where
  pub gzip_stream : Bytes → Stream
  pub xz_stream : Bytes → Stream
  pub zstd_frame : Bytes → Option (Stream × Bytes)

-- `take(n).read_to_end(..)`: a failure behind `n` bytes is not met.
abbrev pub read_to : ℕ → Stream → Result PackError Bytes
read_to n stream =
    if leb n (length stream.given)
    then ok (take n stream.given)
    else if stream.fails
    then err corrupt
    else ok stream.given

unfoldable pub read_bounded : Stream → Bytes → ℕ → Result PackError Bytes
read_bounded stream bytes limit = do
  refuse_if (ltb limit (length bytes)) underflow
  got ← read_to (limit - length bytes + 1) stream
  refuse_if (ltb limit (length (bytes ++ got))) too_large
  ok (bytes ++ got)

module _ (d : Decoders) where
  -- The frames of a file, for at most `fuel` turns.
  unfoldable pub read_frames : ℕ → Bytes → Bytes → ℕ → Result PackError Bytes
  unfolding read_bounded
  read_frames zero input bytes limit = err out_of_turns
  read_frames (suc fuel) input bytes limit = do
    (stream, rest) ← ok_or corrupt (d.zstd_frame input)
    bytes' ← read_bounded stream bytes limit
    elim rest [ [] ↦ ok bytes' | b ∷ bs ↦ read_frames fuel (b ∷ bs) bytes' limit ]

  unfoldable pub unpack : ModulePacking → Bytes → ℕ → Result PackError Bytes
  unfolding read_frames read_bounded
  unpack packed_keep input limit = err unreachable
  unpack gzip input limit = read_bounded (d.gzip_stream input) [] limit
  unpack xz input limit = read_bounded (d.xz_stream input) [] limit
  unpack zstd input limit = read_frames (suc (length input)) input [] limit

-- The text before the last dot.
abbrev pub before_dot : Bytes → Option Bytes
before_dot [] = none
before_dot (c ∷ cs) = elim (before_dot cs) [
  | some b ↦ some (c ∷ b)
  | none ↦ if c == b'.' then some [] else none
]

-- `file_stem`: a leading dot starts no extension.
abbrev pub stem_or : Option Bytes → Bytes → Bytes
stem_or none name = name
stem_or (some []) name = name
stem_or (some (b ∷ bs)) name = b ∷ bs

-- `set_extension("")`
abbrev pub without_extension : List Bytes → List Bytes
without_extension [] = []
without_extension (name ∷ []) = stem_or (before_dot name) name ∷ []
without_extension (part ∷ next ∷ parts) = part ∷ without_extension (next ∷ parts)

abbrev pub is_keep : ModulePacking → Bool
is_keep packed_keep = true
is_keep gzip = false
is_keep xz = false
is_keep zstd = false

module _ (d : Decoders) where
  abbrev pub replaced : ModuleFile → Bytes → ModuleFile
  replaced file bytes = record {
    relative = without_extension file.relative;
    bytes = bytes;
    is_root = file.is_root;
  }

  unfoldable pub pack_with_limit : ModulePacking → ModuleFile → ℕ → Result PackError ModuleFile
  unfolding unpack
  pack_with_limit packing file limit =
      if is_keep packing
      then ok file
      else unpack d packing file.bytes limit >>= λ bytes. ok (replaced file bytes)

  unfoldable pub pack : ModulePacking → ModuleFile → Result PackError ModuleFile
  unfolding pack_with_limit
  pack packing file = pack_with_limit packing file max_decompressed

-- A run that ends: within the limit, or in an error of the source.
pub data Bounded (limit : ℕ) : Result PackError Bytes → Type 0 where
  within : (bytes : Bytes) → length bytes ≤ limit → Bounded limit (ok bytes)
  fails : Bounded limit (err corrupt)
  exceeds : Bounded limit (err too_large)

read_to-cases :
    (n : ℕ) (stream : Stream)
    → (read_to n stream ≡ err corrupt) ⊎ ((got : Bytes) × (read_to n stream ≡ ok got))
read_to-cases n stream = elim (Bool-cases (leb n (length stream.given))) [
  | inl e ↦ inr (take n stream.given, rw e refl)
  | inr e ↦ elim (Bool-cases stream.fails) [
    | inl f ↦ inl (rw (e, f) refl)
    | inr f ↦ inr (stream.given, rw (e, f) refl)
  ]
]

read_bounded-Bounded :
    (stream : Stream) (bytes : Bytes) (limit : ℕ)
    → length bytes ≤ limit
    → Bounded limit (read_bounded stream bytes limit)
unfolding read_bounded
read_bounded-Bounded stream bytes limit h =
    let room : ltb limit (length bytes) ≡ false = ground arith in
    rw room (elim (read_to-cases (limit - length bytes + 1) stream) [
      | inl e ↦ rw e fails
      | inr (got, e) ↦ elim (Bool-cases (ltb limit (length (bytes ++ got)))) [
        | inl over ↦ rw (e, over) exceeds
        | inr under ↦ rw (e, under) (within (bytes ++ got) (ge_of_ltb _ _ under))
      ]
    ])

-- A frame has a byte at least.
pub record Progress (d : Decoders) : Type 0 where
  pub shorter :
      (input rest : Bytes) (stream : Stream)
      → d.zstd_frame input ≡ some (stream, rest)
      → length rest < length input

module _ (d : Decoders) (p : Progress d) where
  module _ (fuel : ℕ) (limit : ℕ) where
    abbrev go_on : Bytes → Bytes → Result PackError Bytes
    go_on rest bytes' = elim rest [
      | [] ↦ ok bytes'
      | b ∷ bs ↦ read_frames d fuel (b ∷ bs) bytes' limit
    ]

    module _
        (ih : (input bytes : Bytes)
          → length input < fuel
          → length bytes ≤ limit
          → Bounded limit (read_frames d fuel input bytes limit)) where
      after :
          (rest : Bytes) (r : Result PackError Bytes)
          → Bounded limit r
          → length rest < fuel
          → Bounded limit (r >>= go_on rest)
      after [] r (within out k) room = within out k
      after (b ∷ bs) r (within out k) room = ih (b ∷ bs) out room k
      after rest r fails room = fails
      after rest r exceeds room = exceeds

      step :
          (input bytes : Bytes)
          → length input < suc fuel
          → length bytes ≤ limit
          → (o : Option (Stream × Bytes)) → d.zstd_frame input ≡ o
          → Bounded limit (
              ok_or corrupt o >>= λ (f : Stream × Bytes).
              read_bounded f.0 bytes limit >>= go_on (f.1))
      step input bytes f h none e = fails
      step input bytes f h (some (stream, rest)) e =
          let less = p.shorter input rest stream e in
          after rest (read_bounded stream bytes limit) (read_bounded-Bounded stream bytes limit h)
            (omega arith)

  read_frames-Bounded :
      (fuel : ℕ) (input bytes : Bytes) (limit : ℕ)
      → length input < fuel
      → length bytes ≤ limit
      → Bounded limit (read_frames d fuel input bytes limit)
  unfolding read_frames
  read_frames-Bounded zero input bytes limit f h = absurd (omega arith)
  read_frames-Bounded (suc fuel) input bytes limit f h =
      step fuel limit (λ i b g k. read_frames-Bounded fuel i b limit g k) input bytes f h
        (d.zstd_frame input) refl

  -- Where a frame has a byte at least, a compressed module is unpacked to no more bytes than the
  -- limit, all its frames together, or the error is one of the source: the room that is left never
  -- goes below zero, and the loop over the frames ends.
  pub unpack-Bounded :
      (packing : ModulePacking) (input : Bytes) (limit : ℕ)
      → is_keep packing ≡ false
      → Bounded limit (unpack d packing input limit)
  unfolding unpack
  unpack-Bounded packed_keep input limit k = cc
  unpack-Bounded gzip input limit k =
      read_bounded-Bounded (d.gzip_stream input) [] limit (omega arith)
  unpack-Bounded xz input limit k = read_bounded-Bounded (d.xz_stream input) [] limit (omega arith)
  unpack-Bounded zstd input limit k =
      read_frames-Bounded (suc (length input)) input [] limit (omega arith) (omega arith)
