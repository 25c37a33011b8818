-- ===== src/Modules/Tests.antt =====
-- Small sets of definitions (src/modules.rs: closure).
use mathlib.Core.Option.{some-injective}
use arma.Base.{
  ap, ◌≡◌, ◌⊎◌, refl, sym, ◌↔◌, Bool, true, false, Option, none, some, List, [], ◌∷◌, ◌++◌, map,
  length, ◌<◌, if◌then◌else◌, ok, err, arith,
}
use arma.Base.Text.{Bytes, codes, bytes_eq}
use arma.Modules.Sets.{contains, insert, remove, get}
use arma.Modules.Closure.{Definitions, cycle_at, closure, close_roots, walk, enter, leave}
use arma.Modules.Closure.Invariant.{Needs, Leads}
use arma.Modules.Closure.Exact.{closure_exact}
use arma.Modules.Tree.{Host, not_found, file}
use arma.Modules.Index.{Names, check_index}
use arma.Modules.Resolve.{read_index, select, choose_one, find_tree, resolve, Selection, ModuleFile}
use arma.Modules.Resolve.Exact.{Selected, select-Selected, checked-IsDefined}
use arma.Modules.Resolve.Rules.{Clean}
use arma.Modules.Resolve.Clean.{resolve-Clean, keys-known}
use arma.Modules.Packing.{Decoders, Stream, Progress, unpack, unpack-Bounded, Bounded, zstd}

abbrev three : Definitions
three =
    (codes "a", codes "b" ∷ codes "c" ∷ [])
    ∷ (codes "b", codes "c" ∷ [])
    ∷ (codes "c", [])
    ∷ (codes "d", [])
    ∷ []

abbrev wants_a : List Bytes
wants_a = codes "a" ∷ []

three_closed : closure three wants_a ≡ ok (codes "a" ∷ codes "b" ∷ codes "c" ∷ [])
unfolding closure close_roots walk enter leave insert remove contains get
three_closed = refl

abbrev loop : Definitions
loop = (codes "a", codes "b" ∷ []) ∷ (codes "b", codes "a" ∷ []) ∷ []

loop_found : closure loop wants_a ≡ err (cycle_at (codes "a"))
unfolding closure close_roots walk enter leave insert remove contains get
loop_found = refl

abbrev chosen : Bytes → Bytes
chosen name =
    if bytes_eq name (codes "modules.dep")
    then codes "a.ko: b.ko" ++ (10 ∷ codes "b.ko:")
    else if bytes_eq name (codes "modules.builtin")
    then codes "c.ko.gz"
    else codes "text of" ++ name

abbrev content : List Bytes → Option Bytes
content [] = none
content (name ∷ names) = some (chosen name)

-- A tree with two modules and a built-in one.
abbrev small : Host
small = record {
  stat = λ _. not_found;
  canonicalize = λ p. some p;
  is_dir = λ _. true;
  symlink_metadata = λ _ _. some file;
  is_inside = λ _ _. some true;
  opened = λ _ _. some (true, 20);
  read_to_end = λ _ p. content p;
  is_utf8 = λ _. true;
}

abbrev small_defs : Definitions
small_defs = (codes "a.ko", codes "b.ko" ∷ []) ∷ (codes "b.ko", []) ∷ []

abbrev small_names : Names
small_names = (codes "a", some (codes "a.ko")) ∷ (codes "c", none) ∷ []

abbrev small_roots : List Bytes
small_roots = codes "a" ∷ codes "c" ∷ []

small_index : read_index small (codes "/t") small_roots ≡ ok (small_defs, small_names)
unfolding read_index
small_index = refl

small_checked : check_index small (codes "/t") small_defs small_defs ≡ ok tt
unfolding check_index
small_checked = refl

abbrev small_keys : List Bytes
small_keys = map (λ d. d.0) small_defs

abbrev small_file : Bytes → Bool → ModuleFile
small_file name root = record {
  relative = name ∷ [];
  bytes = codes "text of" ++ name;
  is_root = root;
}

abbrev small_selection : Selection
small_selection = record {
  tree = codes "/t";
  builtins = codes "c" ∷ [];
  files = small_file (codes "a.ko") true ∷ small_file (codes "b.ko") false ∷ [];
}

small_selected :
    select small (codes "/t") small_roots (small_defs, small_names) ≡ ok small_selection
unfolding select choose_one
small_selected = refl

small_resolved : resolve small (codes "6.1") (some (codes "/t")) small_roots ≡ ok small_selection
unfolding resolve find_tree choose_one
small_resolved = refl

-- Frames of one byte.
abbrev one_byte : Bytes → Option (Stream × Bytes)
one_byte [] = none
one_byte (b ∷ bs) = some (record { given = b ∷ b ∷ []; fails = false }, bs)

abbrev doubling : Decoders
doubling = record {
  gzip_stream = λ b. record { given = b; fails = true };
  xz_stream = λ b. record { given = b; fails = false };
  zstd_frame = one_byte;
}

two_frames : unpack doubling zstd (7 ∷ 8 ∷ []) 4 ≡ ok (7 ∷ 7 ∷ 8 ∷ 8 ∷ [])
unfolding unpack
two_frames = refl

doubling-Progress : Progress doubling
doubling-Progress = record { shorter = shorter }
  where
    shorter :
        (input rest : Bytes) (stream : Stream)
        → one_byte input ≡ some (stream, rest)
        → length rest < length input
    shorter [] rest stream e = cc
    shorter (b ∷ bs) rest stream e =
        let same : bs ≡ rest = ap (λ t. t.1) (some-injective _ _ e) in rw (sym same) (omega arith)

closure_exact_example :
    ((done : List Bytes) × (closure small_defs small_keys ≡ ok done)
      × ((p : Bytes) → (contains p done ≡ true) ↔ Needs small_defs small_keys p))
    ⊎ ((p : Bytes) × (closure small_defs small_keys ≡ err (cycle_at p)) × Leads small_defs p p)
closure_exact_example = closure_exact small_defs small_keys (
    checked-IsDefined small (codes "/t") small_defs small_names small_keys small_checked
      (keys-known small_defs))

select-Selected_example :
    Selected small (codes "/t") small_roots small_defs small_names small_selection
select-Selected_example =
    select-Selected small (codes "/t") small_roots small_defs small_names small_selection
      small_index small_selected

resolve-Clean_example : Clean (resolve small (codes "6.1") (some (codes "/t")) small_roots)
resolve-Clean_example = resolve-Clean small (codes "6.1") (some (codes "/t")) small_roots

unpack-Bounded_example : Bounded 4 (unpack doubling zstd (7 ∷ 8 ∷ []) 4)
unpack-Bounded_example = unpack-Bounded doubling doubling-Progress zstd (7 ∷ 8 ∷ []) 4 refl
