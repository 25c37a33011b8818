-- ===== src/Release/Agreed.antt =====
-- The release that is found is a safe component, and every banner agrees with it
-- (src/kernel_release.rs: detect).
use mathlib.Core.Option.{some-injective}
use arma.Base.{
  ℕ, ◌+◌, ◌≤◌, ◌<◌, ◌≡◌, inl, inr, sym, ap, ◌∙◌, subst, arith, Bool, true, false, not, ◌||◌,
  Bool-cases, Option, none, some, List, [], ◌∷◌, ◌++◌, ltb, min, take, ◌%◌, ◌/◌, ◌==◌,
  if◌then◌else◌, drop, length, Result, ok, ok_or, refuse_if, refuse_if-ok, bind-eq-ok, ok-injective,
  some_of_ok_or, ◌>>=◌,
}
use arma.Base.Text.{Bytes, codes, bytes_eq, bytes_eq_sound, before, contains, strip_prefix}
use arma.Release.{
  ReleaseError, malformed, prefix, max_release, all_safe, is_dots, validate_component, merge,
  parse_banner, strip_newline, no_identity, Section, Symbol, Goblin, or_bad, is_none, symbol_bytes,
  max_banner, nth,
}
use arma.Release.Detect.{
  is_banner_name, merge_symbols, entry_size, merge_dynsym, merge_sections, merge_tables, merge_elf,
  is_banner, merge_here, merge_banners, detect,
}

-- A release that is one path component on every host.
pub record IsComponent (release : Bytes) : Type 0 where
  pub some_bytes : 0 < length release
  pub at_most : length release ≤ max_release
  pub no_dots : is_dots release ≡ false
  pub safe : all_safe release ≡ true

pub validate_component-IsComponent :
    (release : Bytes) {u : Unit {0}} → validate_component release ≡ ok u → IsComponent release
unfolding validate_component
validate_component-IsComponent release h =
    let fine =
      refuse_if-ok
        (length release == 0
          || ltb max_release (length release)
          || is_dots release
          || not (all_safe release))
        malformed h in
    record {
      some_bytes = ground (arith);
      at_most = ground (arith);
      no_dots = ground (arith);
      safe = ground (arith);
    }

-- The byte before the rest of a text.
abbrev pub last_of : Option ℕ → Bytes → Option ℕ
last_of prev [] = prev
last_of prev (b ∷ bs) = last_of (some b) bs

merge-ok :
    (release : Option Bytes) (candidate : Bytes) (out : Option Bytes)
    → merge release candidate ≡ ok out
    → (out ≡ some candidate) × ((r : Bytes) → release ≡ some r → out ≡ some r)
unfolding merge
merge-ok none candidate out h = (sym (ok-injective _ _ h), λ r e. cc)
merge-ok (some first) candidate out h = elim (Bool-cases (bytes_eq first candidate)) [
  | inl e ↦
      let got : some first ≡ out = ok-injective _ _ (rw e at h) in
      let same = bytes_eq_sound first candidate e in (sym got ∙ ap some same, λ r k. sym got ∙ k)
  | inr e ↦ cc (rw e at h)
]

-- What a step finds is a component.
IsFound : Option Bytes → Type 0
IsFound none = Unit
IsFound (some r) = IsComponent r

IsFound-some : (r : Bytes) → IsComponent r → IsFound (some r)
unfolding IsFound
IsFound-some r c = c

IsFound-none : IsFound none
unfolding IsFound
IsFound-none = tt

IsComponent-of : {r : Bytes} → IsFound (some r) → IsComponent r
unfolding IsFound
IsComponent-of c = c

record Step (before after : Option Bytes) : Type 0 where
  kept : (r : Bytes) → before ≡ some r → after ≡ some r
  found : IsFound before → IsFound after

Step-refl : (a : Option Bytes) → Step a a
Step-refl a = record { kept = λ r e. e; found = λ h. h }

Step-trans : (a b c : Option Bytes) → Step a b → Step b c → Step a c
Step-trans a b c s t = record {
  kept = λ r e. t.kept r (s.kept r e);
  found = λ h. t.found (s.found h);
}

Step-if :
    (b : Bool) (m : Result ReleaseError (Option Bytes)) (release out : Option Bytes)
    → ((o : Option Bytes) → m ≡ ok o → Step release o)
    → (if b then m else ok release) ≡ ok out
    → Step release out
Step-if true m release out k h = k out h
Step-if false m release out k h = subst (Step release) (ok-injective _ _ h) (Step-refl release)

module _ (g : Goblin) where
  open g use {
    Elf, Strtab, section_headers, program_headers, parse_symtab, parse_strtab, symbol_tables,
    get_at, is_utf8,
  }

  parse_banner-IsComponent :
      (bytes release : Bytes) → parse_banner is_utf8 bytes ≡ ok release → IsComponent release
  unfolding parse_banner
  parse_banner-IsComponent bytes release h =
      let bounded = take (min (length bytes) (max_banner + 1)) bytes in
      let (_, _, h) = bind-eq-ok (refuse_if (not (contains 0 bounded)) malformed) _ h in
      let (tail, _, h) =
        bind-eq-ok (ok_or malformed (strip_prefix prefix (strip_newline (before 0 bounded)))) _ h in
      let (_, _, h) = bind-eq-ok (refuse_if (not (contains b' ' tail)) malformed) _ h in
      let (_, _, h) = bind-eq-ok (refuse_if (not (is_utf8 (before b' ' tail))) malformed) _ h in
      let (_, e, h) = bind-eq-ok (validate_component (before b' ' tail)) _ h in
      let (identity, _, h) =
        bind-eq-ok
          (ok_or malformed (strip_prefix (codes " (") (drop (length (before b' ' tail)) tail))) _
          h in
      let (_, _, h) = bind-eq-ok (refuse_if (no_identity identity) malformed) _ h in
      subst IsComponent (ok-injective _ _ h) (validate_component-IsComponent (before b' ' tail) e)

  Step-merge :
      (bytes candidate : Bytes) (release out : Option Bytes)
      → parse_banner is_utf8 bytes ≡ ok candidate
      → merge release candidate ≡ ok out
      → Step release out
  Step-merge bytes candidate release out e h =
      let (at, kept) = merge-ok release candidate out h in
      record {
        kept = kept;
        found = λ _.
            subst IsFound (sym at)
              (IsFound-some candidate (parse_banner-IsComponent bytes candidate e));
      }

  merge_symbols-Step :
      (bytes : Bytes) (elf : Elf) (symbols : List Symbol) (strings : Strtab)
      (release out : Option Bytes)
      → merge_symbols g bytes elf symbols strings release ≡ ok out
      → Step release out
  unfolding merge_symbols
  merge_symbols-Step bytes elf [] strings release out h =
      subst (Step release) (ok-injective _ _ h) (Step-refl release)
  merge_symbols-Step bytes elf (symbol ∷ symbols) strings release out h =
      let one = symbol_bytes bytes (section_headers elf) (program_headers elf) symbol >>= λ banner.
      parse_banner is_utf8 banner >>= λ candidate. merge release candidate in
      let (mid, e, h) =
        bind-eq-ok (if is_banner_name g (get_at strings symbol.st_name) then one else ok release) _
          h in
      Step-trans release mid out
        (Step-if (is_banner_name g (get_at strings symbol.st_name)) one release mid
          (λ o k.
            let (banner, _, k) =
              bind-eq-ok (symbol_bytes bytes (section_headers elf) (program_headers elf) symbol) _
                k in
            let (candidate, parsed, k) = bind-eq-ok (parse_banner is_utf8 banner) _ k in
            Step-merge banner candidate release o parsed k)
          e)
        (merge_symbols-Step bytes elf symbols strings mid out h)

  merge_dynsym-Step :
      (bytes : Bytes) (elf : Elf) (section : Section) (release out : Option Bytes)
      → merge_dynsym g bytes elf section release ≡ ok out
      → Step release out
  unfolding merge_dynsym
  merge_dynsym-Step bytes elf section release out h =
      let (_, _, h) =
        bind-eq-ok
          (refuse_if
            (not (section.sh_entsize == entry_size g elf)
              || not (section.sh_size % entry_size g elf == 0))
            malformed)
          _ h in
      let (symbols, _, h) =
        bind-eq-ok
          (or_bad (parse_symtab elf bytes section.sh_offset (section.sh_size / entry_size g elf))) _
          h in
      let (names, _, h) = bind-eq-ok (or_bad (nth section.sh_link (section_headers elf))) _ h in
      let (_, _, h) = bind-eq-ok (refuse_if (not (names.sh_type == 3)) malformed) _ h in
      let (strings, _, h) =
        bind-eq-ok (or_bad (parse_strtab bytes names.sh_offset names.sh_size)) _ h in
      merge_symbols-Step bytes elf symbols strings release out h

  merge_sections-Step :
      (bytes : Bytes) (elf : Elf) (sections : List Section) (release out : Option Bytes)
      → merge_sections g bytes elf sections release ≡ ok out
      → Step release out
  unfolding merge_sections
  merge_sections-Step bytes elf [] release out h =
      subst (Step release) (ok-injective _ _ h) (Step-refl release)
  merge_sections-Step bytes elf (section ∷ sections) release out h =
      let (mid, e, h) =
        bind-eq-ok
          (if section.sh_type == 11 then merge_dynsym g bytes elf section release else ok release) _
          h in
      Step-trans release mid out
        (Step-if (section.sh_type == 11) _ release mid
          (λ o k. merge_dynsym-Step bytes elf section release o k) e)
        (merge_sections-Step bytes elf sections mid out h)

  merge_tables-Step :
      (bytes : Bytes) (elf : Elf) (tables : List (List Symbol × Strtab))
      (release out : Option Bytes)
      → merge_tables g bytes elf tables release ≡ ok out
      → Step release out
  unfolding merge_tables
  merge_tables-Step bytes elf [] release out h =
      subst (Step release) (ok-injective _ _ h) (Step-refl release)
  merge_tables-Step bytes elf ((symbols, strings) ∷ tables) release out h =
      let (mid, e, h) = bind-eq-ok (merge_symbols g bytes elf symbols strings release) _ h in
      Step-trans release mid out (merge_symbols-Step bytes elf symbols strings release mid e)
        (merge_tables-Step bytes elf tables mid out h)

  merge_elf-Step :
      (bytes : Bytes) (elf : Option Elf) (out : Option Bytes)
      → merge_elf g bytes elf ≡ ok out
      → Step none out
  unfolding merge_elf
  merge_elf-Step bytes none out h = cc
  merge_elf-Step bytes (some elf) out h =
      let (mid, e, h) = bind-eq-ok (merge_sections g bytes elf (section_headers elf) none) _ h in
      Step-trans none mid out (merge_sections-Step bytes elf (section_headers elf) none mid e)
        (merge_tables-Step bytes elf (symbol_tables elf) mid out h)

  merge_here-Step :
      (prev : Option ℕ) (bytes : Bytes) (release out : Option Bytes)
      → merge_here g prev bytes release ≡ ok out
      → Step release out
  unfolding merge_here
  merge_here-Step prev bytes release out h =
      Step-if (is_banner g prev bytes) _ release out
        (λ o k.
          let (candidate, parsed, k) = bind-eq-ok (parse_banner is_utf8 bytes) _ k in
          Step-merge bytes candidate release o parsed k)
        h

  merge_banners-Step :
      (prev : Option ℕ) (bytes : Bytes) (release out : Option Bytes)
      → merge_banners g prev bytes release ≡ ok out
      → Step release out
  unfolding merge_banners
  merge_banners-Step prev [] release out h =
      subst (Step release) (ok-injective _ _ h) (Step-refl release)
  merge_banners-Step prev (b ∷ bytes) release out h =
      let (mid, e, h) = bind-eq-ok (merge_here g prev (b ∷ bytes) release) _ h in
      Step-trans release mid out (merge_here-Step prev (b ∷ bytes) release mid e)
        (merge_banners-Step (some b) bytes mid out h)

  -- A banner that is met says what is found.
  merge_here-banner :
      (prev : Option ℕ) (bytes : Bytes) (release out : Option Bytes)
      → merge_here g prev bytes release ≡ ok out
      → is_banner g prev bytes ≡ true
      → (r : Bytes) × (parse_banner is_utf8 bytes ≡ ok r) × (out ≡ some r)
  unfolding merge_here
  merge_here-banner prev bytes release out h at =
      let (candidate, parsed, k) = bind-eq-ok (parse_banner is_utf8 bytes) _ (rw at at h) in
      (candidate, parsed, (merge-ok release candidate out k).0)

  merge_banners-every :
      (prev : Option ℕ) (pre post : Bytes) (release out : Option Bytes)
      → merge_banners g prev (pre ++ post) release ≡ ok out
      → is_banner g (last_of prev pre) post ≡ true
      → (r : Bytes) × (parse_banner is_utf8 post ≡ ok r) × (out ≡ some r)
  unfolding merge_banners
  merge_banners-every prev [] [] release out h at = ground arith
  merge_banners-every prev [] (b ∷ post) release out h at =
      let (mid, e, h) = bind-eq-ok (merge_here g prev (b ∷ post) release) _ h in
      let (r, parsed, here) = merge_here-banner prev (b ∷ post) release mid e at in
      (r, parsed, (merge_banners-Step (some b) post mid out h).kept r here)
  merge_banners-every prev (b ∷ pre) post release out h at =
      let (mid, e, h) = bind-eq-ok (merge_here g prev (b ∷ (pre ++ post)) release) _ h in
      merge_banners-every (some b) pre post mid out h at

  elf-Step :
      (bytes : Bytes) (out : Option Bytes)
      → (if is_none (strip_prefix (0x7F ∷ codes "ELF") bytes)
          then ok none
          else merge_elf g bytes (g.parse bytes))
        ≡ ok out
      → Step none out
  elf-Step bytes out h = elim (Bool-cases (is_none (strip_prefix (0x7F ∷ codes "ELF") bytes))) [
    | inl e ↦ subst (Step none) (ok-injective _ _ (rw e at h)) (Step-refl none)
    | inr e ↦ merge_elf-Step bytes (g.parse bytes) out (rw e at h)
  ]

  -- The release that is found is one path component: of 1 to 255 graphic bytes, no separator or
  -- colon among them, and neither `.` nor `..`. Every banner in the bytes, at the start or behind a
  -- NUL, parses, and to that release.
  pub detect_agrees :
      (bytes release : Bytes)
      → detect g bytes ≡ ok release
      → IsComponent release
        × ((pre post : Bytes)
            → bytes ≡ pre ++ post
            → is_banner g (last_of none pre) post ≡ true
            → parse_banner is_utf8 post ≡ ok release)
  unfolding detect
  detect_agrees bytes release h =
      let (mid, e0, h) =
        bind-eq-ok
          (if is_none (strip_prefix (0x7F ∷ codes "ELF") bytes)
            then ok none
            else merge_elf g bytes (g.parse bytes))
          _ h in
      let (found, e1, h) = bind-eq-ok (merge_banners g none bytes mid) _ h in
      let at : found ≡ some release = some_of_ok_or _ _ h in
      let first = elf-Step bytes mid e0 in
      let second = merge_banners-Step none bytes mid found e1 in
      (
        IsComponent-of (subst IsFound at (second.found (first.found IsFound-none))),
        λ pre post e k.
            let (r, parsed, out) =
              merge_banners-every none pre post mid found
                (subst (λ t. merge_banners g none t mid ≡ ok found) e e1) k in
            let same : some r ≡ some release = sym out ∙ at in
            parsed ∙ ap ok (some-injective _ _ same),
      )
