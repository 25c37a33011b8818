-- ===== src/Modules/Sets.antt =====
-- Ordered sets and maps of texts, for BTreeSet<String> and BTreeMap<String, _> in src/modules.rs:
-- lists in the order of the bytes.
use arma.Base.{
  ◌≡◌, refl, ◌↔◌, arith, Bool, true, false, not, ◌&&◌, ◌||◌, Option, none, some, List, [], ◌∷◌,
  ◌++◌, ltb, ◌==◌, if◌then◌else◌, keep,
}
use arma.Base.Text.{Bytes, bytes_eq, bytes_eq_sound, bytes_eq_refl}

-- `str` in the order of its bytes.
abbrev pub text_lt : Bytes → Bytes → Bool
text_lt [] [] = false
text_lt [] (y ∷ ys) = true
text_lt (x ∷ xs) [] = false
text_lt (x ∷ xs) (y ∷ ys) = if x == y then text_lt xs ys else ltb x y

-- `BTreeSet::contains`
unfoldable pub contains : Bytes → List Bytes → Bool
contains p [] = false
contains p (x ∷ xs) = bytes_eq p x || contains p xs

-- `BTreeSet::insert`
unfoldable pub insert : Bytes → List Bytes → List Bytes
insert p [] = p ∷ []
insert p (x ∷ xs) =
    if bytes_eq p x then x ∷ xs else if text_lt p x then p ∷ x ∷ xs else x ∷ insert p xs

-- `BTreeSet::remove`
unfoldable pub remove : Bytes → List Bytes → List Bytes
remove p s = keep (λ x. not (bytes_eq p x)) s

-- `BTreeMap::get`, and `insert` in the order of the keys.
module _ {ℓ} {V : Type ℓ} where
  unfoldable pub get : Bytes → List (Bytes × V) → Option V
  get p [] = none
  get p ((k, v) ∷ m) = if bytes_eq p k then some v else get p m

  unfoldable pub put : Bytes → V → List (Bytes × V) → List (Bytes × V)
  put p v [] = (p, v) ∷ []
  put p v ((k, w) ∷ m) =
      if bytes_eq p k
      then (k, v) ∷ m
      else if text_lt p k
      then (p, v) ∷ (k, w) ∷ m
      else (k, w) ∷ put p v m

pub bytes_eq_iff : (p q : Bytes) → (bytes_eq p q ≡ true) ↔ (p ≡ q)
bytes_eq_iff p q = (bytes_eq_sound p q, λ e. rw e (bytes_eq_refl q))

pub contains-insert :
    (q p : Bytes) (s : List Bytes) → contains q (insert p s) ≡ (bytes_eq q p || contains q s)
unfolding contains insert
contains-insert q p [] = refl
contains-insert q p (x ∷ xs) =
    ground (arith, contains-insert q p xs, bytes_eq_iff p x, bytes_eq_iff q p, bytes_eq_iff q x)

pub contains-remove :
    (q p : Bytes) (s : List Bytes) → contains q (remove p s) ≡ (not (bytes_eq p q) && contains q s)
unfolding contains remove
contains-remove q p [] = ground arith
contains-remove q p (x ∷ xs) =
    ground (arith, contains-remove q p xs, bytes_eq_iff p x, bytes_eq_iff p q, bytes_eq_iff q x)

pub contains-append :
    (q : Bytes) (s t : List Bytes) → contains q (s ++ t) ≡ (contains q s || contains q t)
unfolding contains
contains-append q [] t = refl
contains-append q (x ∷ s) t = ground (arith, contains-append q s t)

pub get-put {ℓ} :
    {V : Type ℓ} (q p : Bytes) (v : V) (m : List (Bytes × V))
    → get q (put p v m) ≡ (if bytes_eq q p then some v else get q m)
unfolding get put
get-put q p v [] = refl
get-put q p v ((k, w) ∷ m) =
    ground (arith, get-put q p v m, bytes_eq_iff p k, bytes_eq_iff q p, bytes_eq_iff q k)
