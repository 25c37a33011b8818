-- ===== src/Modules/Resolve/Rules.antt =====
-- Results that end in an error of the source, if in an error at all.
use arma.Base.{
  ◌≡◌, refl, subst, Bool, true, false, Option, none, some, if◌then◌else◌, Result, ok, err, ok_or,
  refuse_if, ◌>>=◌, ◌>>◌,
}
use arma.Modules.Names.{ModuleError, panics, exhausted}

-- An error that the source reports.
abbrev pub is_message : ModuleError → Bool
is_message panics = false
is_message exhausted = false
is_message e = true

err-injective {ℓ} :
    {A : Type ℓ} (e f : ModuleError) → ◌≡◌ {A = Result ModuleError A} (err e) (err f) → e ≡ f
err-injective e f h = cc

-- No panic, and no walk that is cut off.
pub record Clean {ℓ} {A : Type ℓ} (r : Result ModuleError A) : Type ℓ where
  pub message : (e : ModuleError) → r ≡ err e → is_message e ≡ true

pub Clean-ok {ℓ} : {A : Type ℓ} (a : A) → Clean (ok a)
Clean-ok a = record { message = λ e h. absurd (let both = h in cc) }

pub Clean-err {ℓ} : {A : Type ℓ} (e : ModuleError) → is_message e ≡ true → Clean {A = A} (err e)
Clean-err e c = record { message = λ f h. subst (λ t. is_message t ≡ true) (err-injective e f h) c }

pub Clean-refuse_if : (b : Bool) (e : ModuleError) → is_message e ≡ true → Clean (refuse_if b e)
Clean-refuse_if true e c = Clean-err e c
Clean-refuse_if false e c = Clean-ok tt

pub Clean-ok_or {ℓ} :
    {A : Type ℓ} (e : ModuleError) (o : Option A) → is_message e ≡ true → Clean (ok_or e o)
Clean-ok_or e none c = Clean-err e c
Clean-ok_or e (some a) c = Clean-ok a

pub Clean-if {ℓ} :
    {A : Type ℓ} (b : Bool) {x y : Result ModuleError A}
    → Clean x
    → Clean y
    → Clean (if b then x else y)
Clean-if true c d = c
Clean-if false c d = d

pub Clean-bind {ℓ κ} :
    {A : Type ℓ} {B : Type κ} (m : Result ModuleError A) (f : A → Result ModuleError B)
    → Clean m
    → ((a : A) → m ≡ ok a → Clean (f a))
    → Clean (m >>= f)
Clean-bind (ok a) f c d = d a refl
Clean-bind (err e) f c d = Clean-err e (c.message e refl)

-- A refusal, and the rest.
pub Clean-unless {ℓ} :
    {B : Type ℓ} (b : Bool) (e : ModuleError) (m : Result ModuleError B)
    → is_message e ≡ true
    → Clean m
    → Clean (refuse_if b e >> m)
Clean-unless true e m c d = Clean-err e c
Clean-unless false e m c d = d

pub ruleset clean =
    (Clean-bind, Clean-ok_or, Clean-unless, Clean-ok, Clean-err, Clean-if, Clean-refuse_if)
