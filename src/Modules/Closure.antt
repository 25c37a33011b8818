-- ===== src/Modules/Closure.antt =====
-- The closure over the dependencies (src/modules.rs: closure), a depth-first walk with an explicit
-- stack.
pub mod Invariant
pub mod Round
pub mod Measure
pub mod Exact
use arma.Base.{
  ℕ, zero, suc, ◌+◌, Bool, true, false, Option, none, some, List, [], ◌∷◌, ◌++◌, map, if◌then◌else◌,
  length, Result, ok, err, ◌>>=◌, ◌>>◌,
}
use arma.Base.Text.{Bytes}
use arma.Modules.Sets.{contains, insert, remove, get}

-- `Definitions`: each path with the set of its dependencies.
abbrev pub Definitions : Type 0
Definitions = List (Bytes × List Bytes)

-- A dependency cycle, an index with no entry, or no round left.
pub data Fault : Type 0 where
  cycle_at : Bytes → Fault
  panic : Fault
  out_of_fuel : Fault

-- The top of the stack is the head; the flag is `leaving`.
pub record Walk : Type 0 where
  pub done : List Bytes
  pub active : List Bytes
  pub stack : List (Bytes × Bool)

abbrev pub visits : List Bytes → List (Bytes × Bool)
visits deps = map (λ d. (d, false)) deps

-- A path that is entered: `definitions[&path]`, and its dependencies above the marker.
abbrev pub enter_with : Option (List Bytes) → Bytes → Walk → Result Fault Walk
enter_with none path w = err panic
enter_with (some deps) path w = ok (record {
  done = w.done;
  active = insert path w.active;
  stack = visits deps ++ (path, true) ∷ w.stack;
})

unfoldable pub enter : Definitions → Bytes → Walk → Result Fault Walk
unfolding get insert contains
enter defs path w =
    if contains path w.done
    then ok w
    else if contains path w.active
    then err (cycle_at path)
    else enter_with (get path defs) path w

-- A marker that is met again: its path is done.
unfoldable pub leave : Bytes → Walk → Walk
unfolding insert remove
leave path w = record { done = insert path w.done; active = remove path w.active; stack = w.stack }

-- One round, for the popped entry.
abbrev pub round : Definitions → Bytes × Bool → Walk → Result Fault Walk
round defs (path, true) w = ok (leave path w)
round defs (path, false) w = enter defs path w

abbrev pub popped : Walk → List (Bytes × Bool) → Walk
popped w rest = record { done = w.done; active = w.active; stack = rest }

-- `while let Some(..) = stack.pop()`, for at most `fuel` rounds.
unfoldable pub walk : ℕ → Definitions → Walk → Result Fault Walk
unfolding enter leave
walk zero defs w = err out_of_fuel
walk (suc fuel) defs w = elim w.stack [
  | [] ↦ ok w
  | top ∷ rest ↦ round defs top (popped w rest) >>= λ w'. walk fuel defs w'
]

-- The weight of the definitions: a marker and the dependencies of each path.
abbrev pub weight : Definitions → ℕ
weight [] = 0
weight ((p, deps) ∷ defs) = suc (length deps) + weight defs

unfoldable pub close_roots :
    Definitions → List Bytes → List Bytes → List Bytes → Result Fault (List Bytes)
unfolding walk
close_roots defs [] done active = ok done
close_roots defs (root ∷ roots) done active = do
  w ←
      walk (suc (suc (weight defs))) defs
        (record { done = done; active = active; stack = (root, false) ∷ [] })
  close_roots defs roots w.done w.active

unfoldable pub closure : Definitions → List Bytes → Result Fault (List Bytes)
unfolding close_roots
closure defs roots = close_roots defs roots [] []
