-- ===== src/E820/Unbounded.antt =====
-- The e820 map without a limit on its length, and what the buffer adds to it
-- (deps/tatu/deps/dtb2e820/src/lib.rs: extract_e820).
use arma.Base.{
  ◌↔◌, ℕ, suc, ◌+◌, ◌-◌, ◌≤◌, ◌≡◌, refl, sym, ap, subst, arith, Bool, true, false, Option, none,
  some, List, [], ◌∷◌, ◌++◌, ◌==◌, if◌then◌else◌, length, Result, ok, err, ok_or, refuse_if,
  refuse_if-ok, bind-eq-ok, ok-injective, ◌>>=◌, length-append,
}
use mathlib.Core.Option.{some-injective}
use arma.Base.Text.{Bytes, codes, bytes_eq}
use arma.Devtree.{Devtree, top_segment}
use arma.E820.{
  E820Type, usable, reserved, E820Entry, Error, buffer_full, bad_reg_shape, cell_pair, append_cells,
  append_property, append_reg, strs_have, property_has, has_compatible, append_children,
  append_child, append_all, extract_e820,
}

-- One list after the other, where both are there.
abbrev pub both : Option (List E820Entry) → Option (List E820Entry) → Option (List E820Entry)
both (some es) (some fs) = some (es ++ fs)
both (some es) none = none
both none fs = none

-- The entries of a `reg` value: nothing for a partial group.
abbrev pub entries : E820Type → List ℕ → Option (List E820Entry)
entries kind [] = some []
entries kind (a ∷ []) = none
entries kind (a ∷ b ∷ []) = none
entries kind (a ∷ b ∷ c ∷ []) = none
entries kind (a ∷ b ∷ c ∷ d ∷ cells) =
    both (some (record { addr = cell_pair a b; size = cell_pair c d; kind = kind } ∷ []))
      (entries kind cells)

module _ (D : Devtree) where
  abbrev pub of_cells : E820Type → Option (List ℕ) → Option (List E820Entry)
  of_cells kind none = none
  of_cells kind (some cells) = entries kind cells

  abbrev pub of_property : E820Type → Option D.Property → Option (List E820Entry)
  of_property kind none = some []
  of_property kind (some reg) = of_cells kind (D.as_u32s reg)

  abbrev pub of_node : E820Type → D.Node → Option (List E820Entry)
  of_node kind node = of_property kind (D.property node (codes "reg"))

  abbrev pub of_each : (D.Node → Option (List E820Entry)) → List D.Node → Option (List E820Entry)
  of_each f [] = some []
  of_each f (n ∷ ns) = both (f n) (of_each f ns)

  -- One of the strings of a property is the text.
  abbrev pub names : Option (List Bytes) → Bytes → Bool
  names none text = false
  names (some []) text = false
  names (some (s ∷ ss)) text = if bytes_eq s text then true else names (some ss) text

  abbrev pub lists_name : Option D.Property → Bytes → Bool
  lists_name none text = false
  lists_name (some prop) text = names (D.as_strs prop) text

  -- A PCI host bridge with an ECAM window, by the strings of its `compatible`.
  abbrev pub is_ecam : D.Node → Bool
  is_ecam node = lists_name (D.property node (codes "compatible")) (codes "pci-host-ecam-generic")

  abbrev pub of_child : D.Node → Option (List E820Entry)
  of_child child =
      if bytes_eq (top_segment (D.name child)) (codes "memory")
      then of_node usable child
      else if bytes_eq (top_segment (D.name child)) (codes "reserved-memory")
      then of_each (of_node reserved) (D.children child)
      else if is_ecam child
      then of_node reserved child
      else some []

  -- The whole map of a tree.
  abbrev pub map_of : D.Tree → Option (List E820Entry)
  map_of tree = of_each of_child (D.children (D.root tree))

-- The run succeeds exactly with the map, where it fits.
record Within (spec : Option (List E820Entry)) (run : ℕ → Result Error (List E820Entry))
    : Type 0 where
  sound :
      (room : ℕ) (es : List E820Entry) → run room ≡ ok es → (spec ≡ some es) × (length es ≤ room)
  complete : (room : ℕ) (es : List E820Entry) → spec ≡ some es → length es ≤ room → run room ≡ ok es

both-some :
    (s s' : Option (List E820Entry)) (out : List E820Entry)
    → both s s' ≡ some out
    → (es : List E820Entry) × (fs : List E820Entry) × (s ≡ some es)
      × (s' ≡ some fs)
      × (es ++ fs ≡ out)
both-some (some es) (some fs) out h = (es, fs, refl, refl, some-injective _ _ h)
both-some (some es) none out h = cc
both-some none s' out h = cc

Within-none : Within (some []) (λ room. ok [])
Within-none = record {
  sound = λ room es h. (
    ap some (ok-injective _ _ h),
    subst (λ t. length t ≤ room) (ok-injective _ _ h) (omega arith),
  );
  complete = λ room es h n. ap ok (some-injective _ _ h);
}

Within-error : (e : Error) → Within none (λ room. err e)
Within-error e = record { sound = λ room es h. cc; complete = λ room es h n. cc }

-- One run behind the other, in the room that the first one leaves.
module _ (s s' : Option (List E820Entry)) (r r' : ℕ → Result Error (List E820Entry)) where
  abbrev then_run : ℕ → Result Error (List E820Entry)
  then_run room = do es ← r room; fs ← r' (room - length es); ok (es ++ fs)

  Within-both : Within s r → Within s' r' → Within (both s s') then_run
  Within-both w w' = record {
    sound = λ room out h.
        let (es, e0, h0) = bind-eq-ok (r room) _ h in
        let (fs, e1, h1) = bind-eq-ok (r' (room - length es)) _ h0 in
        let (at, fits) = w.sound room es e0 in
        let (at', fits') = w'.sound (room - length es) fs e1 in
        subst (λ t. (both s s' ≡ some t) × (length t ≤ room)) (ok-injective _ _ h1)
          (rw (at, at') refl, omega (arith, length-append es fs));
    complete = λ room out h n.
        let (es, fs, at, at', sum) = both-some s s' out h in
        let total : length es + length fs ≤ room =
          omega (arith, length-append es fs, ap (λ (t : List E820Entry). length t) sum) in
        let first = w.complete room es at (omega arith) in
        let second = w'.complete (room - length es) fs at' (omega arith) in
        rw (first, second) (ap ok sum);
  }

append_cells-Within :
    (kind : E820Type) (cells : List ℕ) → Within (entries kind cells) (append_cells kind cells)
unfolding append_cells
append_cells-Within kind [] = Within-none
append_cells-Within kind (a ∷ []) = Within-error bad_reg_shape
append_cells-Within kind (a ∷ b ∷ []) = Within-error bad_reg_shape
append_cells-Within kind (a ∷ b ∷ c ∷ []) = Within-error bad_reg_shape
append_cells-Within kind (a ∷ b ∷ c ∷ d ∷ cells) =
    let w = append_cells-Within kind cells in
    let e : E820Entry = record { addr = cell_pair a b; size = cell_pair c d; kind = kind } in
    record {
      sound = λ room out h.
          let (_, e0, h0) = bind-eq-ok (refuse_if (room == 0) buffer_full) _ h in
          let (es, e1, h1) = bind-eq-ok (append_cells kind cells (room - 1)) _ h0 in
          let (at, fits) = w.sound (room - 1) es e1 in
          let free = refuse_if-ok _ _ e0 in
          subst (λ t. (both (some (e ∷ [])) (entries kind cells) ≡ some t) × (length t ≤ room))
            (ok-injective _ _ h1) (rw at refl, ground arith);
      complete = λ room out h n.
          let (es, fs, at, at', sum) = both-some (some (e ∷ [])) (entries kind cells) out h in
          let head : e ∷ [] ≡ es = some-injective _ _ at in
          let whole : e ∷ fs ≡ out = subst (λ (t : List E820Entry). t ++ fs ≡ out) (sym head) sum in
          let total : suc (length fs) ≤ room =
            omega (arith, ap (λ (t : List E820Entry). length t) whole) in
          let free : (room == 0) ≡ false = ground arith in
          let rest = w.complete (room - 1) fs at' (omega arith) in rw free (rw rest (ap ok whole));
    }

module _ (D : Devtree) where
  of_cells-Within :
      (kind : E820Type) (cells : Option (List ℕ))
      → Within
          (of_cells D kind cells)
          (λ room. ok_or bad_reg_shape cells >>= λ cs. append_cells kind cs room)
  of_cells-Within kind none = Within-error bad_reg_shape
  of_cells-Within kind (some cells) = append_cells-Within kind cells

  append_property-Within :
      (kind : E820Type) (reg : Option D.Property)
      → Within (of_property D kind reg) (append_property D kind reg)
  unfolding append_property
  append_property-Within kind none = Within-none
  append_property-Within kind (some reg) = of_cells-Within kind (D.as_u32s reg)

  append_reg-Within :
      (kind : E820Type) (node : D.Node) → Within (of_node D kind node) (append_reg D kind node)
  unfolding append_reg
  append_reg-Within kind node = append_property-Within kind (D.property node (codes "reg"))

  append_children-Within :
      (subs : List D.Node) → Within (of_each D (of_node D reserved) subs) (append_children D subs)
  unfolding append_children
  append_children-Within [] = Within-none
  append_children-Within (sub ∷ subs) =
      Within-both _ _ _ _ (append_reg-Within reserved sub) (append_children-Within subs)

  branch-Within :
      (b : Bool) {s s' : Option (List E820Entry)} {r r' : ℕ → Result Error (List E820Entry)}
      → Within s r
      → Within s' r'
      → Within (if b then s else s') (λ room. if b then r room else r' room)
  branch-Within true w w' = w
  branch-Within false w w' = w'

  strs_have-names :
      (strs : Option (List Bytes)) (text : Bytes) → strs_have D strs text ≡ names D strs text
  strs_have-names none text = refl
  strs_have-names (some []) text = refl
  strs_have-names (some (s ∷ ss)) text = ground (arith, strs_have-names (some ss) text)

  property_has-lists_name :
      (prop : Option D.Property) (text : Bytes) → property_has D prop text ≡ lists_name D prop text
  property_has-lists_name none text = refl
  property_has-lists_name (some prop) text = strs_have-names (D.as_strs prop) text

  has_compatible-is_ecam :
      (node : D.Node) → has_compatible D node (codes "pci-host-ecam-generic") ≡ is_ecam D node
  unfolding has_compatible
  has_compatible-is_ecam node =
      property_has-lists_name (D.property node (codes "compatible")) (codes "pci-host-ecam-generic")

  append_child-Within : (child : D.Node) → Within (of_child D child) (append_child D child)
  unfolding append_child
  append_child-Within child =
      branch-Within (bytes_eq (top_segment (D.name child)) (codes "memory"))
        (append_reg-Within usable child)
        (branch-Within (bytes_eq (top_segment (D.name child)) (codes "reserved-memory"))
          (append_children-Within (D.children child))
          (subst
            (λ b. Within (if b then of_node D reserved child else some []) (λ room.
              if has_compatible D child (codes "pci-host-ecam-generic")
              then append_reg D reserved child room
              else ok []))
            (has_compatible-is_ecam child)
            (branch-Within (has_compatible D child (codes "pci-host-ecam-generic"))
              (append_reg-Within reserved child) Within-none)))

  append_all-Within :
      (children : List D.Node) → Within (of_each D (of_child D) children) (append_all D children)
  unfolding append_all
  append_all-Within [] = Within-none
  append_all-Within (child ∷ children) =
      Within-both _ _ _ _ (append_child-Within child) (append_all-Within children)

  -- The extraction into a buffer of `room` slots succeeds with the entries `es` exactly where the
  -- unbounded map of the tree (RAM for each memory node, reserved for the children of
  -- reserved-memory and for the ECAM hosts, in the order of the tree, every `reg` a whole number
  -- of groups) is `es` and its length is at most `room`.
  pub extract_e820_iff :
      (tree : D.Tree) (room : ℕ) (es : List E820Entry)
      → (extract_e820 D tree room ≡ ok es) ↔ (map_of D tree ≡ some es) × (length es ≤ room)
  unfolding extract_e820
  extract_e820_iff tree room es =
      let w = append_all-Within (D.children (D.root tree)) in
      (w.sound room es, λ (at, n). w.complete room es at n)
