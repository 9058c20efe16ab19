-- ===== src/Members/Laws.antt =====
-- Members of objects in src/vm/vm.cpp: methods of classes, and what an assignment changes.
use charly_vm.Common.{ℕ, zero, suc, ◌≤◌, ◌≡◌, ◌≢◌, refl, ◌∙◌, arith}
use charly_vm.Common.{
  true, false, ◌==◌, ≡→==, ≢→==, Option, none, some, [], ◌∷◌, length, get_elem?, set,
}
use charly_vm.Value.Word.{Value}
use charly_vm.Value.Types.{ValueType, get_type, same_type, type_index, is_ptr, as_pointer}
use charly_vm.Value.Integer.{Doubles}
use charly_vm.Heap.Container
use charly_vm.Heap.Container.{ContainerType}
use charly_vm.Heap.Container.Laws.{read-write}
use charly_vm.Heap.Class
use charly_vm.Heap.Class.{ClassFields, Class, root, derived}
use charly_vm.Members.{
  Cell, ClassCell, Store, Names, Primitives, type_at, object_container, find_value, read_cell,
  read_own, readmembersymbol, write_cell, setmembersymbol,
}

-- The class at an address has a prototype that holds the members of `c`.
abbrev pub Holds : Store → ClassCell → ClassFields → Type 0
Holds store k c =
    (p : ℕ) × (members : ContainerType) × ((k.prototype ≡ some p)
      × ((object_container store p ≡ some members) × (c.prototype ≡ some members)))

-- The heap has the chain of classes at an address.
pub data Represents (store : Store) : ℕ → Class → Type 0 where
  is_root :
      (address : ℕ) (k : ClassCell) (c : ClassFields)
      → get_elem? store address ≡ some (Cell.class k)
      → Holds store k c
      → k.parent_class ≡ none
      → Represents store address (root c)
  is_derived :
      (address parent_address : ℕ) (k : ClassCell) (c : ClassFields) (parent : Class)
      → get_elem? store address ≡ some (Cell.class k)
      → Holds store k c
      → k.parent_class ≡ some parent_address
      → Represents store parent_address parent
      → Represents store address (derived c parent)

abbrev pub depth : Class → ℕ
depth (root c) = 1
depth (derived c parent) = suc (depth parent)

get_elem?-replaced :
    (store : Store) (i : ℕ) {x y : Cell}
    → get_elem? store i ≡ some x
    → get_elem? (set store i y) i ≡ some y
get_elem?-replaced [] i e = cc
get_elem?-replaced (c ∷ store) zero e = refl
get_elem?-replaced (c ∷ store) (suc i) e = get_elem?-replaced store i e

no_depth : (c : Class) → depth c ≤ 0 → ⊥
no_depth (root c) l = omega (arith, l)
no_depth (derived c parent) l = omega (arith, l)

same_option : (o : Option Value) → elim o [ none ↦ none | some v ↦ some v ] ≡ o
same_option none = refl
same_option (some v) = refl

same_above :
    (x y : Option Value)
    → x ≡ y
    → (o : Option Value)
    → elim o [ none ↦ x | some v ↦ some v ] ≡ elim o [ none ↦ y | some v ↦ some v ]
same_above x y e none = e
same_above x y e (some v) = refl

-- Where the heap has the chain of classes at an address, and the fuel is at least its length,
-- the search of the heap finds what the search of the chain finds.
pub find_value-Represents :
    (store : Store) (fuel address : ℕ) (c : Class) (symbol : Value)
    → Represents store address c
    → depth c ≤ fuel
    → find_value fuel store address symbol ≡ Class.find_value c symbol
unfolding find_value Class.find_value
find_value-Represents store zero address c symbol r l = elim (no_depth c l) [ ]
find_value-Represents store (suc fuel) _ _ symbol
      (is_root address k c e (p, members, (a, (b, d))) q) l =
    rw (e, a, b, d, find_value, Class.find_value)
      (same_above (elim k.parent_class [ none ↦ none | some n ↦ find_value fuel store n symbol ])
          none (rw (q) refl) (Container.read members symbol)
        ∙ same_option (Container.read members symbol))
find_value-Represents store (suc fuel) _ _ symbol
      (is_derived address up k c parent e (p, members, (a, (b, d))) q r) l =
    rw (e, a, b, d, find_value, Class.find_value)
      (same_above (elim k.parent_class [ none ↦ none | some n ↦ find_value fuel store n symbol ])
        (Class.find_value parent symbol)
        (rw (q) (find_value-Represents store fuel up parent symbol r (omega (arith, l))))
        (Container.read members symbol))

module _ (names : Names) (primitives : Primitives) (decode : Value → Value)
    (resolve_address : ℕ → Option Value) (utf8_length : Value → ℕ) where
  object_type :
      (store : Store) (v : Value) (klass : Option ℕ) (c : ContainerType)
      → is_ptr v ≡ true
      → get_elem? store (as_pointer v) ≡ some (Cell.object klass c)
      → get_type (type_at store) v ≡ ValueType.object
  unfolding get_type type_at
  object_type store v klass c p e = rw (p, e, get_type, type_at) refl

  -- What readmembersymbol finds on an object before the primitive classes
  read_own-object :
      (store : Store) (v symbol : Value) (klass : Option ℕ) (c : ContainerType)
      → is_ptr v ≡ true
      → get_elem? store (as_pointer v) ≡ some (Cell.object klass c)
      → read_own names primitives decode resolve_address utf8_length store v symbol
        ≡ read_cell names primitives decode resolve_address utf8_length store
            (Cell.object klass c)
            symbol
  unfolding read_own read_cell same_type type_index
  read_own-object store v symbol klass c p e =
      rw (object_type store v klass c p e, p, e, read_own) refl

  -- A member other than `klass`, which an object does not have itself, is the one that the chain
  -- of its classes has, if the heap has this chain, and cells for at least its length.
  pub readmembersymbol-method :
      (store : Store) (v symbol method : Value) (k : ℕ) (members : ContainerType) (c : Class)
      → is_ptr v ≡ true
      → get_elem? store (as_pointer v) ≡ some (Cell.object (some k) members)
      → symbol ≢ names.klass
      → Container.read members symbol ≡ none
      → Represents store k c
      → depth c ≤ length store
      → Class.find_value c symbol ≡ some method
      → readmembersymbol names primitives decode resolve_address utf8_length store v symbol ≡ method
  unfolding readmembersymbol read_cell
  readmembersymbol-method store v symbol method k members c p e n o r l f =
      let cell : read_cell names primitives decode resolve_address utf8_length store
            (Cell.object (some k) members) symbol
          ≡ some method =
        rw (≢→== symbol names.klass n, o, read_cell)
          (find_value-Represents store (length store) k c symbol r l ∙ f) in
      let own = read_own-object store v symbol (some k) members p e ∙ cell in
      rw (own, readmembersymbol) refl

  -- A member of an object other than `klass` is read back as it was assigned, whatever its
  -- classes have.
  pub readmembersymbol-setmembersymbol :
      (fp : Doubles) (store : Store) (v symbol value : Value) (klass : Option ℕ)
      (members : ContainerType)
      → is_ptr v ≡ true
      → get_elem? store (as_pointer v) ≡ some (Cell.object klass members)
      → symbol ≢ names.klass
      → readmembersymbol names primitives decode resolve_address utf8_length
          (setmembersymbol names primitives fp store v symbol value)
          v
          symbol
        ≡ value
  unfolding readmembersymbol read_cell setmembersymbol write_cell
  readmembersymbol-setmembersymbol fp store v symbol value klass members p e n =
      let changed = Container.write members symbol value in
      let store' = set store (as_pointer v) (Cell.object klass changed) in
      let same : (symbol == names.klass) ≡ false = ≢→== symbol names.klass n in
      let written : setmembersymbol names primitives fp store v symbol value ≡ store' =
        rw (p, e, same, setmembersymbol) refl in
      let at : get_elem? store' (as_pointer v) ≡ some (Cell.object klass changed) =
        get_elem?-replaced store (as_pointer v) e in
      let here : Container.read changed symbol ≡ some value =
        read-write members symbol symbol value ∙ rw (≡→== symbol symbol refl) refl in
      let cell : read_cell names primitives decode resolve_address utf8_length store'
            (Cell.object klass changed) symbol
          ≡ some value =
        rw (same, here, read_cell) refl in
      let own = read_own-object store' v symbol klass changed p at ∙ cell in
      rw (written, own, readmembersymbol) refl
