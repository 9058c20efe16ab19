-- ===== src/Heap/Class/Laws.antt =====
-- The walks over the parents of a class, against the list of the class and its ancestors.
use charly_vm.Common.{◌≡◌, refl, arith, Bool, false, ◌||◌, ◌==◌}
use charly_vm.Common.{if◌then◌else◌, Option, none, some, List, [], ◌∷◌, ◌++◌}
use charly_vm.Value.Word.{Value, null_value}
use charly_vm.Heap.Container
use charly_vm.Heap.Container.{ContainerType}
use charly_vm.Heap.Container.Laws.{read-write}
use charly_vm.Heap.Class.{ClassFields, Class, root, derived, find_value}
use charly_vm.Heap.Class.{find_constructor}
use charly_vm.Heap.Class.{write_nulls, initialize_member_properties}

-- The class and its ancestors, nearest first.
abbrev pub lineage : Class → List ClassFields
lineage (root c) = c ∷ []
lineage (derived c parent) = c ∷ lineage parent

-- The first answer of `f` along a list.
abbrev pub first_some {ℓ} : {A : Type 0} {B : Type ℓ} → (A → Option B) → List A → Option B
first_some f [] = none
first_some f (x ∷ xs) = elim (f x) [ some b ↦ some b | none ↦ first_some f xs ]

-- The ancestors that a search for a value may visit: up to the first without a prototype.
abbrev pub prototypes : List ClassFields → List ContainerType
prototypes [] = []
prototypes (c ∷ cs) = elim c.prototype [ none ↦ [] | some p ↦ p ∷ prototypes cs ]

-- A method is found in the nearest class of the parent chain that has it, up to the first class
-- without a prototype, and the constructor in the nearest class with one.
pub nearest :
    (c : Class) (symbol : Value)
    → (find_value c symbol ≡ first_some (λ p. Container.read p symbol) (prototypes (lineage c)))
      × (find_constructor c ≡ first_some (λ (f : ClassFields). f.constructor) (lineage c))
unfolding find_value find_constructor
nearest (root c) symbol = (ground arith, ground arith)
nearest (derived c parent) symbol =
    (ground (arith, (nearest parent symbol).0), ground (arith, (nearest parent symbol).1))

abbrev pub member : Value → List Value → Bool
member k [] = false
member k (f ∷ fs) = f == k || member k fs

-- The names of all member properties, inherited ones included.
abbrev pub all_members : Class → List Value
all_members (root c) = c.member_properties
all_members (derived c parent) = c.member_properties ++ all_members parent

member-append :
    (k : Value) (xs ys : List Value) → member k (xs ++ ys) ≡ (member k xs || member k ys)
member-append k [] ys = refl
member-append k (x ∷ xs) ys = ground (arith, member-append k xs ys)

read-write_nulls :
    (fs : List Value) (o : ContainerType) (k : Value)
    → Container.read (write_nulls fs o) k
      ≡ (if member k fs then some null_value else Container.read o k)
unfolding write_nulls
read-write_nulls [] o k = refl
read-write_nulls (f ∷ fs) o k =
    ground
      (arith, read-write_nulls fs (Container.write o f null_value) k, read-write o f k null_value)

-- A new object has each member property of its class and of the ancestors, with the value
-- `null`, and every other key as before.
pub read-initialize_member_properties :
    (c : Class) (o : ContainerType) (k : Value)
    → Container.read (initialize_member_properties c o) k
      ≡ (if member k (all_members c) then some null_value else Container.read o k)
unfolding initialize_member_properties
read-initialize_member_properties (root c) o k = read-write_nulls c.member_properties o k
read-initialize_member_properties (derived c parent) o k = ground (
  arith,
  read-write_nulls c.member_properties (initialize_member_properties parent o) k,
  read-initialize_member_properties parent o k,
  member-append k c.member_properties (all_members parent),
)
