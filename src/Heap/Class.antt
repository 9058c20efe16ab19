-- ===== src/Heap/Class.antt =====
-- src/vm/primitives/class.cpp: classes, and the walks over their chain of parents.
-- A class holds its parent; the parent is fixed when the class is made, so the chain is finite.
-- A constructor is the address of its function.
pub mod Laws
use charly_vm.Common.{ℕ, Bool, true, false, if◌then◌else◌, Option, none, some}
use charly_vm.Common.{List, [], ◌∷◌, length}
use charly_vm.Value.Word.{Value, null_value}
use charly_vm.Heap.Container
use charly_vm.Heap.Container.{ContainerType}

-- The fields of one class; the parent is kept apart.
pub record ClassFields : Type 0 where
  pub name : Value
  pub constructor : Option ℕ
  pub prototype : Option ContainerType
  pub member_properties : List Value

pub data Class : Type 0 where
  root : ClassFields → Class
  derived : ClassFields → Class → Class

abbrev pub fields : Class → ClassFields
fields (root c) = c
fields (derived c parent) = c

-- Class::init
unfoldable pub class_fields : Value → Option ℕ → ClassFields
class_fields name ctor = record {
  name = name;
  constructor = ctor;
  prototype = none;
  member_properties = [];
}

-- Class::set_prototype
unfoldable pub set_prototype : ClassFields → ContainerType → ClassFields
set_prototype c p = record c { prototype = some p }

-- Class::get_member_property_count
unfoldable pub get_member_property_count : Class → ℕ
get_member_property_count c = length (fields c).member_properties

-- Class::find_value: a class with no prototype ends the search.
unfoldable pub find_value : Class → Value → Option Value
find_value (root c) symbol = elim c.prototype [ none ↦ none | some p ↦ Container.read p symbol ]
find_value (derived c parent) symbol =
    let above = find_value parent symbol in
    elim c.prototype [
      | none ↦ none
      | some p ↦ elim (Container.read p symbol) [ some v ↦ some v | none ↦ above ]
    ]

-- Class::find_super_value
unfoldable pub find_super_value : Class → Value → Option Value
find_super_value (root c) symbol = none
find_super_value (derived c parent) symbol = find_value parent symbol

-- Class::find_constructor
unfoldable pub find_constructor : Class → Option ℕ
find_constructor (root c) = c.constructor
find_constructor (derived c parent) =
    let above = find_constructor parent in elim c.constructor [ some f ↦ some f | none ↦ above ]

-- Class::find_super_constructor
unfoldable pub find_super_constructor : Class → Option ℕ
find_super_constructor (root c) = none
find_super_constructor (derived c parent) = find_constructor parent

-- The loop of Class::initialize_member_properties over the fields of one class.
unfoldable pub write_nulls : List Value → ContainerType → ContainerType
write_nulls [] o = o
write_nulls (f ∷ fs) o = write_nulls fs (Container.write o f null_value)

-- Class::initialize_member_properties: the parent's fields come first.
unfoldable pub initialize_member_properties : Class → ContainerType → ContainerType
initialize_member_properties (root c) o = write_nulls c.member_properties o
initialize_member_properties (derived c parent) o =
    write_nulls c.member_properties (initialize_member_properties parent o)
