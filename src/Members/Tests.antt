-- ===== src/Members/Tests.antt =====
-- The theorems of the member access in src/vm/vm.cpp on a heap with a class, its prototype and an
-- object.
use charly_vm.Common.{ℕ, ◌≡◌, refl, arith, true, false, Option, none, some, [], ◌∷◌, get_elem?}
use charly_vm.Common.Int.{pos}
use charly_vm.Value.Word.{Value}
use charly_vm.Value.Types.{is_ptr, as_pointer, create_pointer}
use charly_vm.Value.Integer.{Doubles}
use charly_vm.Heap.Container
use charly_vm.Heap.Container.{ContainerType}
use charly_vm.Heap.Class
use charly_vm.Heap.Class.{ClassFields, Class, root}
use charly_vm.Members.{Cell, ClassCell, Store, Names, Primitives, readmembersymbol, setmembersymbol}
use charly_vm.Members.Laws.{
  Represents, is_root, readmembersymbol-method, readmembersymbol-setmembersymbol,
}

abbrev shape_cell : ClassCell
shape_cell = record {
  name = 50;
  constructor = none;
  prototype = some 0;
  parent_class = none;
  container = [];
}

abbrev members : ContainerType
members = (70, 71) ∷ []

abbrev heap : Store
heap = Cell.object none members ∷ Cell.class shape_cell ∷ Cell.object (some 1) [] ∷ []

abbrev shape_fields : ClassFields
shape_fields = record {
  name = 50;
  constructor = none;
  prototype = some members;
  member_properties = [];
}

shape-Represents : Represents heap 1 (root shape_fields)
shape-Represents = is_root 1 shape_cell shape_fields refl (0, members, (refl, (refl, refl))) refl

abbrev names : Names
names = record {
  klass = 1;
  name = 2;
  host_class = 3;
  argc = 4;
  source_location = 5;
  push_return_value = 6;
  prototype = 7;
  constructor = 8;
  parent = 9;
  length = 10;
  parent_environment = 11;
  function = 12;
  self_value = 13;
  bound_self = 14;
}

abbrev primitives : Primitives
primitives = record {
  object = some 1;
  number = some 1;
  string = some 1;
  boolean = some 1;
  null = some 1;
  array = some 1;
  function = some 1;
  class = some 1;
  frame = some 1;
  value = some 1;
}

abbrev same : Value → Value
same v = v

abbrev no_address : ℕ → Option Value
no_address a = none

abbrev no_length : Value → ℕ
no_length v = 0

abbrev instance_word : Value
instance_word = create_pointer 2

instance-is_ptr : is_ptr instance_word ≡ true
unfolding is_ptr create_pointer
instance-is_ptr = refl

instance_cell : get_elem? heap (as_pointer instance_word) ≡ some (Cell.object (some 1) [])
unfolding as_pointer create_pointer
instance_cell = refl

no_own : Container.read [] 70 ≡ none
unfolding Container.read
no_own = refl

shape_method : Class.find_value (root shape_fields) 70 ≡ some 71
unfolding Class.find_value Container.read
shape_method = refl

readmembersymbol-method_example :
    readmembersymbol names primitives same no_address no_length heap instance_word 70 ≡ 71
readmembersymbol-method_example =
    readmembersymbol-method names primitives same no_address no_length heap instance_word 70 71 1 []
      (root shape_fields) instance-is_ptr instance_cell (omega arith) no_own shape-Represents
      (omega arith) shape_method

abbrev ones : Doubles
ones = record {
  of_integer = λ n. 1;
  to_int64 = λ v. pos 1;
  is_integral = λ v. true;
  is_inf = λ v. false;
  add = λ a b. 1;
  sub = λ a b. 1;
  mul = λ a b. 1;
  div = λ a b. 1;
  fmod = λ a b. 1;
  pow = λ a b. 1;
  neg = λ a. 1;
  less = λ a b. false;
  less_eq = λ a b. true;
  equal = λ a b. true;
}

readmembersymbol-setmembersymbol_example :
    readmembersymbol names primitives same no_address no_length
      (setmembersymbol names primitives ones heap instance_word 70 99)
      instance_word
      70
    ≡ 99
readmembersymbol-setmembersymbol_example =
    readmembersymbol-setmembersymbol names primitives same no_address no_length ones heap
      instance_word 70 99 (some 1) [] instance-is_ptr instance_cell (omega arith)
