-- ===== src/Members.antt =====
-- Access to the members of values in src/vm/vm.cpp: readmembersymbol, readmembervalue,
-- setmembersymbol, setmembervalue and findprimitivevalue. Heap cells stand in a list, and the
-- address of one is its position. The names of SymbolTable are the arguments `names` and
-- `encode`, the texts that it and the address mapping give `decode` and `resolve_address`, and
-- the operations on texts `utf8_length` and `cp_at_index`, which gets the index as a number.
pub mod Laws
mod Tests
use charly_vm.Common.{ℕ, zero, suc, Bool, true, false, ◌&&◌, ◌||◌, ◌==◌, if◌then◌else◌}
use charly_vm.Common.{Option, none, some, List, [], ◌∷◌, length, get_elem?, set}
use charly_vm.Common.Int.{ℤ, pos}
use charly_vm.Value.Word.{Value, null_value, true_value, false_value}
use charly_vm.Value.Types.{
  ValueType, get_type, same_type, is_ptr, is_float, is_nan, is_number, as_pointer, create_pointer,
}
use charly_vm.Value.Integer.{Doubles, create_integer, int_to_int64}
use charly_vm.Value.Number.{truthyness}
use charly_vm.Heap.Container
use charly_vm.Heap.Container.{ContainerType}
use charly_vm.Heap.Array
use charly_vm.Heap.Array.{VectorType}

-- The fields of Function, CFunction and Class that members show.
pub record FunctionCell : Type 0 where
  pub name : Value
  pub host_class : Option ℕ
  pub minimum_argc : ℕ
  pub body_address : ℕ
  pub bound_self : Option Value
  pub container : ContainerType

pub record NativeCell : Type 0 where
  pub name : Value
  pub push_return_value : Bool
  pub argc : ℕ
  pub container : ContainerType

pub record ClassCell : Type 0 where
  pub name : Value
  pub constructor : Option ℕ
  pub prototype : Option ℕ
  pub parent_class : Option ℕ
  pub container : ContainerType

pub record FrameCell : Type 0 where
  pub parent : Option ℕ
  pub environment : Option ℕ
  pub function : ℕ
  pub self : Value

pub data Cell : Type 0 where
  object : Option ℕ → ContainerType → Cell
  function : FunctionCell → Cell
  native : NativeCell → Cell
  class : ClassCell → Cell
  array : VectorType → Cell
  frame : FrameCell → Cell
  other : ValueType → Cell

abbrev pub Store : Type 0
Store = List Cell

abbrev pub cell_type : Cell → ValueType
cell_type (object klass c) = ValueType.object
cell_type (function f) = ValueType.function
cell_type (native f) = ValueType.cfunction
cell_type (class k) = ValueType.class
cell_type (array xs) = ValueType.array
cell_type (frame f) = ValueType.frame
cell_type (other t) = t

-- Header::get_type of the cell at an address
unfoldable pub type_at : Store → ℕ → ValueType
type_at store address = elim (get_elem? store address) [
  | none ↦ ValueType.dead
  | some cell ↦ cell_type cell
]

abbrev pub pointer_or_null : Option ℕ → Value
pointer_or_null none = null_value
pointer_or_null (some address) = create_pointer address

-- The container of an object
abbrev pub object_container : Store → ℕ → Option ContainerType
object_container store address = elim (get_elem? store address) [
  | none ↦ none
  | some cell ↦ elim cell [ object klass c ↦ some c | _ ↦ none ]
]

-- Class::find_value on the heap, for a chain of at most `fuel` classes.
unfoldable pub find_value : ℕ → Store → ℕ → Value → Option Value
find_value zero store address symbol = none
find_value (suc fuel) store address symbol = elim (get_elem? store address) [
  | none ↦ none
  | some cell ↦ elim cell [
    | class k ↦ elim k.prototype [
      | none ↦ none
      | some p ↦ elim (object_container store p) [
        | none ↦ none
        | some c ↦ elim (Container.read c symbol) [
          | some v ↦ some v
          | none ↦ elim k.parent_class [ none ↦ none | some q ↦ find_value fuel store q symbol ]
        ]
      ]
    ]
    | _ ↦ none
  ]
]

-- The symbols of the members that are not in a container.
pub record Names : Type 0 where
  pub klass : Value
  pub name : Value
  pub host_class : Value
  pub argc : Value
  pub source_location : Value
  pub push_return_value : Value
  pub prototype : Value
  pub constructor : Value
  pub parent : Value
  pub length : Value
  pub parent_environment : Value
  pub function : Value
  pub self_value : Value
  pub bound_self : Value

-- The addresses of the primitive classes; `none` is a null pointer.
pub record Primitives : Type 0 where
  pub object : Option ℕ
  pub number : Option ℕ
  pub string : Option ℕ
  pub boolean : Option ℕ
  pub null : Option ℕ
  pub array : Option ℕ
  pub function : Option ℕ
  pub class : Option ℕ
  pub frame : Option ℕ
  pub value : Option ℕ

-- The `switch` of findprimitivevalue
unfoldable pub primitive_class : Primitives → ValueType → Option ℕ
primitive_class p ValueType.object = p.object
primitive_class p ValueType.number = p.number
primitive_class p ValueType.string = p.string
primitive_class p ValueType.boolean = p.boolean
primitive_class p ValueType.null = p.null
primitive_class p ValueType.array = p.array
primitive_class p ValueType.function = p.function
primitive_class p ValueType.cfunction = p.function
primitive_class p ValueType.class = p.class
primitive_class p ValueType.frame = p.frame
primitive_class p _ = p.value

-- charly_number_to_int64, in which charly_double_to_safe_double takes infinities and NaN, which is
-- boxed in one way only, as 0.
unfoldable pub number_to_int64 : Doubles → Value → ℤ
number_to_int64 fp v =
    if is_float v
    then (if is_nan v || fp.is_inf v then pos 0 else fp.to_int64 v)
    else int_to_int64 v

module _ (names : Names) (primitives : Primitives) where
  -- VM::findprimitivevalue. The `klass` of a null class, on which the source calls as_value, is
  -- null.
  unfoldable pub findprimitivevalue : Store → Value → Value → Option Value
  findprimitivevalue store value symbol =
      let klass = primitive_class primitives (get_type (type_at store) value) in
      if symbol == names.klass
      then some (pointer_or_null klass)
      else elim klass [ none ↦ none | some k ↦ find_value (length store) store k symbol ]

  module _ (decode : Value → Value) (resolve_address : ℕ → Option Value)
      (utf8_length : Value → ℕ) where
    -- The cases of readmembersymbol for heap cells; `none` is a `break`.
    unfoldable pub read_cell : Store → Cell → Value → Option Value
    read_cell store (object klass c) symbol =
        if symbol == names.klass
        then some
            (elim klass [ some k ↦ create_pointer k | none ↦ pointer_or_null primitives.object ])
        else elim (Container.read c symbol) [
          | some v ↦ some v
          | none ↦ elim klass [ none ↦ none | some k ↦ find_value (length store) store k symbol ]
        ]
    read_cell store (function f) symbol =
        if symbol == names.name
        then some (decode f.name)
        else if symbol == names.host_class
        then some (pointer_or_null f.host_class)
        else if symbol == names.argc
        then some (create_integer (pos f.minimum_argc))
        else if symbol == names.source_location
        then some (elim (resolve_address f.body_address) [ none ↦ null_value | some text ↦ text ])
        else Container.read f.container symbol
    read_cell store (native f) symbol =
        if symbol == names.name
        then some (decode f.name)
        else if symbol == names.push_return_value
        then some (if f.push_return_value then true_value else false_value)
        else if symbol == names.argc
        then some (create_integer (pos f.argc))
        else Container.read f.container symbol
    read_cell store (class k) symbol =
        if symbol == names.prototype
        then some (pointer_or_null k.prototype)
        else if symbol == names.constructor
        then some (pointer_or_null k.constructor)
        else if symbol == names.name
        then some (decode k.name)
        else if symbol == names.parent
        then some (pointer_or_null k.parent_class)
        else Container.read k.container symbol
    read_cell store (array xs) symbol =
        if symbol == names.length then some (create_integer (Array.size xs)) else none
    read_cell store (frame f) symbol =
        if symbol == names.parent
        then some (pointer_or_null f.parent)
        else if symbol == names.parent_environment
        then some (pointer_or_null f.environment)
        else if symbol == names.function
        then some (create_pointer f.function)
        else if symbol == names.self_value
        then some f.self
        else none
    read_cell store (other t) symbol = none

    -- The `switch` of readmembersymbol
    unfoldable pub read_own : Store → Value → Value → Option Value
    read_own store source symbol =
        if same_type (get_type (type_at store) source) ValueType.string
        then (if symbol == names.length
            then some (create_integer (pos (utf8_length source)))
            else none)
        else if is_ptr source
        then elim (get_elem? store (as_pointer source)) [
          | none ↦ none
          | some cell ↦ read_cell store cell symbol
        ]
        else none

    -- VM::readmembersymbol
    unfoldable pub readmembersymbol : Store → Value → Value → Value
    readmembersymbol store source symbol = elim (read_own store source symbol) [
      | some v ↦ v
      | none ↦ elim (findprimitivevalue store source symbol) [ some v ↦ v | none ↦ null_value ]
    ]

    module _ (fp : Doubles) (encode : Value → Value) (cp_at_index : Value → Value → Value) where
      -- VM::readmembervalue
      unfoldable pub readmembervalue : Store → Value → Value → Value
      readmembervalue store source value =
          let by_symbol = readmembersymbol store source (encode value) in
          if is_number value && same_type (get_type (type_at store) source) ValueType.string
          then cp_at_index source value
          else if is_number value && is_ptr source
          then elim (get_elem? store (as_pointer source)) [
            | none ↦ by_symbol
            | some cell ↦ elim cell [
              | array xs ↦ Array.read xs (number_to_int64 fp value)
              | _ ↦ by_symbol
            ]
          ]
          else by_symbol

  -- The cases of setmembersymbol: the cell after the assignment
  unfoldable pub write_cell : Doubles → Cell → Value → Value → Cell
  write_cell fp (object klass c) symbol value =
      if symbol == names.klass
      then object klass c
      else object klass (Container.write c symbol value)
  write_cell fp (function f) symbol value =
      if symbol == names.name
      then function f
      else if symbol == names.host_class
      then function f
      else if symbol == names.bound_self
      then function (record f { bound_self = some value })
      else function (record f { container = Container.write f.container symbol value })
  write_cell fp (native f) symbol value =
      if symbol == names.push_return_value
      then native (record f { push_return_value = truthyness fp value })
      else if symbol == names.name
      then native f
      else native (record f { container = Container.write f.container symbol value })
  write_cell fp (class k) symbol value =
      if symbol == names.prototype
      then class k
      else if symbol == names.constructor
      then class k
      else if symbol == names.name
      then class k
      else if symbol == names.parent
      then class k
      else class (record k { container = Container.write k.container symbol value })
  write_cell fp (array xs) symbol value = array xs
  write_cell fp (frame f) symbol value = frame f
  write_cell fp (other t) symbol value = other t

  -- VM::setmembersymbol; its result is the value.
  unfoldable pub setmembersymbol : Doubles → Store → Value → Value → Value → Store
  setmembersymbol fp store target symbol value =
      if is_ptr target
      then elim (get_elem? store (as_pointer target)) [
        | none ↦ store
        | some cell ↦ set store (as_pointer target) (write_cell fp cell symbol value)
      ]
      else store

  -- VM::setmembervalue, with its result
  unfoldable pub setmembervalue :
      Doubles → (Value → Value) → Store → Value → Value → Value → Store × Value
  setmembervalue fp encode store target member_value value =
      let by_symbol : Store × Value =
        (setmembersymbol fp store target (encode member_value) value, value) in
      if is_number member_value && is_ptr target
      then elim (get_elem? store (as_pointer target)) [
        | none ↦ by_symbol
        | some cell ↦ elim cell [
          | array xs ↦
              let r = Array.write xs (number_to_int64 fp member_value) value in
              (set store (as_pointer target) (array r.0), r.1)
          | _ ↦ by_symbol
        ]
      ]
      else by_symbol
