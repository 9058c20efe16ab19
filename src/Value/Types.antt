-- ===== src/Value/Types.antt =====
-- include/value.h: the types of values, the tests on the tag of a word, and `charly_get_type`.
-- What a test reads from a heap cell's header is the argument `type_at`, by the cell's address.
pub mod Tags
use charly_vm.Common.{ℕ, ◌-◌, bit_and, bit_or, Bool, true, false, not, ◌&&◌, ◌||◌, ◌==◌, ltb}
use charly_vm.Common.{if◌then◌else◌}
use charly_vm.Value.Word.{Value, mask_exponent_bits, mask_signature, mask_pointer, max_pointer}
use charly_vm.Value.Word.{nan_value, false_value, true_value, null_value}
use charly_vm.Value.Word.{signature_pointer, signature_integer, signature_symbol}
use charly_vm.Value.Word.{signature_pstring, signature_istring, bit_not}

-- enum ValueType
pub data ValueType : Type 0 where
  dead class object array string function cfunction cpointer frame catchtable : ValueType
  number boolean null symbol unknown : ValueType

-- The position of a type in the enum, which indexes the tables of type names.
unfoldable pub type_index : ValueType → ℕ
type_index dead = 0
type_index class = 1
type_index object = 2
type_index array = 3
type_index string = 4
type_index function = 5
type_index cfunction = 6
type_index cpointer = 7
type_index frame = 8
type_index catchtable = 9
type_index number = 10
type_index boolean = 11
type_index null = 12
type_index symbol = 13
type_index unknown = 14

unfoldable pub same_type : ValueType → ValueType → Bool
same_type a b = type_index a == type_index b

unfoldable pub is_false : Value → Bool
is_false v = v == false_value

unfoldable pub is_true : Value → Bool
is_true v = v == true_value

unfoldable pub is_boolean : Value → Bool
is_boolean v = is_false v || is_true v

unfoldable pub is_null : Value → Bool
is_null v = v == null_value

unfoldable pub is_nan : Value → Bool
is_nan v = v == nan_value

unfoldable pub is_float : Value → Bool
is_float v = is_nan v || not (bit_and (bit_not v) mask_exponent_bits == 0)

unfoldable pub is_int : Value → Bool
is_int v = bit_and v mask_signature == signature_integer

unfoldable pub is_number : Value → Bool
is_number v = is_int v || is_float v

unfoldable pub is_symbol : Value → Bool
is_symbol v = bit_and v mask_signature == signature_symbol

unfoldable pub is_pstring : Value → Bool
is_pstring v = bit_and v mask_signature == signature_pstring

unfoldable pub is_istring : Value → Bool
is_istring v = bit_and v mask_signature == signature_istring

unfoldable pub is_immediate_string : Value → Bool
is_immediate_string v = is_istring v || is_pstring v

unfoldable pub is_ptr : Value → Bool
is_ptr v = bit_and v mask_signature == signature_pointer

-- `charly_as_pointer_to<T>`: the address that a pointer value holds.
unfoldable pub as_pointer : Value → ℕ
as_pointer v = bit_and v mask_pointer

-- `charly_create_pointer`
unfoldable pub create_pointer : ℕ → Value
create_pointer p =
    if p == 0
    then null_value
    else if ltb max_pointer p
    then signature_pointer
    else bit_or signature_pointer (bit_and mask_pointer p)

module _ (type_at : ℕ → ValueType) where
  unfoldable pub is_heap_type : Value → ValueType → Bool
  is_heap_type v t = is_ptr v && same_type (type_at (as_pointer v)) t

  unfoldable pub is_string : Value → Bool
  is_string v = is_istring v || is_pstring v || is_heap_type v string

  unfoldable pub get_type : Value → ValueType
  get_type v =
      if is_ptr v
      then type_at (as_pointer v)
      else if is_float v
      then number
      else if is_int v
      then number
      else if is_null v
      then null
      else if is_pstring v || is_istring v
      then string
      else if is_boolean v
      then boolean
      else if is_symbol v
      then symbol
      else unknown
