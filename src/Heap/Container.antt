-- ===== src/Heap/Container.antt =====
-- src/vm/primitives/container.cpp: the table of an object, function or class, from keys to values.
-- `std::unordered_map` is a list of entries; its iteration order is not fixed, and no theorem
-- depends on it.
pub mod Laws
use charly_vm.Common.{ℕ, Bool, true, false, not, ◌||◌, ◌==◌, if◌then◌else◌, Option, none, some}
use charly_vm.Common.{List, [], ◌∷◌, length}
use charly_vm.Value.Word.{Value}

abbrev pub ContainerType : Type 0
ContainerType = List (Value × Value)

-- Container::read: `none` is the result `false`.
unfoldable pub read : ContainerType → Value → Option Value
read [] key = none
read ((k, v) ∷ c) key = if k == key then some v else read c key

-- Container::read_or
unfoldable pub read_or : ContainerType → Value → Value → Value
read_or c key fallback = elim (read c key) [ none ↦ fallback | some v ↦ v ]

-- Container::contains
unfoldable pub contains : ContainerType → Value → Bool
contains c key = elim (read c key) [ none ↦ false | some v ↦ true ]

-- Container::keycount
unfoldable pub keycount : ContainerType → ℕ
keycount c = length c

-- Container::write
unfoldable pub write : ContainerType → Value → Value → ContainerType
write [] key v = (key, v) ∷ []
write ((k, w) ∷ c) key v = if k == key then (key, v) ∷ c else (k, w) ∷ write c key v

erase_key : ContainerType → Value → ContainerType
erase_key [] key = []
erase_key ((k, v) ∷ c) key = if k == key then c else (k, v) ∷ erase_key c key

-- Container::erase, with its result
unfoldable pub erase : ContainerType → Value → ContainerType × Bool
unfolding erase_key
erase c key = (erase_key c key, contains c key)

-- Container::assign, with its result
unfoldable pub assign : ContainerType → Value → Value → ContainerType × Bool
assign c key v = if not (contains c key) then (c, false) else (write c key v, true)
