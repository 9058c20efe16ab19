-- ===== src/Heap/Tests.antt =====
-- The theorems of src/vm/primitives at concrete vectors, containers and classes.
use charly_vm.Common.{◌≡◌, ◌==◌, refl, if◌then◌else◌}
use charly_vm.Common.{none, some, [], ◌∷◌}
use charly_vm.Common.Int.{pos, negsuc}
use charly_vm.Heap.Array
use charly_vm.Heap.Array.{VectorType}
use charly_vm.Heap.Array.Access.{read-write}
use charly_vm.Heap.Container
use charly_vm.Heap.Container.{ContainerType}
use charly_vm.Heap.Container.Laws.{DistinctKeys, read_after}
use charly_vm.Heap.Class.{ClassFields, Class, find_value, find_constructor}
use charly_vm.Heap.Class.Laws.{lineage, prototypes, first_some, nearest}

abbrev numbers : VectorType
numbers = 10 ∷ 20 ∷ 30 ∷ []

read-write_example :
    Array.read (Array.write numbers (negsuc 0) 99).0 (pos 2)
    ≡ (if 2 == 2 then 99 else Array.read numbers (pos 2))
read-write_example = read-write numbers (negsuc 0) (pos 2) 99 refl refl

abbrev two_keys : ContainerType
two_keys = (1, 10) ∷ (2, 20) ∷ []

two_keys-DistinctKeys : DistinctKeys two_keys
unfolding Container.read
two_keys-DistinctKeys = (refl, (refl, tt))

read_after_example :
    (Container.read (Container.write two_keys 2 7) 1
      ≡ (if 2 == 1 then some 7 else Container.read two_keys 1))
    × (Container.read (Container.erase two_keys 2).0 1
        ≡ (if 2 == 1 then none else Container.read two_keys 1))
    × (Container.read (Container.assign two_keys 2 7).0 1 ≡ (
        if Container.contains two_keys 2
        then (if 2 == 1 then some 7 else Container.read two_keys 1)
        else Container.read two_keys 1))
read_after_example = read_after two_keys 2 1 7 two_keys-DistinctKeys

-- A class that inherits a method under the key 5.
abbrev child : Class
child =
    Class.derived
      (record { name = 1; constructor = none; prototype = some []; member_properties = 3 ∷ [] })
      (Class.root (record {
        name = 2;
        constructor = some 8;
        prototype = some ((5, 50) ∷ []);
        member_properties = 4 ∷ [];
      }))

nearest_example :
    (find_value child 5 ≡ first_some (λ p. Container.read p 5) (prototypes (lineage child)))
    × (find_constructor child ≡ first_some (λ (f : ClassFields). f.constructor) (lineage child))
nearest_example = nearest child 5
