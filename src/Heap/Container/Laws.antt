-- ===== src/Heap/Container/Laws.antt =====
-- What a container answers after each change, and that its keys stay distinct.
use charly_vm.Common.{◌+◌, ◌≡◌, refl, arith, ◌==◌, if◌then◌else◌}
use charly_vm.Common.{none, some, [], ◌∷◌}
use charly_vm.Value.Word.{Value}
use charly_vm.Heap.Container.{
  ContainerType, read, contains, keycount, write, erase, erase_key, assign,
}

-- No key has two entries, as in the map of the source.
abbrev pub DistinctKeys : ContainerType → Type 0
DistinctKeys [] = Unit
DistinctKeys ((k, v) ∷ c) = (read c k ≡ none) × DistinctKeys c

pub read-write :
    (c : ContainerType) (k j : Value) (v : Value)
    → read (write c k v) j ≡ (if k == j then some v else read c j)
unfolding read write
read-write [] k j v = refl
read-write ((i, w) ∷ c) k j v = ground (arith, read-write c k j v)

write-DistinctKeys : (c : ContainerType) (k v : Value) → DistinctKeys c → DistinctKeys (write c k v)
unfolding write read
write-DistinctKeys [] k v d = (refl, tt)
write-DistinctKeys ((i, w) ∷ c) k v d =
    ground (arith, write-DistinctKeys c k v d.1, read-write c k i v)

read-erase_key :
    (c : ContainerType) (k j : Value)
    → DistinctKeys c
    → read (erase_key c k) j ≡ (if k == j then none else read c j)
unfolding read erase_key
read-erase_key [] k j d = ground arith
read-erase_key ((i, w) ∷ c) k j d = ground (arith, read-erase_key c k j d.1)

erase_key-DistinctKeys :
    (c : ContainerType) (k : Value) → DistinctKeys c → DistinctKeys (erase_key c k)
unfolding erase_key
erase_key-DistinctKeys [] k d = tt
erase_key-DistinctKeys ((i, w) ∷ c) k d =
    ground (arith, erase_key-DistinctKeys c k d.1, read-erase_key c k i d.1)

-- On a container with distinct keys, a read after `write`, `erase` or `assign` gives what the
-- changed key holds and leaves every other key alone; `assign` changes only a key that exists.
pub read_after :
    (c : ContainerType) (k j v : Value)
    → DistinctKeys c
    → (read (write c k v) j ≡ (if k == j then some v else read c j))
      × (read (erase c k).0 j ≡ (if k == j then none else read c j))
      × (read (assign c k v).0 j
          ≡ (if contains c k then (if k == j then some v else read c j) else read c j))
unfolding erase assign
read_after c k j v d =
    (read-write c k j v, read-erase_key c k j d, ground (arith, read-write c k j v))

-- The three operations keep the keys distinct.
pub changes-DistinctKeys :
    (c : ContainerType) (k v : Value)
    → DistinctKeys c
    → DistinctKeys (write c k v) × DistinctKeys (erase c k).0 × DistinctKeys (assign c k v).0
unfolding erase assign
changes-DistinctKeys c k v d = (
  write-DistinctKeys c k v d,
  erase_key-DistinctKeys c k d,
  ground (arith, write-DistinctKeys c k v d),
)

-- `write` adds an entry exactly when the key is new.
pub keycount-write :
    (c : ContainerType) (k v : Value)
    → keycount (write c k v) ≡ (if contains c k then keycount c else keycount c + 1)
unfolding keycount write contains read
keycount-write [] k v = refl
keycount-write ((i, w) ∷ c) k v = ground (arith, keycount-write c k v)
