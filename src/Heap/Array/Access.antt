-- ===== src/Heap/Array/Access.antt =====
-- The methods of `Array` in terms of positions: what is read, written, inserted and removed, and
-- that an index out of bounds changes nothing.
use charly_vm.Common.{ℕ, zero, suc, ◌≤◌, ◌<◌, ◌≡◌, ◌≢◌, refl, arith, ap, ◌∙◌}
use charly_vm.Common.{true, false, ◌||◌, if◌then◌else◌, none, some}
use charly_vm.Common.{[], ◌∷◌, ◌++◌, length, get_or, set, take, drop}
use charly_vm.Common.Int.{ℤ, pos, negsuc, ◌+ℤ◌, ltb_ℤ, leb_ℤ}
use charly_vm.Value.Word.{Value, null_value}
use charly_vm.Common.{◌==◌, length-set}
use charly_vm.Value.Number.{eqb_ℤ}
use charly_vm.Value.Types.{ValueType, get_type, same_type}
use charly_vm.Common.{◌↔◌}
use charly_vm.Heap.Array.{
  contains_only, push, VectorType, insert_at, erase_at, wrap_index, read, write, insert, remove,
}
use charly_vm.Heap.Array.Position.{position, position_bounds}

-- The wrapped index of a position in the vector is that position.
wrap_index-some :
    (xs : VectorType) (i : ℤ) {k : ℕ}
    → position (length xs) i ≡ some k
    → (wrap_index xs i ≡ pos k) × (k < length xs)
unfolding wrap_index ◌+ℤ◌
wrap_index-some xs (pos n) p = ground arith
wrap_index-some xs (negsuc n) p = ground arith

-- An index that names no position is negative or past the end, also after wrapping.
wrap_index-none :
    (xs : VectorType) (i : ℤ)
    → position (length xs) i ≡ none
    → (ltb_ℤ (wrap_index xs i) (pos 0) || leb_ℤ (pos (length xs)) (wrap_index xs i)) ≡ true
unfolding wrap_index ◌+ℤ◌
wrap_index-none xs (pos n) p = ground arith
wrap_index-none xs (negsuc n) p = ground arith

-- Apart from the end itself, where an element is appended, it is out of bounds for a write too.
wrap_index_outside :
    (xs : VectorType) (i : ℤ)
    → position (length xs) i ≡ none
    → i ≢ pos (length xs)
    → (ltb_ℤ (wrap_index xs i) (pos 0) || ltb_ℤ (pos (length xs)) (wrap_index xs i)) ≡ true
unfolding wrap_index ◌+ℤ◌
wrap_index_outside xs (pos n) p ne = ground arith
wrap_index_outside xs (negsuc n) p ne = ground arith

not_end : (n : ℕ) (i : ℤ) {k : ℕ} → position n i ≡ some k → eqb_ℤ i (pos n) ≡ false
not_end n (pos m) p = ground arith
not_end n (negsuc m) p = ground arith

not_size : (n : ℕ) (i : ℤ) → i ≢ pos n → eqb_ℤ i (pos n) ≡ false
not_size n (pos m) ne = ground arith
not_size n (negsuc m) ne = ground arith

get_or-set :
    (xs : VectorType) (k l : ℕ) (v : Value)
    → k < length xs
    → get_or (set xs k v) l null_value ≡ (if k == l then v else get_or xs l null_value)
get_or-set [] k l v h = elim h [ ]
get_or-set (x ∷ xs) zero zero v h = refl
get_or-set (x ∷ xs) zero (suc l) v h = ground arith
get_or-set (x ∷ xs) (suc k) zero v h = ground arith
get_or-set (x ∷ xs) (suc k) (suc l) v h = ground (arith, get_or-set xs k l v)

length-insert_at :
    (xs : VectorType) (k : ℕ) (v : Value)
    → k ≤ length xs
    → length (insert_at xs k v) ≡ suc (length xs)
unfolding insert_at
length-insert_at xs zero v h = refl
length-insert_at [] (suc k) v h = absurd (omega arith)
length-insert_at (x ∷ xs) (suc k) v h = ap suc (length-insert_at xs k v (omega arith))

insert_at-eq :
    (xs : VectorType) (k : ℕ) (v : Value)
    → k ≤ length xs
    → insert_at xs k v ≡ take k xs ++ v ∷ drop k xs
unfolding insert_at
insert_at-eq xs zero v h = refl
insert_at-eq [] (suc k) v h = absurd (omega arith)
insert_at-eq (x ∷ xs) (suc k) v h = ap (◌∷◌ x) (insert_at-eq xs k v (omega arith))

erase_at-insert_at :
    (xs : VectorType) (k : ℕ) (v : Value) → k ≤ length xs → erase_at (insert_at xs k v) k ≡ xs
unfolding insert_at erase_at
erase_at-insert_at xs zero v h = refl
erase_at-insert_at [] (suc k) v h = absurd (omega arith)
erase_at-insert_at (x ∷ xs) (suc k) v h = ap (◌∷◌ x) (erase_at-insert_at xs k v (omega arith))

module _ (xs : VectorType) (i : ℤ) where
  pub read-some : {k : ℕ} → position (length xs) i ≡ some k → read xs i ≡ get_or xs k null_value
  unfolding read
  read-some p = ground (arith, wrap_index-some xs i p)

  pub read-none : position (length xs) i ≡ none → read xs i ≡ null_value
  unfolding read
  read-none p = rw (wrap_index-none xs i p)

  pub write-some :
      {k : ℕ} (v : Value) → position (length xs) i ≡ some k → write xs i v ≡ (set xs k v, v)
  unfolding write
  write-some v p = ground (arith, not_end (length xs) i p, wrap_index-some xs i p)

  pub insert-some :
      {k : ℕ} (v : Value) → position (length xs) i ≡ some k → insert xs i v ≡ insert_at xs k v
  unfolding insert
  insert-some v p = ground (arith, not_end (length xs) i p, wrap_index-some xs i p)

  pub remove-some : {k : ℕ} → position (length xs) i ≡ some k → remove xs i ≡ erase_at xs k
  unfolding remove
  remove-some p = ground (arith, wrap_index-some xs i p)

  -- An index that is neither in the vector nor its end changes nothing, and a read or a write
  -- there gives `null`.
  pub out_of_bounds :
      (v : Value)
      → position (length xs) i ≡ none
      → i ≢ pos (length xs)
      → (read xs i ≡ null_value)
        × (write xs i v ≡ (xs, null_value))
        × (insert xs i v ≡ xs)
        × (remove xs i ≡ xs)
  unfolding write insert remove
  out_of_bounds v p ne = (
    read-none p,
    ground (arith, not_size (length xs) i ne, wrap_index_outside xs i p ne),
    ground (arith, not_size (length xs) i ne, wrap_index_outside xs i p ne),
    rw (wrap_index-none xs i p),
  )

  -- At the end an element is appended.
  pub append_at_end :
      (v : Value)
      → i ≡ pos (length xs)
      → (write xs i v ≡ (xs ++ v ∷ [], v)) × (insert xs i v ≡ push xs v)
  unfolding write insert push
  append_at_end v e = (ground arith, ground arith)

-- A write is read back at every index that names its position, and at no other.
pub read-write :
    (xs : VectorType) (i j : ℤ) (v : Value) {k l : ℕ}
    → position (length xs) i ≡ some k
    → position (length xs) j ≡ some l
    → read (write xs i v).0 j ≡ (if k == l then v else read xs j)
read-write xs i j v {k} {l} p q =
    let same = length-set xs k v in
    rw (write-some xs i v p) (
      read-some (set xs k v) j (rw same q)
      ∙ get_or-set xs k l v (position_bounds (length xs) i p)
      ∙ ground (arith, read-some xs j q))

-- What stands before and after an inserted element, and that removing it restores the vector.
pub remove-insert :
    (xs : VectorType) (i : ℤ) (v : Value) {k : ℕ}
    → position (length xs) i ≡ some k
    → (insert xs i v ≡ take k xs ++ v ∷ drop k xs) × (remove (insert xs i v) (pos k) ≡ xs)
remove-insert xs i v {k} p =
    let inside = position_bounds (length xs) i p in
    let longer = length-insert_at xs k v (omega arith) in
    (
      insert-some xs i v p ∙ insert_at-eq xs k v (omega arith),
      rw (insert-some xs i v p) (
          remove-some (insert_at xs k v) (pos k) (ground arith)
          ∙ erase_at-insert_at xs k v (omega arith)),
    )

abbrev pub All : (Value → Type 0) → VectorType → Type 0
All P [] = Unit
All P (x ∷ xs) = P x × All P xs

-- `contains_only` looks at every element.
pub contains_only-All :
    (type_at : ℕ → ValueType) (xs : VectorType) (t : ValueType)
    → (contains_only type_at xs t ≡ true) ↔ All (λ x. same_type (get_type type_at x) t ≡ true) xs
unfolding contains_only
contains_only-All type_at [] t = (λ h. tt, λ h. refl)
contains_only-All type_at (x ∷ xs) t = (
  λ h. ground (arith, (contains_only-All type_at xs t).0),
  λ h. ground (arith, (contains_only-All type_at xs t).1),
)
