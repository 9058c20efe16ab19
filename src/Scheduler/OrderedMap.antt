-- ===== src/Scheduler/OrderedMap.antt =====
-- `std::map` as src/vm/vm.cpp uses it: a list in the order of its keys.
use charly_vm.Common.{ℕ, ◌<◌, ◌≤◌, ◌≡◌, ◌≢◌, refl, arith, ◌==◌, ltb, if◌then◌else◌}
use charly_vm.Common.{Option, none, some, List, [], ◌∷◌}

module _ {ℓ} {A : Type ℓ} where
  -- `insert` and `emplace`, which leave a key that is there as it is.
  unfoldable pub insert : ℕ → A → List (ℕ × A) → List (ℕ × A)
  insert k a [] = (k, a) ∷ []
  insert k a ((l, b) ∷ entries) =
      let rest = insert k a entries in
      if ltb k l
      then (k, a) ∷ (l, b) ∷ entries
      else if k == l
      then (l, b) ∷ entries
      else (l, b) ∷ rest

  pub insert-empty : (k : ℕ) (a : A) → insert k a [] ≡ (k, a) ∷ []
  unfolding insert
  insert-empty k a = refl

  pub insert-twice : (k : ℕ) (a b : A) → insert k b ((k, a) ∷ []) ≡ (k, a) ∷ []
  unfolding insert
  insert-twice k a b = ground arith

  unfoldable pub lookup : ℕ → List (ℕ × A) → Option A
  lookup k [] = none
  lookup k ((l, b) ∷ entries) = if k == l then some b else lookup k entries

  unfoldable pub erase : ℕ → List (ℕ × A) → List (ℕ × A)
  erase k [] = []
  erase k ((l, b) ∷ entries) = if k == l then entries else (l, b) ∷ erase k entries

  -- Every key is above `k`, and the keys are in order.
  abbrev pub Above : ℕ → List (ℕ × A) → Type 0
  Above k [] = Unit
  Above k ((l, b) ∷ entries) = (k < l) × Above l entries

  abbrev pub Ordered : List (ℕ × A) → Type 0
  Ordered [] = Unit
  Ordered ((l, b) ∷ entries) = Above l entries

  pub Above-Ordered : (j : ℕ) (entries : List (ℕ × A)) → Above j entries → Ordered entries
  Above-Ordered j [] h = tt
  Above-Ordered j ((i, b) ∷ entries) h = h.1

  pub Above-weaken : (j k : ℕ) (entries : List (ℕ × A)) → j ≤ k → Above k entries → Above j entries
  Above-weaken j k [] l h = tt
  Above-weaken j k ((i, b) ∷ entries) l h = (omega (arith, l, h.0), h.1)

  pub insert-Above :
      (j k : ℕ) (a : A) (entries : List (ℕ × A))
      → j < k
      → Above j entries
      → Above j (insert k a entries)
  unfolding insert
  insert-Above j k a [] l h = (l, tt)
  insert-Above j k a ((i, b) ∷ entries) l h = ground (arith, l, h, insert-Above i k a entries)

  pub insert-Ordered :
      (k : ℕ) (a : A) (entries : List (ℕ × A)) → Ordered entries → Ordered (insert k a entries)
  unfolding insert
  insert-Ordered k a [] h = tt
  insert-Ordered k a ((i, b) ∷ entries) h = ground (arith, h, insert-Above i k a entries)

  pub lookup-insert :
      (k : ℕ) (a : A) (entries : List (ℕ × A))
      → lookup k entries ≡ none
      → lookup k (insert k a entries) ≡ some a
  unfolding insert lookup
  lookup-insert k a [] h = ground arith
  lookup-insert k a ((i, b) ∷ entries) h = ground (arith, h, lookup-insert k a entries)

  pub erase-insert :
      (k : ℕ) (a : A) (entries : List (ℕ × A))
      → lookup k entries ≡ none
      → erase k (insert k a entries) ≡ entries
  unfolding insert lookup erase
  erase-insert k a [] h = ground arith
  erase-insert k a ((i, b) ∷ entries) h = ground (arith, h, erase-insert k a entries)

  lookup-Above :
      (j k : ℕ) (b : A) (entries : List (ℕ × A))
      → Above j entries
      → lookup k entries ≡ some b
      → j < k
  unfolding lookup
  lookup-Above j k b [] o h = cc
  lookup-Above j k b ((i, c) ∷ entries) o h = ground (arith, o, h, lookup-Above i k b entries)

  pub insert-taken :
      (k : ℕ) (a b : A) (entries : List (ℕ × A))
      → Ordered entries
      → lookup k entries ≡ some b
      → insert k a entries ≡ entries
  unfolding insert lookup
  insert-taken k a b [] o h = cc
  insert-taken k a b ((i, c) ∷ entries) o h =
      ground (
        arith,
        o,
        h,
        lookup-Above i k b entries,
        insert-taken k a b entries,
        Above-Ordered i entries,
      )

  pub lookup-insert_kept :
      (j k : ℕ) (a b : A) (entries : List (ℕ × A))
      → Ordered entries
      → lookup k entries ≡ some b
      → lookup k (insert j a entries) ≡ some b
  unfolding insert lookup
  lookup-insert_kept j k a b [] o h = cc
  lookup-insert_kept j k a b ((i, c) ∷ entries) o h = ground (
    arith,
    o,
    h,
    lookup-Above i k b entries,
    lookup-insert_kept j k a b entries (Above-Ordered i entries o),
  )

  pub lookup-insert_other :
      (j k : ℕ) (a : A) (entries : List (ℕ × A))
      → k ≢ j
      → lookup k (insert j a entries) ≡ lookup k entries
  unfolding insert lookup
  lookup-insert_other j k a [] h = ground (arith, h)
  lookup-insert_other j k a ((i, c) ∷ entries) h =
      ground (arith, h, lookup-insert_other j k a entries h)
