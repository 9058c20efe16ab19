-- ===== src/Compiler/Scopes/Kept.antt =====
-- What src/compiler/lvar-alloc.cpp keeps of the scopes around: the slots that were leaked and the
-- blocks that are open.
use charly_vm.Common.{ℕ, zero, suc, ◌+◌, ◌%◌, ◌^◌, ◌≤◌, ◌≡◌, inl, inr, refl, ◌∙◌, arith}
use charly_vm.Common.{Bool, true, false, if◌then◌else◌, Bool-cases}
use charly_vm.Common.{Option-cases, List, [], ◌∷◌, ◌++◌}
use charly_vm.Compiler.Scopes.{
  SlotInfo, FunctionScope, ValueLocation, Locals, Level, find_inactive, modify, activate,
  alloc_slot, free_slot, leak_slot, mark_as_free, mark_as_leaked, free_locals, leak, find_in_blocks,
  search, scope_contains_symbol, alloc_symbol,
}

-- 1 for a slot that was leaked, and 0 for another or none
abbrev pub leaked_at : List SlotInfo → ℕ → ℕ
leaked_at [] i = 0
leaked_at (slot ∷ slots) zero = if slot.leaked then 1 else 0
leaked_at (slot ∷ slots) (suc i) = leaked_at slots i

-- The leaked slots of the first function are leaked in the second.
abbrev pub SlotsKept : FunctionScope → FunctionScope → Type 0
SlotsKept f g = (i : ℕ) → leaked_at f.slots i ≤ leaked_at g.slots i

-- The function has the same blocks around the innermost one, and its leaked slots are leaked.
abbrev pub LevelKept : Level → Level → Type 0
LevelKept l m = (m.outer ≡ l.outer) × SlotsKept l.function m.function

-- There are the same functions, each kept.
abbrev pub Kept : List Level → List Level → Type 0
Kept [] [] = Unit
Kept [] (m ∷ ms) = ⊥
Kept (l ∷ ls) [] = ⊥
Kept (l ∷ ls) (m ∷ ms) = LevelKept l m × Kept ls ms

pub Kept-refl : (ls : List Level) → Kept ls ls
Kept-refl [] = tt
Kept-refl (l ∷ ls) = ((refl, λ i. omega arith), Kept-refl ls)

pub Kept-trans : (ls ms ns : List Level) → Kept ls ms → Kept ms ns → Kept ls ns
Kept-trans [] [] ns a b = b
Kept-trans [] (m ∷ ms) ns a b = elim a [ ]
Kept-trans (l ∷ ls) [] ns a b = elim a [ ]
Kept-trans (l ∷ ls) (m ∷ ms) [] a b = elim b [ ]
Kept-trans (l ∷ ls) (m ∷ ms) (n ∷ ns) a b =
    ((b.0.0 ∙ a.0.0, λ i. omega (arith, a.0.1 i, b.0.1 i)), Kept-trans ls ms ns a.1 b.1)

leaked_at-modify :
    (g : SlotInfo → SlotInfo) (j i : ℕ) (slots : List SlotInfo)
    → ((slot : SlotInfo) → (if slot.leaked then 1 else 0) ≤ (if (g slot).leaked then 1 else 0))
    → leaked_at slots i ≤ leaked_at (modify g j slots) i
leaked_at-modify g j i [] k = omega arith
leaked_at-modify g zero zero (s ∷ slots) k = k s
leaked_at-modify g zero (suc i) (s ∷ slots) k = omega arith
leaked_at-modify g (suc j) zero (s ∷ slots) k = omega arith
leaked_at-modify g (suc j) (suc i) (s ∷ slots) k = leaked_at-modify g j i slots k

leaked_at-append :
    (slots : List SlotInfo) (slot : SlotInfo) (i : ℕ)
    → leaked_at slots i ≤ leaked_at (slots ++ slot ∷ []) i
leaked_at-append [] slot i = omega arith
leaked_at-append (s ∷ slots) slot zero = omega arith
leaked_at-append (s ∷ slots) slot (suc i) = leaked_at-append slots slot i

alloc_slot-Kept :
    (constant shadowing : Bool) (f : FunctionScope)
    → SlotsKept f (alloc_slot constant shadowing f).1
unfolding alloc_slot
alloc_slot-Kept constant shadowing f i = elim (Option-cases (find_inactive f.slots)) [
  | inl e ↦ rw (e, alloc_slot) (leaked_at-append f.slots _ i)
  | inr k ↦ rw (k.1, alloc_slot) (leaked_at-modify activate k.0 i f.slots (λ s. omega arith))
]

pub alloc_symbol-Kept :
    (symbol : ℕ) (constant shadowing : Bool) (l : Level)
    → LevelKept l (alloc_symbol symbol constant shadowing l).1
unfolding alloc_symbol
alloc_symbol-Kept symbol constant shadowing l =
    elim (Bool-cases (scope_contains_symbol l.block symbol)) [
      | inl e ↦ rw (e, alloc_symbol) (refl, λ i. omega arith)
      | inr e ↦ rw (e, alloc_symbol) (refl, alloc_slot-Kept constant shadowing l.function)
    ]

pub free_locals-Kept : (locals : Locals) (f : FunctionScope) → SlotsKept f (free_locals locals f)
unfolding free_locals mark_as_free
free_locals-Kept [] f i = omega arith
free_locals-Kept ((symbol, info) ∷ locals) f i = go info.location (λ g. free_locals-Kept locals g i)
  where
    go :
        (location : ValueLocation)
        → ((g : FunctionScope) → leaked_at g.slots i ≤ leaked_at (free_locals locals g).slots i)
        → leaked_at f.slots i
          ≤ leaked_at
              (elim location as (λ x. FunctionScope) [
                | ValueLocation.frame index level ↦ free_locals locals (mark_as_free index f)
                | _ ↦ free_locals locals f
              ]).slots
              i
    go (ValueLocation.frame j level) ih =
        let freed = leaked_at-modify free_slot j i f.slots (λ s. ground arith) in
        omega (arith, freed, ih (mark_as_free j f))
    go (ValueLocation.arguments j level) ih = ih f
    go (ValueLocation.stack j) ih = ih f
    go ValueLocation.invalid ih = ih f
    go (ValueLocation.global j) ih = ih f

leak-Kept :
    (leaks : Bool) (location : ValueLocation) (f : FunctionScope)
    → SlotsKept f (leak leaks location f)
unfolding leak mark_as_leaked
leak-Kept true (ValueLocation.frame j level) f i =
    leaked_at-modify leak_slot j i f.slots (λ s. ground arith)
leak-Kept false (ValueLocation.frame j level) f i = omega arith
leak-Kept leaks (ValueLocation.arguments j level) f i = omega arith
leak-Kept leaks (ValueLocation.stack j) f i = omega arith
leak-Kept leaks ValueLocation.invalid f i = omega arith
leak-Kept leaks (ValueLocation.global j) f i = omega arith

pub search-Kept :
    (symbol dereferenced : ℕ) (leaks : Bool) (levels : List Level)
    → Kept levels (search symbol dereferenced leaks levels).1
unfolding search
search-Kept symbol dereferenced leaks [] = tt
search-Kept symbol dereferenced leaks (l ∷ levels) =
    elim (Option-cases (find_in_blocks (l.block ∷ l.outer) symbol)) [
      | inl e ↦
          rw (e, search)
            ((refl, λ i. omega arith), search-Kept symbol ((dereferenced + 1) % 2 ^ 32) true levels)
      | inr k ↦
          rw (k.1, search) ((refl, leak-Kept leaks (k.0).location l.function), Kept-refl levels)
    ]
