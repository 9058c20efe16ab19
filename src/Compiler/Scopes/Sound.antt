-- ===== src/Compiler/Scopes/Sound.antt =====
-- That the variables of src/compiler/lvar-alloc.cpp which are alive have slots of their own.
use mathlib.Core.Path.{subst}
use charly_vm.Common.{ℕ, ◌+◌, ◌%◌, ◌^◌, ◌≤◌, ◌≡◌, inl, inr, refl, ◌∙◌, arith}
use charly_vm.Common.{
  Bool, true, false, ◌==◌, if◌then◌else◌, Bool-cases, Option, none, some, List, [], ◌∷◌,
}
use charly_vm.Compiler.Scopes.{
  FunctionScope, ValueLocation, LocalOffsetInfo, Locals, Level, mark_as_free, mark_as_leaked,
  leak_slot, free_slot, find_local, scope_contains_symbol, alloc_symbol, free_locals,
  find_in_blocks, leak, search,
}
use charly_vm.Compiler.Scopes.Slots.{
  occupied, LeaksActive, Counted, alloc_slot-occupied, alloc_slot-LeaksActive, alloc_slot-Counted,
  occupied-free, LeaksActive-free, occupied-leak, LeaksActive-leak, modify-Counted, occupied-le-one,
}

-- 1 for a variable in the slot, and 0 for one elsewhere
abbrev pub points : ℕ → ValueLocation → ℕ
points i (ValueLocation.frame j level) = if i == j then 1 else 0
points i _ = 0

-- How many variables of a block have the slot
abbrev pub uses : ℕ → Locals → ℕ
uses i [] = 0
uses i ((symbol, info) ∷ locals) = points i info.location + uses i locals

abbrev pub uses_in : ℕ → List Locals → ℕ
uses_in i [] = 0
uses_in i (block ∷ blocks) = uses i block + uses_in i blocks

-- The slots have one variable at most, those with one are in use, a slot that was leaked is in
-- use, and the function counts its slots.
pub record Sound (f : FunctionScope) (count : ℕ → ℕ) : Type 0 where
  pub alone : (i : ℕ) → count i ≤ occupied f.slots i
  pub leaks : LeaksActive f.slots
  pub counted : Counted f

abbrev pub LevelSound : Level → Type 0
LevelSound l = Sound l.function (λ i. uses_in i (l.block ∷ l.outer))

abbrev pub AllSound : List Level → Type 0
AllSound [] = Unit
AllSound (l ∷ levels) = LevelSound l × AllSound levels

pub alloc_symbol-Sound :
    (symbol : ℕ) (constant shadowing : Bool) (l : Level)
    → LevelSound l
    → LevelSound (alloc_symbol symbol constant shadowing l).1
unfolding alloc_symbol
alloc_symbol-Sound symbol constant shadowing l s =
    elim (Bool-cases (scope_contains_symbol l.block symbol)) [
      | inl e ↦ rw (e, alloc_symbol) s
      | inr e ↦
          rw (e, alloc_symbol)
            (record {
              alone = λ i.
                  omega (arith, s.alone i, alloc_slot-occupied constant shadowing l.function i);
              leaks = alloc_slot-LeaksActive constant shadowing l.function s.leaks;
              counted = alloc_slot-Counted constant shadowing l.function s.counted;
            })
    ]

free-Sound :
    (j : ℕ) (f : FunctionScope) (count : ℕ → ℕ)
    → Sound f (λ i. (if i == j then 1 else 0) + count i)
    → Sound (mark_as_free j f) count
unfolding mark_as_free
free-Sound j f count s = record {
  alone = λ i. ground (arith, s.alone i, occupied-le-one f.slots i, occupied-free f.slots j i);
  leaks = LeaksActive-free f.slots j s.leaks;
  counted = modify-Counted free_slot j f s.counted;
}

pub Sound-weaken : (f : FunctionScope) (m n : ℕ → ℕ) → ((i : ℕ) → n i ≤ m i) → Sound f m → Sound f n
Sound-weaken f m n l s = record {
  alone = λ i. omega (arith, l i, s.alone i);
  leaks = s.leaks;
  counted = s.counted;
}

free_location-Sound :
    (location : ValueLocation) (locals : Locals) (f : FunctionScope) (count : ℕ → ℕ)
    → ((g : FunctionScope)
        → Sound g (λ i. uses i locals + count i)
        → Sound (free_locals locals g) count)
    → Sound f (λ i. points i location + uses i locals + count i)
    → Sound
        (elim location [
          | ValueLocation.frame j level ↦ free_locals locals (mark_as_free j f)
          | _ ↦ free_locals locals f
        ])
        count
free_location-Sound (ValueLocation.frame j level) locals f count ih s =
    ih (mark_as_free j f)
      (free-Sound j f (λ i. uses i locals + count i) (Sound-weaken f _ _ (λ i. omega arith) s))
free_location-Sound (ValueLocation.arguments j level) locals f count ih s =
    ih f (Sound-weaken f _ _ (λ i. omega arith) s)
free_location-Sound (ValueLocation.stack j) locals f count ih s =
    ih f (Sound-weaken f _ _ (λ i. omega arith) s)
free_location-Sound ValueLocation.invalid locals f count ih s =
    ih f (Sound-weaken f _ _ (λ i. omega arith) s)
free_location-Sound (ValueLocation.global j) locals f count ih s =
    ih f (Sound-weaken f _ _ (λ i. omega arith) s)

pub free_locals-Sound :
    (locals : Locals) (f : FunctionScope) (count : ℕ → ℕ)
    → Sound f (λ i. uses i locals + count i)
    → Sound (free_locals locals f) count
unfolding free_locals
free_locals-Sound [] f count s = Sound-weaken f _ count (λ i. omega arith) s
free_locals-Sound ((symbol, info) ∷ locals) f count s =
    free_location-Sound info.location locals f count (λ g. free_locals-Sound locals g count) s

leak-Sound :
    (leaks : Bool) (location : ValueLocation) (f : FunctionScope) (count : ℕ → ℕ)
    → ((i : ℕ) → points i location ≤ count i)
    → Sound f count
    → Sound (leak leaks location f) count
unfolding leak mark_as_leaked
leak-Sound true (ValueLocation.frame j level) f count p s = record {
  alone = λ i. rw (occupied-leak f.slots j i) (s.alone i);
  leaks =
      LeaksActive-leak f.slots j s.leaks
        (ground (arith, p j, s.alone j, occupied-le-one f.slots j));
  counted = modify-Counted leak_slot j f s.counted;
}
leak-Sound false (ValueLocation.frame j level) f count p s = s
leak-Sound leaks (ValueLocation.arguments j level) f count p s = s
leak-Sound leaks (ValueLocation.stack j) f count p s = s
leak-Sound leaks ValueLocation.invalid f count p s = s
leak-Sound leaks (ValueLocation.global j) f count p s = s

info_injective : {x y : LocalOffsetInfo} → some x ≡ some y → x ≡ y
info_injective e = cc

find_local-points :
    (locals : Locals) (symbol i : ℕ) (info : LocalOffsetInfo)
    → find_local locals symbol ≡ some info
    → points i info.location ≤ uses i locals
unfolding find_local
find_local-points [] symbol i info e = cc
find_local-points ((s, x) ∷ locals) symbol i info e = elim (Bool-cases (s == symbol)) [
  | inl h ↦
      let q : x ≡ info = info_injective (rw (h) at e) in
      subst (λ y. points i y.location ≤ points i x.location + uses i locals) q (omega arith)
  | inr h ↦
      let q : find_local locals symbol ≡ some info = rw (h) at e in
      omega (arith, find_local-points locals symbol i info q)
]

pub find_in_blocks-points :
    (blocks : List Locals) (symbol i : ℕ) (info : LocalOffsetInfo)
    → find_in_blocks blocks symbol ≡ some info
    → points i info.location ≤ uses_in i blocks
unfolding find_in_blocks
find_in_blocks-points [] symbol i info e = cc
find_in_blocks-points (b ∷ blocks) symbol i info e =
    go (find_local b symbol) refl e (find_in_blocks-points blocks symbol i info)
  where
    go :
        (o : Option LocalOffsetInfo)
        → find_local b symbol ≡ o
        → elim o [ some x ↦ some x | none ↦ find_in_blocks blocks symbol ] ≡ some info
        → (find_in_blocks blocks symbol ≡ some info → points i info.location ≤ uses_in i blocks)
        → points i info.location ≤ uses i b + uses_in i blocks
    go none q e ih = omega (arith, ih e)
    go (some x) q e ih = omega (arith, find_local-points b symbol i info (q ∙ e))

pub search-Sound :
    (symbol dereferenced : ℕ) (leaks : Bool) (levels : List Level)
    → AllSound levels
    → AllSound (search symbol dereferenced leaks levels).1
unfolding search
search-Sound symbol dereferenced leaks [] s = tt
search-Sound symbol dereferenced leaks (l ∷ levels) s =
    go (find_in_blocks (l.block ∷ l.outer) symbol) refl
      (search-Sound symbol ((dereferenced + 1) % 2 ^ 32) true levels s.1)
  where
    go :
        (o : Option LocalOffsetInfo)
        → find_in_blocks (l.block ∷ l.outer) symbol ≡ o
        → AllSound (search symbol ((dereferenced + 1) % 2 ^ 32) true levels).1
        → AllSound (search symbol dereferenced leaks (l ∷ levels)).1
    go none q ih = rw (q, search) (s.0, ih)
    go (some info) q ih =
        rw (q, search)
          (
            leak-Sound leaks info.location l.function (λ i. uses_in i (l.block ∷ l.outer))
                (λ i. find_in_blocks-points (l.block ∷ l.outer) symbol i info q) s.0,
            s.1,
          )
