-- ===== src/Compiler/Scopes/Levels.antt =====
-- How src/compiler/lvar-alloc.cpp finds the variables of the functions around, and keeps their
-- slots.
use charly_vm.Common.{ℕ, zero, suc, ◌+◌, ◌%◌, ◌^◌, ◌<◌, ◌≡◌, ◌≢◌, inl, inr, refl, ap, ◌∙◌, arith}
use charly_vm.Common.{Bool, true, none, some, Option-cases, List, [], ◌∷◌, ◌++◌, length}
use charly_vm.Compiler.Scopes.{
  SlotInfo, FunctionScope, ValueLocation, LocalOffsetInfo, Level, find_in_blocks, find_inactive,
  patch_level, search, access_symbol, leak, alloc_slot, mark_as_free, mark_as_leaked, modify,
  activate, free_slot, leak_slot,
}
use charly_vm.Compiler.Scopes.Slots.{
  occupied, LeaksActive, alloc_slot-occupied, alloc_slot-LeaksActive, LeaksActive-free,
  LeaksActive-leak, occupied-le-one,
}

-- No block of the functions has the symbol.
abbrev pub Absent : ℕ → List Level → Type 0
Absent symbol [] = Unit
Absent symbol (l ∷ levels) =
    (find_in_blocks (l.block ∷ l.outer) symbol ≡ none) × Absent symbol levels

search-found :
    (symbol n : ℕ) (leaks : Bool) (between : List Level) (l : Level) (levels : List Level)
    (info : LocalOffsetInfo)
    → Absent symbol between
    → find_in_blocks (l.block ∷ l.outer) symbol ≡ some info
    → n + length between < 2 ^ 32
    → (search symbol n leaks (between ++ l ∷ levels)).0.location
      ≡ patch_level info.location (n + length between)
unfolding search
search-found symbol n leaks [] l levels info a e h =
    rw (e, search) (ap (patch_level info.location) (omega arith))
search-found symbol n leaks (m ∷ between) l levels info a e h =
    let up : (n + 1) % 2 ^ 32 ≡ n + 1 = omega (arith, h) in
    rw (a.0, up, search)
      (search-found symbol (n + 1) true between l levels info a.1 e (omega (arith, h))
        ∙ ap (patch_level info.location) (omega arith))

search-leaks :
    (symbol n : ℕ) (between : List Level) (l : Level) (levels : List Level) (info : LocalOffsetInfo)
    → Absent symbol between
    → find_in_blocks (l.block ∷ l.outer) symbol ≡ some info
    → (search symbol n true (between ++ l ∷ levels)).1
      ≡ between ++ record l { function = leak true info.location l.function } ∷ levels
unfolding search
search-leaks symbol n [] l levels info a e = rw (e, search) refl
search-leaks symbol n (m ∷ between) l levels info a e =
    rw (a.0, search)
      (ap (λ r. m ∷ r) (search-leaks symbol ((n + 1) % 2 ^ 32) between l levels info a.1 e))

-- A variable of a function around, which no block of the functions inside declares, is found at
-- its slot and at as many levels as there are functions between, fewer than 2^32, and the slot
-- is marked as leaked.
pub access_symbol-captured :
    (symbol index level : ℕ) (inner : Level) (between : List Level) (l : Level)
    (levels : List Level) (info : LocalOffsetInfo)
    → Absent symbol (inner ∷ between)
    → find_in_blocks (l.block ∷ l.outer) symbol ≡ some info
    → info.location ≡ ValueLocation.frame index level
    → suc (length between) < 2 ^ 32
    → ((access_symbol symbol (inner ∷ between ++ l ∷ levels)).0.location
        ≡ ValueLocation.frame index (suc (length between)))
      × ((access_symbol symbol (inner ∷ between ++ l ∷ levels)).1
          ≡ inner ∷ between ++ record l { function = mark_as_leaked index l.function } ∷ levels)
unfolding access_symbol search patch_level leak
access_symbol-captured symbol index level inner between l levels info a e f h =
    rw (a.0, search)
      (
        search-found symbol 1 true between l levels info a.1 e (omega (arith, h))
            ∙ ap (λ k. patch_level k (1 + length between)) f
            ∙ ap (ValueLocation.frame index) (omega arith),
        ap (λ r. inner ∷ r)
            (search-leaks symbol 1 between l levels info a.1 e
              ∙ ap (λ k. between ++ record l { function = leak true k l.function } ∷ levels) f),
      )

-- The slot was leaked.
abbrev pub Leaked : List SlotInfo → ℕ → Type 0
Leaked [] i = ⊥
Leaked (slot ∷ slots) zero = slot.leaked ≡ true
Leaked (slot ∷ slots) (suc i) = Leaked slots i

-- What happens to the slots of a function; only a variable that is alive is captured.
pub data SlotStep (f : FunctionScope) : FunctionScope → Type 0 where
  allocates : (constant shadowing : Bool) → SlotStep f (alloc_slot constant shadowing f).1
  frees : (j : ℕ) → SlotStep f (mark_as_free j f)
  captures : (j : ℕ) → occupied f.slots j ≡ 1 → SlotStep f (mark_as_leaked j f)

pub data SlotSteps (f : FunctionScope) : FunctionScope → Type 0 where
  no_step : SlotSteps f f
  then_slot : {g h : FunctionScope} → SlotSteps f g → SlotStep g h → SlotSteps f h

Leaked-modify :
    (g : SlotInfo → SlotInfo) (j i : ℕ) (slots : List SlotInfo)
    → ((slot : SlotInfo) → slot.leaked ≡ true → (g slot).leaked ≡ true)
    → Leaked slots i
    → Leaked (modify g j slots) i
Leaked-modify g j i [] k h = elim h [ ]
Leaked-modify g zero zero (s ∷ slots) k h = k s h
Leaked-modify g zero (suc i) (s ∷ slots) k h = h
Leaked-modify g (suc j) zero (s ∷ slots) k h = h
Leaked-modify g (suc j) (suc i) (s ∷ slots) k h = Leaked-modify g j i slots k h

Leaked-append :
    (slots : List SlotInfo) (slot : SlotInfo) (i : ℕ)
    → Leaked slots i
    → Leaked (slots ++ slot ∷ []) i
Leaked-append [] slot i h = elim h [ ]
Leaked-append (s ∷ slots) slot zero h = h
Leaked-append (s ∷ slots) slot (suc i) h = Leaked-append slots slot i h

Leaked-occupied :
    (slots : List SlotInfo) (i : ℕ) → LeaksActive slots → Leaked slots i → occupied slots i ≡ 1
Leaked-occupied [] i a h = elim h [ ]
Leaked-occupied (s ∷ slots) zero a h = ground (arith, a.0 h)
Leaked-occupied (s ∷ slots) (suc i) a h = Leaked-occupied slots i a.1 h

alloc-Leaked :
    (constant shadowing : Bool) (i : ℕ) (f : FunctionScope)
    → Leaked f.slots i
    → Leaked (alloc_slot constant shadowing f).1.slots i
unfolding alloc_slot
alloc-Leaked constant shadowing i f h = elim (Option-cases (find_inactive f.slots)) [
  | inl e ↦ rw (e, alloc_slot) (Leaked-append f.slots _ i h)
  | inr k ↦ rw (k.1, alloc_slot) (Leaked-modify activate k.0 i f.slots (λ s e. e) h)
]

step-Leaked :
    (i : ℕ) (f g : FunctionScope)
    → SlotStep f g
    → LeaksActive f.slots × Leaked f.slots i
    → LeaksActive g.slots × Leaked g.slots i
unfolding mark_as_free mark_as_leaked alloc_slot
step-Leaked i f _ (allocates constant shadowing) (a, h) =
    (alloc_slot-LeaksActive constant shadowing f a, alloc-Leaked constant shadowing i f h)
step-Leaked i f _ (frees j) (a, h) =
    (LeaksActive-free f.slots j a, Leaked-modify free_slot j i f.slots (λ s e. ground (arith, e)) h)
step-Leaked i f _ (captures j o) (a, h) =
    (LeaksActive-leak f.slots j a o, Leaked-modify leak_slot j i f.slots (λ s e. refl) h)

steps-Leaked :
    (i : ℕ) (f g : FunctionScope)
    → SlotSteps f g
    → LeaksActive f.slots × Leaked f.slots i
    → LeaksActive g.slots × Leaked g.slots i
steps-Leaked i f _ no_step p = p
steps-Leaked i f _ (then_slot {g} {h} s t) p = step-Leaked i g h t (steps-Leaked i f g s p)

-- In a function whose leaked slots are in use, a leaked slot is never given to another variable,
-- however many slots were allocated, freed and captured since.
pub alloc_slot-Leaked :
    (constant shadowing : Bool) (i : ℕ) (f g : FunctionScope)
    → LeaksActive f.slots
    → Leaked f.slots i
    → SlotSteps f g
    → (alloc_slot constant shadowing g).0 ≢ i
alloc_slot-Leaked constant shadowing i f g a h s e =
    let p = steps-Leaked i f g s (a, h) in
    let now = Leaked-occupied g.slots i p.0 p.1 in
    let grown = alloc_slot-occupied constant shadowing g i in
    ground (arith, now, grown, e, occupied-le-one (alloc_slot constant shadowing g).1.slots i)
