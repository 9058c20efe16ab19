-- ===== src/Compiler/Scopes/Slots.antt =====
-- The slots of a function in src/compiler/lvar-alloc.cpp.
use mathlib.Core.Path.{subst}
use charly_vm.Common.{ℕ, zero, suc, ◌+◌, ◌%◌, ◌^◌, ◌≤◌, ◌≡◌, ◌≢◌, inl, inr, refl, ap, arith}
use charly_vm.Common.{
  Bool, true, false, ◌==◌, if◌then◌else◌, Option, none, some, Option-cases, List, [], ◌∷◌, ◌++◌,
  length, length-append,
}
use charly_vm.Compiler.Scopes.{
  SlotInfo, FunctionScope, find_inactive, activate, modify, alloc_slot, free_slot, leak_slot,
}

-- 1 for a slot that is in use, and 0 for a free one or none.
abbrev pub occupied : List SlotInfo → ℕ → ℕ
occupied [] i = 0
occupied (slot ∷ slots) zero = if slot.active then 1 else 0
occupied (slot ∷ slots) (suc i) = occupied slots i

-- A slot that was leaked is in use.
abbrev pub LeaksActive : List SlotInfo → Type 0
LeaksActive [] = Unit
LeaksActive (slot ∷ slots) = ((slot.leaked ≡ true) → slot.active ≡ true) × LeaksActive slots

pub occupied-out : (slots : List SlotInfo) (i : ℕ) → length slots ≤ i → occupied slots i ≡ 0
occupied-out [] i l = refl
occupied-out (slot ∷ slots) zero l = omega (arith, l)
occupied-out (slot ∷ slots) (suc i) l = occupied-out slots i (omega (arith, l))

occupied-append_new :
    (slots : List SlotInfo) (slot : SlotInfo) (i : ℕ)
    → slot.active ≡ true
    → occupied (slots ++ slot ∷ []) i ≡ occupied slots i + (if i == length slots then 1 else 0)
occupied-append_new [] slot zero e = ground (arith, e)
occupied-append_new [] slot (suc i) e = ground (arith, e)
occupied-append_new (s ∷ slots) slot zero e = ground (arith, e)
occupied-append_new (s ∷ slots) slot (suc i) e = ground (arith, occupied-append_new slots slot i e)

Activates : List SlotInfo → ℕ → ℕ → Type 0
Activates slots j i =
    occupied (modify activate j slots) i ≡ occupied slots i + (if i == j then 1 else 0)

Activates-later :
    (slot : SlotInfo) (slots : List SlotInfo) (k i : ℕ)
    → ((n : ℕ) → Activates slots k n)
    → Activates (slot ∷ slots) (suc k) i
unfolding Activates
Activates-later slot slots k zero ih = ground arith
Activates-later slot slots k (suc i) ih = ground (arith, ih i)

Activates-first :
    (slot : SlotInfo) (slots : List SlotInfo) (i : ℕ)
    → slot.active ≡ false
    → Activates (slot ∷ slots) 0 i
unfolding Activates
Activates-first slot slots zero e = ground (arith, e)
Activates-first slot slots (suc i) e = ground arith

Activates-found :
    (slot : SlotInfo) (slots : List SlotInfo) (j i : ℕ) (o : Option ℕ)
    → ((k n : ℕ) → o ≡ some k → Activates slots k n)
    → elim o [ some i ↦ some (suc i) | none ↦ if slot.active then none else some 0 ] ≡ some j
    → Activates (slot ∷ slots) j i
Activates-found slot slots j i (some k) ih e =
    let q : suc k ≡ j = cc in
    subst (λ n. Activates (slot ∷ slots) n i) q (Activates-later slot slots k i (λ n. ih k n refl))
Activates-found slot slots j i none ih e =
    let q : (0 ≡ j) × (slot.active ≡ false) = ground (arith, e) in
    subst (λ n. Activates (slot ∷ slots) n i) q.0 (Activates-first slot slots i q.1)

-- The slot that is found is free, and is then in use, and no other changes.
occupied-activate :
    (slots : List SlotInfo) (j i : ℕ) → find_inactive slots ≡ some j → Activates slots j i
unfolding find_inactive
occupied-activate [] j i e = cc
occupied-activate (slot ∷ slots) j i e =
    Activates-found slot slots j i (find_inactive slots) (λ k n q. occupied-activate slots k n q) e

pub alloc_slot-occupied :
    (constant shadowing : Bool) (f : FunctionScope) (i : ℕ)
    → occupied (alloc_slot constant shadowing f).1.slots i
      ≡ occupied f.slots i + (if i == (alloc_slot constant shadowing f).0 then 1 else 0)
unfolding alloc_slot Activates
alloc_slot-occupied constant shadowing f i = elim (Option-cases (find_inactive f.slots)) [
  | inl e ↦ rw (e, alloc_slot) (occupied-append_new f.slots _ i refl)
  | inr k ↦ rw (k.1, alloc_slot) (occupied-activate f.slots k.0 i k.1)
]

pub occupied-free :
    (slots : List SlotInfo) (j i : ℕ)
    → i ≢ j
    → occupied (modify free_slot j slots) i ≡ occupied slots i
occupied-free [] j i n = refl
occupied-free (slot ∷ slots) zero zero n = absurd (n refl)
occupied-free (slot ∷ slots) zero (suc i) n = refl
occupied-free (slot ∷ slots) (suc j) zero n = refl
occupied-free (slot ∷ slots) (suc j) (suc i) n = occupied-free slots j i (λ e. n (ap suc e))

pub LeaksActive-free :
    (slots : List SlotInfo) (j : ℕ) → LeaksActive slots → LeaksActive (modify free_slot j slots)
LeaksActive-free [] j a = tt
LeaksActive-free (slot ∷ slots) zero a = ground (arith, a)
LeaksActive-free (slot ∷ slots) (suc j) a = (a.0, LeaksActive-free slots j a.1)

pub occupied-leak :
    (slots : List SlotInfo) (j i : ℕ) → occupied (modify leak_slot j slots) i ≡ occupied slots i
occupied-leak [] j i = refl
occupied-leak (slot ∷ slots) zero zero = refl
occupied-leak (slot ∷ slots) zero (suc i) = refl
occupied-leak (slot ∷ slots) (suc j) zero = refl
occupied-leak (slot ∷ slots) (suc j) (suc i) = occupied-leak slots j i

pub LeaksActive-leak :
    (slots : List SlotInfo) (j : ℕ)
    → LeaksActive slots
    → occupied slots j ≡ 1
    → LeaksActive (modify leak_slot j slots)
LeaksActive-leak [] j a o = tt
LeaksActive-leak (slot ∷ slots) zero a o = ground (arith, a, o)
LeaksActive-leak (slot ∷ slots) (suc j) a o = (a.0, LeaksActive-leak slots j a.1 o)

LeaksActive-activate :
    (slots : List SlotInfo) (j : ℕ) → LeaksActive slots → LeaksActive (modify activate j slots)
LeaksActive-activate [] j a = tt
LeaksActive-activate (slot ∷ slots) zero a = (λ e. refl, a.1)
LeaksActive-activate (slot ∷ slots) (suc j) a = (a.0, LeaksActive-activate slots j a.1)

LeaksActive-append :
    (slots : List SlotInfo) (slot : SlotInfo)
    → slot.active ≡ true
    → LeaksActive slots
    → LeaksActive (slots ++ slot ∷ [])
LeaksActive-append [] slot e a = (λ l. e, tt)
LeaksActive-append (s ∷ slots) slot e a = (a.0, LeaksActive-append slots slot e a.1)

pub alloc_slot-LeaksActive :
    (constant shadowing : Bool) (f : FunctionScope)
    → LeaksActive f.slots
    → LeaksActive (alloc_slot constant shadowing f).1.slots
unfolding alloc_slot
alloc_slot-LeaksActive constant shadowing f a = elim (Option-cases (find_inactive f.slots)) [
  | inl e ↦ rw (e, alloc_slot) (LeaksActive-append f.slots _ refl a)
  | inr k ↦ rw (k.1, alloc_slot) (LeaksActive-activate f.slots k.0 a)
]

length-modify :
    (g : SlotInfo → SlotInfo) (i : ℕ) (slots : List SlotInfo)
    → length (modify g i slots) ≡ length slots
length-modify g i [] = refl
length-modify g zero (slot ∷ slots) = refl
length-modify g (suc i) (slot ∷ slots) = ap suc (length-modify g i slots)

-- The function node counts the slots.
abbrev pub Counted : FunctionScope → Type 0
Counted f = f.lvarcount ≡ length f.slots % 2 ^ 32

pub alloc_slot-Counted :
    (constant shadowing : Bool) (f : FunctionScope)
    → Counted f
    → Counted (alloc_slot constant shadowing f).1
unfolding alloc_slot
alloc_slot-Counted constant shadowing f c = elim (Option-cases (find_inactive f.slots)) [
  | inl e ↦
      rw (e, alloc_slot)
        (let slot : SlotInfo = record {
          active = true;
          leaked = false;
          constant = constant;
          shadowing = shadowing;
        } in
          omega (arith, c, length-append f.slots (slot ∷ [])))
  | inr k ↦ rw (k.1, length-modify activate k.0 f.slots, alloc_slot) c
]

pub modify-Counted :
    (g : SlotInfo → SlotInfo) (i : ℕ) (f : FunctionScope)
    → Counted f
    → Counted (record f { slots = modify g i f.slots })
modify-Counted g i f c = rw (length-modify g i f.slots) c

pub occupied-le-one : (slots : List SlotInfo) (i : ℕ) → occupied slots i ≤ 1
occupied-le-one [] i = omega arith
occupied-le-one (slot ∷ slots) zero = ground arith
occupied-le-one (slot ∷ slots) (suc i) = occupied-le-one slots i
