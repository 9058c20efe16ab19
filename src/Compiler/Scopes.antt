-- ===== src/Compiler/Scopes.antt =====
-- The allocation of local variables: include/lvar-alloc.h, include/lvar-location.h,
-- src/compiler/lvar-alloc.cpp. The chain of LocalScope objects is a list of functions from the
-- innermost on, each with its slots and the tables of its open blocks; the outermost LocalScope
-- objects, which have no function and stay empty, are the end of the list. A symbol is the number
-- that SymbolTable::encode gives a name.
pub mod Slots
pub mod Sound
pub mod Levels
pub mod Kept
pub mod Rewrite
pub mod Visits
pub mod Captured
use charly_vm.Common.{
  ℕ, zero, suc, ◌+◌, ◌-◌, ◌%◌, ◌^◌, Bool, true, false, not, ◌&&◌, ◌||◌, ◌==◌, ltb, if◌then◌else◌,
}
use charly_vm.Common.{Option, none, some, List, [], ◌∷◌, ◌++◌, length, get_elem?, set}

pub record SlotInfo : Type 0 where
  pub active : Bool
  pub leaked : Bool
  pub constant : Bool
  pub shadowing : Bool

-- The part of AST::Function that is used is its count of locals, of parameters, and the flag.
pub record FunctionScope : Type 0 where
  pub slots : List SlotInfo
  pub lvarcount : ℕ

pub data ValueLocation : Type 0 where
  frame : ℕ → ℕ → ValueLocation
  arguments : ℕ → ℕ → ValueLocation
  stack : ℕ → ValueLocation
  invalid : ValueLocation
  global : ℕ → ValueLocation

-- ValueLocation::patch_level
unfoldable pub patch_level : ValueLocation → ℕ → ValueLocation
patch_level (frame index level) new_level = frame index new_level
patch_level (arguments index level) new_level = arguments index new_level
patch_level (stack offset) new_level = stack offset
patch_level invalid new_level = invalid
patch_level (global symbol) new_level = global symbol

pub record LocalOffsetInfo : Type 0 where
  pub location : ValueLocation
  pub valid : Bool
  pub constant : Bool
  pub shadowing : Bool

-- The constructor without arguments, which leaves the location unset.
abbrev pub no_info : LocalOffsetInfo
no_info = record {
  location = ValueLocation.invalid;
  valid = false;
  constant = false;
  shadowing = false;
}

-- The index that the loop of alloc_slot finds, from the last slot down to the first.
unfoldable pub find_inactive : List SlotInfo → Option ℕ
find_inactive [] = none
find_inactive (slot ∷ slots) = elim (find_inactive slots) [
  | some i ↦ some (suc i)
  | none ↦ if slot.active then none else some 0
]

abbrev pub activate : SlotInfo → SlotInfo
activate slot = record slot { active = true }

abbrev pub modify : (SlotInfo → SlotInfo) → ℕ → List SlotInfo → List SlotInfo
modify f i [] = []
modify f zero (slot ∷ slots) = f slot ∷ slots
modify f (suc i) (slot ∷ slots) = slot ∷ modify f i slots

-- FunctionScope::alloc_slot
unfoldable pub alloc_slot : Bool → Bool → FunctionScope → ℕ × FunctionScope
alloc_slot constant shadowing f = elim (find_inactive f.slots) [
  | some i ↦ (i, record f { slots = modify activate i f.slots })
  | none ↦ (
    length f.slots,
    record {
      slots =
          f.slots
          ++ record { active = true; leaked = false; constant = constant; shadowing = shadowing }
            ∷ [];
      lvarcount = (f.lvarcount + 1) % 2 ^ 32;
    },
  )
]

abbrev pub free_slot : SlotInfo → SlotInfo
free_slot slot =
    if slot.leaked
    then slot
    else record { active = false; leaked = false; constant = false; shadowing = false }

-- FunctionScope::mark_as_free
unfoldable pub mark_as_free : ℕ → FunctionScope → FunctionScope
mark_as_free index f = record f { slots = modify free_slot index f.slots }

abbrev pub leak_slot : SlotInfo → SlotInfo
leak_slot slot = record slot { leaked = true }

-- FunctionScope::mark_as_leaked
unfoldable pub mark_as_leaked : ℕ → FunctionScope → FunctionScope
mark_as_leaked index f = record f { slots = modify leak_slot index f.slots }

abbrev pub Locals : Type 0
Locals = List (ℕ × LocalOffsetInfo)

unfoldable pub find_local : Locals → ℕ → Option LocalOffsetInfo
find_local [] symbol = none
find_local ((s, info) ∷ locals) symbol = if s == symbol then some info else find_local locals symbol

-- LocalScope::scope_contains_symbol
unfoldable pub scope_contains_symbol : Locals → ℕ → Bool
scope_contains_symbol locals symbol = elim (find_local locals symbol) [
  | none ↦ false
  | some i ↦ true
]

-- A function that is being analysed, and its blocks from the innermost on.
pub record Level : Type 0 where
  pub function : FunctionScope
  pub block : Locals
  pub outer : List Locals

-- LocalScope::alloc_slot
unfoldable pub alloc_symbol : ℕ → Bool → Bool → Level → LocalOffsetInfo × Level
alloc_symbol symbol constant shadowing l =
    if scope_contains_symbol l.block symbol
    then (no_info, l)
    else let r = alloc_slot constant shadowing l.function in
      let info : LocalOffsetInfo = record {
        location = ValueLocation.frame r.0 0;
        valid = true;
        constant = constant;
        shadowing = shadowing;
      } in
      (info, record l { function = r.1; block = (symbol, info) ∷ l.block })

-- LocalScope::register_symbol: `insert` leaves a symbol that is there as it is.
unfoldable pub register_symbol : ℕ → LocalOffsetInfo → Bool → Bool → Level → Level
register_symbol symbol info constant shadowing l =
    if scope_contains_symbol l.block symbol then l else record l {
      block = (symbol, record info { constant = constant; shadowing = shadowing }) ∷ l.block;
    }

-- The destructor of LocalScope: the slots of the block are marked as free.
unfoldable pub free_locals : Locals → FunctionScope → FunctionScope
free_locals [] f = f
free_locals ((symbol, info) ∷ locals) f = elim info.location [
  | frame index level ↦ free_locals locals (mark_as_free index f)
  | _ ↦ free_locals locals f
]

-- The first of the blocks that contains the symbol
unfoldable pub find_in_blocks : List Locals → ℕ → Option LocalOffsetInfo
find_in_blocks [] symbol = none
find_in_blocks (block ∷ blocks) symbol = elim (find_local block symbol) [
  | some info ↦ some info
  | none ↦ find_in_blocks blocks symbol
]

-- What access_symbol does to the function in which it finds a variable.
unfoldable pub leak : Bool → ValueLocation → FunctionScope → FunctionScope
leak mark_vars_as_leaked (frame index level) f =
    if mark_vars_as_leaked then mark_as_leaked index f else f
leak mark_vars_as_leaked _ f = f

-- The loop of LocalScope::access_symbol
unfoldable pub search : ℕ → ℕ → Bool → List Level → LocalOffsetInfo × List Level
search symbol dereferenced leaks [] = (
  record {
    location = ValueLocation.global symbol;
    valid = true;
    constant = false;
    shadowing = false;
  },
  [],
)
search symbol dereferenced leaks (l ∷ levels) = elim (find_in_blocks (l.block ∷ l.outer) symbol) [
  | some info ↦ (
    record info { location = patch_level info.location dereferenced },
    record l { function = leak leaks info.location l.function } ∷ levels,
  )
  | none ↦ let r = search symbol ((dereferenced + 1) % 2 ^ 32) true levels in (r.0, l ∷ r.1)
]

-- LocalScope::access_symbol
unfoldable pub access_symbol : ℕ → List Level → LocalOffsetInfo × List Level
access_symbol symbol levels = search symbol 0 false levels
