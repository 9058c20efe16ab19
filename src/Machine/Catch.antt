-- ===== src/Machine/Catch.antt =====
-- Catch tables: VM::pop_catchtable, unwind_catchstack, op_registercatchtable, op_popcatchtable and
-- op_throw of src/vm/vm.cpp.
use charly_vm.Common.{ℕ, zero, suc, ◌-◌, Bool, true, false, ◌==◌, ltb, if◌then◌else◌}
use charly_vm.Common.{Option, none, some, List, [], ◌∷◌, ◌++◌, length, get_elem?, drop}
use charly_vm.Common.Int.{ℤ, pos, ◌+ℤ◌, pos_part}
use charly_vm.Value.Word.{Value}
use charly_vm.Machine.{Frame, Machine, Outcome, Status, pop_stack}

-- VM::op_registercatchtable, with `ip` the address of the instruction
unfoldable pub op_registercatchtable : ℤ → Machine → Outcome
op_registercatchtable offset m = elim m.ip [
  | none ↦ Outcome.undefined
  | some ip ↦ Outcome.ok (record m {
    catchstack = some (length m.table_store);
    table_store =
        m.table_store
        ++ record {
          parent = m.catchstack;
          frame = m.frames;
          address = pos_part (pos ip +ℤ offset);
          stacksize = length m.stack;
        }
          ∷ [];
  })
]

-- VM::op_popcatchtable: without a table it does nothing.
unfoldable pub op_popcatchtable : Machine → Outcome
op_popcatchtable m = elim m.catchstack [
  | none ↦ Outcome.ok m
  | some t ↦ elim (get_elem? m.table_store t) [
    | none ↦ Outcome.undefined
    | some table ↦ Outcome.ok (record m { catchstack = table.parent })
  ]
]

abbrev pub same_frame : Option ℕ → Option ℕ → Bool
same_frame none none = true
same_frame none (some g) = false
same_frame (some f) none = false
same_frame (some f) (some g) = f == g

-- The walk along the parents to the frame of the table, or past the last frame. A frame is
-- allocated after its parent, so a walk from frame `f` takes at most `f + 1` steps.
unfoldable pub unwind_frames : ℕ → List Frame → Option ℕ → Option ℕ → Option ℕ
unwind_frames fuel fs none target = none
unwind_frames zero fs (some f) target = none
unwind_frames (suc fuel) fs (some f) target =
    if same_frame (some f) target then some f else elim (get_elem? fs f) [
      | none ↦ none
      | some frame ↦ unwind_frames fuel fs frame.parent target
    ]

-- VM::unwind_catchstack with a payload; `handler` says whether there is a handler of uncaught
-- exceptions.
unfoldable pub unwind_catchstack : Bool → Value → Machine → Outcome
unwind_catchstack handler payload m = elim m.catchstack [
  | none ↦ if handler then Outcome.uncaught payload m else Outcome.panic Status.catch_stack_empty
  | some t ↦ elim (get_elem? m.table_store t) [
    | none ↦ Outcome.undefined
    | some table ↦
        if ltb (length m.stack) table.stacksize
        then Outcome.panic Status.corrupted_stack
        else Outcome.ok (record m {
          catchstack = table.parent;
          frames = unwind_frames (suc (length m.frame_store)) m.frame_store m.frames table.frame;
          ip = some table.address;
          stack = payload ∷ drop (length m.stack - table.stacksize) m.stack;
        })
  ]
]

-- VM::op_throw
unfoldable pub op_throw : Bool → Machine → Outcome
op_throw handler m = pop_stack m (λ v n. unwind_catchstack handler v n)
