-- ===== src/Machine/Tests.antt =====
-- The theorems of src/vm/vm.cpp on a machine with two frames.
use charly_vm.Common.{ℕ, zero, suc, ◌+◌, ◌≡◌, refl, false, arith}
use charly_vm.Common.{none, some, [], ◌∷◌}
use charly_vm.Common.Int.{pos, ◌+ℤ◌, pos_part}
use charly_vm.Bytecode.Opcode.{Opcode, instruction_length, of_byte}
use charly_vm.Bytecode.MemoryBlock.{read_le}
use charly_vm.Machine.{
  Function, Frame, Machine, Outcome, push_stack, op_setlocal, op_readlocal, travel,
}
use charly_vm.Machine.Call.{call_function, op_return}
use charly_vm.Machine.Catch.{op_registercatchtable, unwind_catchstack}
use charly_vm.Machine.Locals.{op_readlocal-op_setlocal}
use charly_vm.Machine.Returns.{entered, op_return-call_function}
use charly_vm.Machine.Unwind.{IsAncestor, IsOrdered, unwind_catchstack-register}

-- The frame of the program, and one of a closure over it.
abbrev outer_frame : Frame
outer_frame = record {
  parent = none;
  environment = none;
  catchtable = none;
  self = 1;
  origin_address = none;
  locals = 5 ∷ 6 ∷ [];
}

abbrev inner_frame : Frame
inner_frame = record {
  parent = some 0;
  environment = some 0;
  catchtable = none;
  self = 1;
  origin_address = some 0;
  locals = [];
}

abbrev two_frames : Machine
two_frames = record {
  stack = 10 ∷ 20 ∷ 30 ∷ [];
  frames = some 1;
  catchstack = none;
  ip = some 0;
  frame_store = outer_frame ∷ inner_frame ∷ [];
  table_store = [];
  arrays = [];
  code = 0 ∷ [];
}

abbrev two_arguments : Function
two_arguments = record {
  body_address = 40;
  context = some 0;
  argc = 2;
  minimum_argc = 1;
  lvarcount = 3;
  needs_arguments = false;
}

outer_is_seen : travel two_frames.frame_store 1 1 ≡ some 0
unfolding travel
outer_is_seen = refl

op_readlocal-op_setlocal_example :
    (n : Machine) × (op_setlocal 1 1 (push_stack 99 two_frames) ≡ Outcome.ok n)
    × (n ≡ record two_frames { frame_store = n.frame_store })
    × (op_readlocal 1 1 n ≡ Outcome.ok (push_stack 99 n))
op_readlocal-op_setlocal_example =
    op_readlocal-op_setlocal 1 1 99 two_frames refl outer_is_seen refl (omega arith)

-- The machine that the call leaves.
abbrev called : Machine
called = record two_frames {
  frames = some 2;
  ip = some 40;
  frame_store = outer_frame ∷ inner_frame ∷ entered 0 two_arguments (7 ∷ 8 ∷ []) 1 two_frames ∷ [];
}

calls : call_function 0 two_arguments (7 ∷ 8 ∷ []) 1 two_frames ≡ Outcome.ok called
unfolding call_function
calls = refl

-- The machine in the body, after a local was changed.
abbrev in_call : Machine
in_call = record two_frames {
  frames = some 2;
  ip = some 44;
  stack = 77 ∷ [];
  frame_store =
      outer_frame
      ∷ inner_frame
      ∷ record (entered 0 two_arguments (7 ∷ 8 ∷ []) 1 two_frames) { locals = 9 ∷ [] }
      ∷ [];
}

nop_at_origin : of_byte (read_le 1 in_call.code) ≡ some Opcode.nop
unfolding of_byte read_le
nop_at_origin = refl

op_return-call_function_example :
    op_return in_call
    ≡ Outcome.ok (record in_call {
      catchstack = none;
      frames = some 1;
      ip = some (0 + instruction_length Opcode.nop);
    })
op_return-call_function_example =
    op_return-call_function 0 two_arguments (7 ∷ 8 ∷ []) 1 two_frames called in_call (9 ∷ []) calls
      refl refl refl nop_at_origin refl refl

abbrev guarded : Machine
guarded = record two_frames {
  catchstack = some 0;
  table_store = record { parent = none; frame = some 1; address = 12; stacksize = 3 } ∷ [];
}

-- A call deeper, with two more values on the stack.
abbrev deeper : Machine
deeper = record guarded {
  frames = some 2;
  stack = 1 ∷ 2 ∷ 10 ∷ 20 ∷ 30 ∷ [];
  frame_store = outer_frame ∷ inner_frame ∷ record inner_frame { parent = some 1 } ∷ [];
}

guarded-register : op_registercatchtable (pos 12) two_frames ≡ Outcome.ok guarded
unfolding op_registercatchtable ◌+ℤ◌
guarded-register = refl

no_parent : {a b : Frame} {p : ℕ} → some a ≡ some b → b.parent ≡ some p → a.parent ≡ none → ⊥
no_parent e f g = cc

parent_of :
    {a b : Frame} {p q : ℕ} → some a ≡ some b → b.parent ≡ some p → a.parent ≡ some q → q ≡ p
parent_of e f g = cc

deeper-IsOrdered : IsOrdered deeper.frame_store
deeper-IsOrdered zero p frame e f = elim (no_parent e f refl) [ ]
deeper-IsOrdered (suc zero) p frame e f = omega (arith, parent_of e f refl)
deeper-IsOrdered (suc (suc zero)) p frame e f = omega (arith, parent_of e f refl)
deeper-IsOrdered (suc (suc (suc i))) p frame e f = cc

unwind_catchstack-register_example :
    unwind_catchstack false 99 deeper
    ≡ Outcome.ok (record deeper {
      catchstack = none;
      frames = some 1;
      ip = some (pos_part (pos 0 +ℤ pos 12));
      stack = 99 ∷ 10 ∷ 20 ∷ 30 ∷ [];
    })
unwind_catchstack-register_example =
    unwind_catchstack-register false 99 (pos 12) two_frames guarded deeper (1 ∷ 2 ∷ []) refl
      guarded-register refl refl refl deeper-IsOrdered (omega arith)
      (IsAncestor.up 2 (record inner_frame { parent = some 1 }) refl IsAncestor.here)
