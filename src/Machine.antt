-- ===== src/Machine.antt =====
-- The stack, the frames and the catch tables of the machine: src/vm/vm.cpp, include/vm.h,
-- src/vm/primitives/frame.cpp and catchtable.cpp. Frames and catch tables stand in two lists in
-- the order of their allocation, and a reference to one is its position, so that closures which
-- share an environment share its locals. The top of the stack comes first. An address is an
-- offset in the code, and `none` the null pointer.
pub mod Call
pub mod Catch
pub mod Returns
pub mod Unwind
pub mod Stack
pub mod Locals
mod Tests
use charly_vm.Common.{ℕ, zero, suc, ◌+◌, ◌-◌, ◌<◌, Bool, true, false, ◌==◌, ltb, if◌then◌else◌}
use charly_vm.Common.{Option, none, some, List, [], ◌∷◌, ◌++◌, length, get_elem?, set, drop}
use charly_vm.Value.Word.{Value, null_value}
use charly_vm.Bytecode.Opcode.{of_byte, instruction_length}
use charly_vm.Bytecode.MemoryBlock.{read_le}
use charly_vm.Bytecode.InstructionBlock.{Code}

-- The fields of Function that calls use.
pub record Function : Type 0 where
  pub body_address : ℕ
  pub context : Option ℕ
  pub argc : ℕ
  pub minimum_argc : ℕ
  pub lvarcount : ℕ
  pub needs_arguments : Bool

pub record Frame : Type 0 where
  pub parent : Option ℕ
  pub environment : Option ℕ
  pub catchtable : Option ℕ
  pub self : Value
  pub origin_address : Option ℕ
  pub locals : List Value

pub record CatchTable : Type 0 where
  pub parent : Option ℕ
  pub frame : Option ℕ
  pub address : ℕ
  pub stacksize : ℕ

-- The part of VM that the operations below change, the allocated frames, catch tables and
-- arguments arrays, and the code.
pub record Machine : Type 0 where
  pub stack : List Value
  pub frames : Option ℕ
  pub catchstack : Option ℕ
  pub ip : Option ℕ
  pub frame_store : List Frame
  pub table_store : List CatchTable
  pub arrays : List (Value × List Value)
  pub code : Code

-- The codes of include/status.h.
pub data Status : Type 0 where
  success cant_return_from_top_level catch_stack_empty : Status
  read_failed_out_of_bounds read_failed_too_deep : Status
  write_failed_out_of_bounds write_failed_too_deep : Status
  invalid_argument_type corrupted_stack runtime_task_not_callable : Status
  invalid_instruction_pointer invalid_thread_id undefined_global_reference : Status
  invalid_syscall_id debug : Status

-- How an operation ends: it returns, the machine panics, a text is thrown, or an exception goes
-- to the handler of uncaught exceptions. `undefined` is a null or dangling reference.
pub data Outcome : Type 0 where
  ok : Machine → Outcome
  panic : Status → Outcome
  thrown : Machine → Outcome
  uncaught : Value → Machine → Outcome
  undefined : Outcome

abbrev pub and_then : Outcome → (Machine → Outcome) → Outcome
and_then (ok m) k = k m
and_then (panic s) k = panic s
and_then (thrown m) k = thrown m
and_then (uncaught v m) k = uncaught v m
and_then undefined k = undefined

-- VM::push_stack
abbrev pub push_stack : Value → Machine → Machine
push_stack v m = record m { stack = v ∷ m.stack }

-- VM::pop_stack, and what goes on with the value
unfoldable pub pop_stack : Machine → (Value → Machine → Outcome) → Outcome
pop_stack m k = elim m.stack [
  | [] ↦ panic Status.corrupted_stack
  | v ∷ s ↦ k v (record m { stack = s })
]

-- VM::op_pop
unfoldable pub op_pop : Machine → Outcome
op_pop m = pop_stack m (λ v n. ok n)

-- VM::op_dup
unfoldable pub op_dup : Machine → Outcome
op_dup m = elim m.stack [ [] ↦ undefined | v ∷ s ↦ ok (push_stack v m) ]

-- VM::op_swap
unfoldable pub op_swap : Machine → Outcome
op_swap m = pop_stack m (λ a n. pop_stack n (λ b o. ok (push_stack b (push_stack a o))))

-- The first loop of op_dupn: the elements in the order in which they are popped.
unfoldable pub pop_count : ℕ → Machine → (List Value → Machine → Outcome) → Outcome
pop_count zero m k = k [] m
pop_count (suc n) m k = pop_stack m (λ v o. pop_count n o (λ vs p. k (v ∷ vs) p))

-- The other two loops of op_dupn, which push the buffer from its end.
unfoldable pub push_back : List Value → Machine → Machine
push_back [] m = m
push_back (v ∷ vs) m = push_stack v (push_back vs m)

-- VM::op_dupn
unfoldable pub op_dupn : ℕ → Machine → Outcome
op_dupn count m = pop_count count m (λ buffer n. ok (push_back buffer (push_back buffer n)))

-- Frame::get_environment of the frame at a position; `none` if there is no such frame.
abbrev pub get_environment : List Frame → ℕ → Option (Option ℕ)
get_environment [] f = none
get_environment (frame ∷ fs) zero = some frame.environment
get_environment (frame ∷ fs) (suc f) = get_environment fs f

-- The walk of op_readlocal, op_setlocal and op_setlocalpush along the environments.
unfoldable pub travel : List Frame → ℕ → ℕ → Option ℕ
travel fs f zero = some f
travel fs f (suc level) = elim (get_environment fs f) [
  | none ↦ none
  | some environment ↦ elim environment [ none ↦ none | some e ↦ travel fs e level ]
]

-- VM::op_readlocal
unfoldable pub op_readlocal : ℕ → ℕ → Machine → Outcome
op_readlocal index level m = elim m.frames [
  | none ↦ undefined
  | some f ↦ elim (travel m.frame_store f level) [
    | none ↦ panic Status.read_failed_too_deep
    | some g ↦ elim (get_elem? m.frame_store g) [
      | none ↦ undefined
      | some frame ↦ elim (get_elem? frame.locals index) [
        | none ↦ panic Status.read_failed_out_of_bounds
        | some v ↦ ok (push_stack v m)
      ]
    ]
  ]
]

-- The part that op_setlocal and op_setlocalpush share.
unfoldable pub write_local : ℕ → ℕ → Value → Machine → Outcome
write_local index level v m = elim m.frames [
  | none ↦ undefined
  | some f ↦ elim (travel m.frame_store f level) [
    | none ↦ panic Status.write_failed_too_deep
    | some g ↦ elim (get_elem? m.frame_store g) [
      | none ↦ undefined
      | some frame ↦
          if ltb index (length frame.locals)
          then ok (record m {
            frame_store = set m.frame_store g (record frame { locals = set frame.locals index v });
          })
          else panic Status.write_failed_out_of_bounds
    ]
  ]
]

-- VM::op_setlocal and VM::op_setlocalpush
unfoldable pub op_setlocal : ℕ → ℕ → Machine → Outcome
op_setlocal index level m = pop_stack m (λ v n. write_local index level v n)

unfoldable pub op_setlocalpush : ℕ → ℕ → Machine → Outcome
op_setlocalpush index level m =
    pop_stack m (λ v n. and_then (write_local index level v n) (λ o. ok (push_stack v o)))
