-- ===== src/Machine/Call.antt =====
-- VM::call_function and VM::op_return of src/vm/vm.cpp, with Frame::init and
-- Frame::get_return_address of src/vm/primitives/frame.cpp.
use charly_vm.Common.{ℕ, zero, suc, ◌+◌, ltb, if◌then◌else◌}
use charly_vm.Common.{Option, none, some, List, [], ◌∷◌, ◌++◌, length, get_elem?, set, drop}
use charly_vm.Value.Word.{Value, null_value}
use charly_vm.Bytecode.Opcode.{of_byte, instruction_length}
use charly_vm.Bytecode.MemoryBlock.{read_le}
use charly_vm.Bytecode.InstructionBlock.{Code}
use charly_vm.Machine.{Function, Frame, Machine, Outcome, Status}

abbrev pub replicate {ℓ} : {A : Type ℓ} → ℕ → A → List A
replicate zero x = []
replicate (suc n) x = x ∷ replicate n x

-- Frame::init
unfoldable pub new_frame : Option ℕ → Option ℕ → Function → Option ℕ → Value → Frame
new_frame parent catchtable function origin self = record {
  parent = parent;
  environment = function.context;
  catchtable = catchtable;
  self = self;
  origin_address = origin;
  locals = replicate function.lvarcount null_value;
}

-- The loop that copies the arguments from position `i` of the locals on, while it is below the
-- bound; Frame::write_local does nothing out of range.
unfoldable pub copy_arguments : ℕ → ℕ → List Value → List Value → List Value
copy_arguments bound i [] locals = locals
copy_arguments bound i (v ∷ vs) locals =
    copy_arguments bound (suc i) vs (if ltb i bound then set locals i v else locals)

-- The locals of the new frame. With an arguments array its word stands first, and the arguments
-- up to `argc` behind it.
unfoldable pub bind_arguments : Function → Value → List Value → List Value → List Value
bind_arguments function array argv locals =
    if function.needs_arguments
    then copy_arguments (suc function.argc) 1 argv (set locals 0 array)
    else copy_arguments function.lvarcount 0 argv locals

-- VM::call_function; `array` is the word of the arguments array, if one is allocated.
unfoldable pub call_function : Value → Function → List Value → Value → Machine → Outcome
call_function array function argv self m =
    if ltb (length argv) function.minimum_argc
    then Outcome.thrown m
    else let frame = new_frame m.frames m.catchstack function m.ip self in
      Outcome.ok (record m {
        frames = some (length m.frame_store);
        frame_store =
            m.frame_store
            ++ record frame { locals = bind_arguments function array argv frame.locals } ∷ [];
        arrays = if function.needs_arguments then (array, argv) ∷ m.arrays else m.arrays;
        ip = some function.body_address;
      })

-- Frame::get_return_address; `none` outside is a byte that is no opcode.
unfoldable pub get_return_address : Code → Frame → Option (Option ℕ)
get_return_address code frame = elim frame.origin_address [
  | none ↦ some none
  | some origin ↦ elim (of_byte (read_le 1 (drop origin code))) [
    | none ↦ none
    | some op ↦ some (some (origin + instruction_length op))
  ]
]

-- VM::op_return
unfoldable pub op_return : Machine → Outcome
op_return m = elim m.frames [
  | none ↦ Outcome.panic Status.cant_return_from_top_level
  | some f ↦ elim (get_elem? m.frame_store f) [
    | none ↦ Outcome.undefined
    | some frame ↦ elim (get_return_address m.code frame) [
      | none ↦ Outcome.undefined
      | some address ↦
          Outcome.ok
            (record m { catchstack = frame.catchtable; frames = frame.parent; ip = address })
    ]
  ]
]
