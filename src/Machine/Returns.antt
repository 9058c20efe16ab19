-- ===== src/Machine/Returns.antt =====
-- A call and the return from it, src/vm/vm.cpp.
use charly_vm.Common.{
  ℕ, ◌+◌, ◌≡◌, ◌<◌, ◌⊎◌, inl, inr, ltb, refl, arith, List, [], ◌∷◌, ◌++◌, length, ap, ◌∙◌,
}
use charly_vm.Common.{Bool-cases, Option, some, get_elem?, drop, if◌then◌else◌}
use charly_vm.Value.Word.{Value}
use charly_vm.Bytecode.Opcode.{Opcode, of_byte, instruction_length}
use charly_vm.Bytecode.MemoryBlock.{read_le}
use charly_vm.Machine.{Function, Frame, Machine, Outcome}
use charly_vm.Machine.Call.{new_frame, bind_arguments, call_function, get_return_address, op_return}

pub get_elem?-at_end {ℓ} :
    {A : Type ℓ} (xs : List A) (x : A) → get_elem? (xs ++ x ∷ []) (length xs) ≡ some x
get_elem?-at_end [] x = refl
get_elem?-at_end (y ∷ xs) x = get_elem?-at_end xs x

module _ (array : Value) (function : Function) (argv : List Value) (self : Value)
    (m : Machine) where
  -- The frame that the call allocates.
  abbrev pub entered : Frame
  entered =
      let frame = new_frame m.frames m.catchstack function m.ip self in
      record frame { locals = bind_arguments function array argv frame.locals }

  -- The machine in the body of the function.
  abbrev in_body : Machine
  in_body = record m {
    frames = some (length m.frame_store);
    frame_store = m.frame_store ++ entered ∷ [];
    arrays = if function.needs_arguments then (array, argv) ∷ m.arrays else m.arrays;
    ip = some function.body_address;
  }

  -- A call with enough arguments enters the body with a new frame behind the others, whose parent
  -- is the frame of the caller, and keeps the stack and the catch tables; one with too few throws.
  pub call_function-cases :
      ((length argv < function.minimum_argc)
        × (call_function array function argv self m ≡ Outcome.thrown m))
      ⊎ ((n : Machine) × (call_function array function argv self m ≡ Outcome.ok n)
          × (n.ip ≡ some function.body_address)
          × (n.stack ≡ m.stack)
          × (n.catchstack ≡ m.catchstack)
          × (n.frames ≡ some (length m.frame_store))
          × (get_elem? n.frame_store (length m.frame_store) ≡ some entered))
  unfolding call_function
  call_function-cases = elim (Bool-cases (ltb (length argv) function.minimum_argc)) [
    | inl e ↦ inl (ground (arith, e), rw (e, call_function))
    | inr e ↦ inr (
      in_body,
      rw (e, call_function),
      refl,
      refl,
      refl,
      refl,
      get_elem?-at_end m.frame_store entered,
    )
  ]

-- When `call_function` entered a function, and its body has run, whatever it did to the locals,
-- the stack and the frames other than that of the call, the return goes on behind the instruction
-- that called, in the frame and with the catch tables that the machine had before the call.
pub op_return-call_function :
    (array : Value) (function : Function) (argv : List Value) (self : Value) (m n o : Machine)
    {origin k : ℕ} {op : Opcode} {frame : Frame} (locals : List Value)
    → call_function array function argv self m ≡ Outcome.ok n
    → n.frames ≡ some k
    → get_elem? n.frame_store k ≡ some frame
    → m.ip ≡ some origin
    → of_byte (read_le 1 (drop origin o.code)) ≡ some op
    → o.frames ≡ n.frames
    → get_elem? o.frame_store k ≡ some (record frame { locals = locals })
    → op_return o
      ≡ Outcome.ok (record o {
        catchstack = m.catchstack;
        frames = m.frames;
        ip = some (origin + instruction_length op);
      })
unfolding op_return get_return_address new_frame
op_return-call_function array function argv self m n o {k = k} {frame = frame} locals call a b c d e
      f =
    elim (call_function-cases array function argv self m) [
      | inl h ↦ cc
      | inr h ↦
          let same : n ≡ h.0 = cc in
          let at_end : k ≡ length m.frame_store = cc in
          let is_entered : frame ≡ entered array function argv self m = cc in
          let resumed : Frame → Option Frame = λ x. some (record x { locals = locals }) in
          let current : o.frames ≡ some k = cc in
          let body : get_elem? o.frame_store k
              ≡ some (record (entered array function argv self m) { locals = locals }) =
            f ∙ ap resumed is_entered in
          rw (current, body, c, d, op_return) refl
    ]
