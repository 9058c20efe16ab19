-- ===== src/Bytecode/Assembler.antt =====
-- include/assembler.h and src/compiler/assembler.cpp: labels, and references to labels that are
-- patched when the label is placed. Offsets are `uint32_t` and wrap around.
pub mod Fields
pub mod Resolve
pub mod Writes
pub mod Labels
pub mod Functions
use charly_vm.Common.{
  ℕ, ◌+◌, ◌-◌, ◌%◌, ◌^◌, Bool, true, false, ◌==◌, if◌then◌else◌, Option, none, some,
}
use charly_vm.Common.{List, [], ◌∷◌, ◌++◌, length, take, drop}
use charly_vm.Value.Word.{Value}
use charly_vm.Bytecode.MemoryBlock.{bytes_le}
use charly_vm.Bytecode.Opcode.{Opcode, byte_of}
use charly_vm.Bytecode.InstructionBlock.{Code, write_op, write_u32, write_u64, write_bool}

abbrev pub Label : Type 0
Label = ℕ

pub record UnresolvedReference : Type 0 where
  pub id : Label
  pub target_offset : ℕ
  pub instruction_base : ℕ

pub record Assembler : Type 0 where
  pub code : Code
  pub labels : List (Label × ℕ)
  pub unresolved : List UnresolvedReference
  pub next_label_id : ℕ

-- `labels.count(label)` and `labels[label]`
unfoldable pub find_label : List (Label × ℕ) → Label → Option ℕ
find_label [] label = none
find_label ((l, offset) ∷ ls) label = if l == label then some offset else find_label ls label

-- `a - b` on `uint32_t`
abbrev pub sub_u32 : ℕ → ℕ → ℕ
sub_u32 a b = (a % 2 ^ 32 + 2 ^ 32 - b % 2 ^ 32) % 2 ^ 32

-- Assembler::reset; the code stays.
unfoldable pub reset : Assembler → Assembler
reset a = record a { labels = []; unresolved = []; next_label_id = 0 }

-- Assembler::reserve_label
unfoldable pub reserve_label : Assembler → Assembler × Label
reserve_label a = (record a { next_label_id = (a.next_label_id + 1) % 2 ^ 32 }, a.next_label_id)

-- Assembler::place_label(Label)
unfoldable pub place_label : Label → Assembler → Assembler
place_label label a = record a { labels = (label, length a.code) ∷ a.labels }

-- Assembler::place_label()
unfoldable pub place_new_label : Assembler → Assembler × Label
unfolding reserve_label place_label
place_new_label a = let (a', label) = reserve_label a in (place_label label a', label)

-- The offset of a placed label, as computed when `code` ends after the opcode.
abbrev pub placed_offset : ℕ → Code → ℕ
placed_offset offset code = (sub_u32 offset (length code) + 1) % 2 ^ 32

-- The common body of the branch writers.
unfoldable pub write_to_label : Opcode → Label → Assembler → Assembler
write_to_label op label a =
    let code = write_op a.code op in
    elim (find_label a.labels label) [
      | some offset ↦ record a { code = write_u32 code (placed_offset offset code) }
      | none ↦ record a {
        code = write_u32 code 0;
        unresolved =
            a.unresolved
            ++ record {
              id = label;
              target_offset = length code % 2 ^ 32;
              instruction_base = length a.code % 2 ^ 32;
            }
              ∷ [];
      }
    ]

unfoldable pub write_branch_to_label : Label → Assembler → Assembler
write_branch_to_label = write_to_label Opcode.branch

unfoldable pub write_branchif_to_label : Label → Assembler → Assembler
write_branchif_to_label = write_to_label Opcode.branch_if

unfoldable pub write_branchunless_to_label : Label → Assembler → Assembler
write_branchunless_to_label = write_to_label Opcode.branch_unless

unfoldable pub write_branchlt_to_label : Label → Assembler → Assembler
write_branchlt_to_label = write_to_label Opcode.branch_lt

unfoldable pub write_branchgt_to_label : Label → Assembler → Assembler
write_branchgt_to_label = write_to_label Opcode.branch_gt

unfoldable pub write_branchle_to_label : Label → Assembler → Assembler
write_branchle_to_label = write_to_label Opcode.branch_le

unfoldable pub write_branchge_to_label : Label → Assembler → Assembler
write_branchge_to_label = write_to_label Opcode.branch_ge

unfoldable pub write_brancheq_to_label : Label → Assembler → Assembler
write_brancheq_to_label = write_to_label Opcode.branch_eq

unfoldable pub write_branchneq_to_label : Label → Assembler → Assembler
write_branchneq_to_label = write_to_label Opcode.branch_neq

unfoldable pub write_registercatchtable_to_label : Label → Assembler → Assembler
write_registercatchtable_to_label = write_to_label Opcode.register_catch_table

-- The operands of a function after the body's offset.
abbrev pub function_operands : Code → Bool → Bool → ℕ → ℕ → ℕ → Code
function_operands code anonymous needs_arguments argc minimum_argc lvarcount =
    write_u32
      (write_u32 (write_u32 (write_bool (write_bool code anonymous) needs_arguments) argc)
        minimum_argc)
      lvarcount

unfoldable pub write_putfunction_to_label :
    Value → Label → Bool → Bool → ℕ → ℕ → ℕ → Assembler → Assembler
write_putfunction_to_label symbol label anonymous needs_arguments argc minimum_argc lvarcount a =
    let code = write_u64 (write_op a.code Opcode.put_function) symbol in
    elim (find_label a.labels label) [
      | some offset ↦ record a {
        code =
            function_operands (write_u32 code (placed_offset offset code)) anonymous needs_arguments
              argc minimum_argc lvarcount;
      }
      | none ↦ record a {
        code =
            function_operands (write_u32 code 0) anonymous needs_arguments argc minimum_argc
              lvarcount;
        unresolved =
            a.unresolved
            ++ record {
              id = label;
              target_offset = length code % 2 ^ 32;
              instruction_base = length a.code % 2 ^ 32;
            }
              ∷ [];
      }
    ]

-- `read<int32_t>(offset) = value`
unfoldable pub patch_u32 : Code → ℕ → ℕ → Code
patch_u32 code offset v = take offset code ++ (bytes_le 4 v ++ drop (offset + 4) code)

-- The loop of resolve_unresolved_label_references: the code, and the references that stay.
unfoldable pub resolve_loop :
    List (Label × ℕ) → List UnresolvedReference → Code → Code × List UnresolvedReference
resolve_loop labels [] code = (code, [])
resolve_loop labels (r ∷ rs) code =
    let skip = resolve_loop labels rs code in
    elim (find_label labels r.id) [
      | none ↦ (skip.0, r ∷ skip.1)
      | some offset ↦
          resolve_loop labels rs
            (patch_u32 code r.target_offset (sub_u32 offset r.instruction_base))
    ]

-- Assembler::resolve_unresolved_label_references
unfoldable pub resolve_unresolved_label_references : Assembler → Assembler
resolve_unresolved_label_references a =
    let done = resolve_loop a.labels a.unresolved a.code in
    record a { code = done.0; unresolved = done.1 }

-- Assembler::has_unresolved_label_references
unfoldable pub has_unresolved_label_references : Assembler → Bool
has_unresolved_label_references a = elim a.unresolved [ [] ↦ false | r ∷ rs ↦ true ]
