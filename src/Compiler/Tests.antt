-- ===== src/Compiler/Tests.antt =====
-- The theorems of src/compiler/lexer.cpp and src/compiler/lvar-alloc.cpp on small texts and
-- scopes. A character is encoded as itself, and each float is 0.
use charly_vm.Common.{
  ℕ, zero, suc, ◌≤◌, ◌≡◌, ◌≢◌, refl, arith, true, false, none, some, List, [], ◌∷◌, take,
}
use charly_vm.Value.Word.{Value}
use charly_vm.Compiler.Source.{Source, open_source, read_char, get_current_frame}
use charly_vm.Compiler.Lexer.{tokenize, is_eof}
use charly_vm.Compiler.Lexer.Scan.{
  done, diverge, comment_loop, consume_string, consume_ident, is_ident_part, is_ident_start,
  is_alpha, is_numeric,
}
use charly_vm.Compiler.Lexer.Progress.{Returns}
use charly_vm.Compiler.Lexer.Ends.{tokenize-ends, tokenize-diverges}
use charly_vm.Compiler.Lexer.Strings.{Escape, Spells, consume_string-Closed}
use charly_vm.Compiler.Lexer.Idents.{Passes, bytes, consume_ident-text, consume_ident-end}
use charly_vm.Compiler.Scopes.{
  FunctionScope, ValueLocation, LocalOffsetInfo, Level, alloc_slot, mark_as_leaked, mark_as_free,
  access_symbol, find_in_blocks, find_local,
}
use charly_vm.Compiler.Scopes.Rewrite.{new_level, Program, visit}
use charly_vm.Compiler.Scopes.Visits.{ResultKeeps, visit-Keeps}
use charly_vm.Compiler.Scopes.Sound.{AllSound, LevelSound, uses_in}
use charly_vm.Compiler.Scopes.Slots.{occupied}
use charly_vm.Compiler.Scopes.Captured.{leaked_in, visit-captured}
use charly_vm.Compiler.Scopes.Levels.{
  access_symbol-captured, alloc_slot-Leaked, no_step, then_slot, frees,
}

abbrev same_byte : ℕ → List ℕ
same_byte c = c ∷ []

abbrev no_float : List ℕ → Value
no_float text = 0

-- `a+1` and a newline
abbrev sum_text : List ℕ
sum_text = 97 ∷ 43 ∷ 49 ∷ 10 ∷ []

tokenize-ends_example :
    Returns (λ r. is_eof r.token.type ≡ true) (tokenize same_byte no_float sum_text)
tokenize-ends_example = tokenize-ends same_byte no_float sum_text refl

-- `//a` without a newline behind it
tokenize-diverges_example :
    (tokenize same_byte no_float (b'/' ∷ b'/' ∷ 97 ∷ []) ≡ diverge)
    × ((fuel : ℕ)
        → comment_loop same_byte fuel
            (read_char same_byte (open_source same_byte (b'/' ∷ b'/' ∷ 97 ∷ [])))
          ≡ diverge)
tokenize-diverges_example =
    tokenize-diverges same_byte no_float (97 ∷ []) ((omega arith, omega arith), tt)

abbrev at : ℕ → List ℕ → Source
at c rest = record { rest = rest; current_char = c; frame = c ∷ []; pos = 1; row = 1; column = 1 }

-- The text `x\n` between quotes, with a semicolon behind it
abbrev literal : Spells same_byte (120 ∷ 92 ∷ 110 ∷ []) (120 ∷ 10 ∷ [])
literal =
    Spells.plain 120 (omega arith) (omega arith) (omega arith)
      (Spells.escaped Escape.newline (omega arith) Spells.empty)

consume_string-Closed_example :
    (q : Source) × ((consume_string same_byte (at 34 (120 ∷ 92 ∷ 110 ∷ 34 ∷ 59 ∷ []))
        ≡ done (read_char same_byte q, 120 ∷ 10 ∷ []))
      × ((q.current_char ≡ b'"') × (q.rest ≡ 59 ∷ [])))
consume_string-Closed_example =
    consume_string-Closed same_byte literal (59 ∷ []) (at 34 (120 ∷ 92 ∷ 110 ∷ 34 ∷ 59 ∷ [])) refl

ident_chars : Passes is_ident_part (97 ∷ 98 ∷ [])
unfolding is_ident_part is_ident_start is_alpha is_numeric
ident_chars = (refl, (refl, tt))

semicolon_ends : is_ident_part 59 ≡ false
unfolding is_ident_part is_ident_start is_alpha is_numeric
semicolon_ends = refl

consume_ident-text_example :
    (q : Source) × ((consume_ident same_byte (at 97 (98 ∷ 59 ∷ [])) ≡ done q)
      × (get_current_frame q ≡ bytes same_byte (97 ∷ 98 ∷ [])))
consume_ident-text_example =
    consume_ident-text same_byte (at 97 (98 ∷ 59 ∷ [])) 97 (98 ∷ []) 59 [] (refl, (refl, refl))
      ident_chars semicolon_ends (omega arith) refl

consume_ident-end_example :
    (q : Source) × ((consume_ident same_byte (at 97 (98 ∷ [])) ≡ done q)
      × (get_current_frame q ≡ take 1 (bytes same_byte (97 ∷ 98 ∷ []))))
consume_ident-end_example =
    consume_ident-end same_byte (at 97 (98 ∷ [])) 97 (98 ∷ []) (refl, (refl, refl)) ident_chars

-- A variable, a block with a constant that is declared twice, and a closure that reads both
abbrev closure_program : Program
closure_program = Program.initialisation 1 false Program.nothing (
    Program.block
      (Program.initialisation 2 true Program.nothing (
        Program.initialisation 2 false (Program.identifier 1 Program.nothing) (
          Program.function 9 true (4 ∷ [])
            (Program.identifier 2 (Program.identifier 1 Program.nothing)) Program.nothing)))
      (Program.initialisation 3 false Program.nothing Program.nothing))

-- A function with a slot that was leaked
abbrev leaked_level : Level
leaked_level = record new_level {
  function = record {
    slots = record { active = true; leaked = true; constant = false; shadowing = false } ∷ [];
    lvarcount = 1;
  };
}

leaked_level-AllSound : AllSound (leaked_level ∷ [])
leaked_level-AllSound =
    (record { alone = λ i. omega arith; leaks = (λ e. refl, tt); counted = refl }, tt)

visit-Keeps_example : ResultKeeps (leaked_level ∷ []) (visit closure_program [] (leaked_level ∷ []))
visit-Keeps_example = visit-Keeps closure_program [] leaked_level [] leaked_level-AllSound

abbrev local_info : LocalOffsetInfo
local_info = record {
  location = ValueLocation.frame 0 0;
  valid = true;
  constant = false;
  shadowing = false;
}

abbrev one_slot : FunctionScope
one_slot = record {
  slots = record { active = true; leaked = false; constant = false; shadowing = false } ∷ [];
  lvarcount = 1;
}

abbrev with_local : Level
with_local = record { function = one_slot; block = (4, local_info) ∷ []; outer = [] }

new_level_lacks : find_in_blocks (new_level.block ∷ new_level.outer) 4 ≡ none
unfolding find_in_blocks find_local
new_level_lacks = refl

with_local_has : find_in_blocks (with_local.block ∷ with_local.outer) 4 ≡ some local_info
unfolding find_in_blocks find_local
with_local_has = refl

access_symbol-captured_example :
    ((access_symbol 4 (new_level ∷ new_level ∷ with_local ∷ [])).0.location
      ≡ ValueLocation.frame 0 2)
    × ((access_symbol 4 (new_level ∷ new_level ∷ with_local ∷ [])).1
        ≡ new_level ∷ new_level ∷ record with_local { function = mark_as_leaked 0 one_slot } ∷ [])
access_symbol-captured_example =
    access_symbol-captured 4 0 0 new_level (new_level ∷ []) with_local [] local_info
      (new_level_lacks, (new_level_lacks, tt)) with_local_has refl (omega arith)

new_level-LevelSound : LevelSound new_level
new_level-LevelSound = record { alone = λ i. omega arith; leaks = tt; counted = refl }

one_alone : (i : ℕ) → uses_in i (with_local.block ∷ with_local.outer) ≤ occupied one_slot.slots i
one_alone zero = omega arith
one_alone (suc i) = ground arith

captured-AllSound : AllSound (new_level ∷ new_level ∷ with_local ∷ [])
captured-AllSound = (
  new_level-LevelSound,
  (
    new_level-LevelSound,
    (record { alone = one_alone; leaks = (λ e. refl, tt); counted = refl }, tt),
  ),
)

visit-captured_example :
    (errors : List ℕ) × ((after : List Level) × ((visit closure_program []
            (access_symbol 4 (new_level ∷ new_level ∷ with_local ∷ [])).1
          ≡ some (errors, after))
        × (leaked_in after 2 0 ≡ 1)))
visit-captured_example =
    visit-captured 4 0 0 new_level (new_level ∷ []) with_local [] local_info closure_program []
      captured-AllSound (new_level_lacks, (new_level_lacks, tt)) with_local_has refl (omega arith)

abbrev leaked_slot : FunctionScope
leaked_slot = record {
  slots = record { active = true; leaked = true; constant = false; shadowing = false } ∷ [];
  lvarcount = 1;
}

alloc_slot-Leaked_example : (alloc_slot false false (mark_as_free 0 leaked_slot)).0 ≢ 0
alloc_slot-Leaked_example =
    alloc_slot-Leaked false false 0 leaked_slot (mark_as_free 0 leaked_slot) (λ e. refl, tt) refl
      (then_slot no_step (frees 0))
