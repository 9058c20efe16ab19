-- ===== src/Compiler/Scopes/Rewrite.antt =====
-- What src/compiler/lvar-rewrite.cpp and include/lvar-rewrite.h do to scopes at functions, blocks,
-- declarations and identifiers. An identifier that has its location from an earlier visit, which
-- is skipped, is not a node of a `Program`.
use charly_vm.Common.{ℕ, Bool, true, false, ◌&&◌, if◌then◌else◌}
use charly_vm.Common.{Option, none, some, List, [], ◌∷◌, ◌++◌}
use charly_vm.Compiler.Scopes.{
  ValueLocation, Level, scope_contains_symbol, alloc_symbol, register_symbol, access_symbol,
  free_locals,
}

-- How a step of a visit ends: with new scopes, with the error of an illegal redeclaration and the
-- scopes that it leaves, or with an access through a scope that is not there.
pub data Visit : Type 0 where
  visited : List Level → Visit
  redeclared : ℕ → List Level → Visit
  undefined : Visit

-- What a visit of a node leaves: the symbols of its errors, behind those that there were, and
-- the scopes. `none` is an access through a scope that is not there.
abbrev pub Result : Type 0
Result = Option (List ℕ × List Level)

-- The visit of what is inside a node, VisitContinue
abbrev pub Continue : Type 0
Continue = List ℕ → List Level → Result

abbrev pub go_on : Visit → List ℕ → Continue → Result
go_on (visited levels) errors descend = descend errors levels
go_on (redeclared symbol levels) errors descend = some (errors ++ symbol ∷ [], levels)
go_on undefined errors descend = none

abbrev pub and_then : Result → Continue → Result
and_then none k = none
and_then (some r) k = k r.0 r.1

-- LVarRewriter::push_local_scope
unfoldable pub push_local_scope : List Level → List Level
push_local_scope [] = []
push_local_scope (l ∷ levels) = record l { block = []; outer = l.block ∷ l.outer } ∷ levels

-- LVarRewriter::pop_scope of a block
unfoldable pub pop_scope : List ℕ → List Level → Result
pop_scope errors [] = some (errors, [])
pop_scope errors (l ∷ levels) = elim l.outer [
  | [] ↦ none
  | block ∷ outer ↦ some (
    errors,
    record { function = free_locals l.block l.function; block = block; outer = outer } ∷ levels,
  )
]

-- The declaration of a name that may not be redeclared, with the constant flag
unfoldable pub declare : ℕ → Bool → List Level → Visit
declare symbol constant levels =
    let r = access_symbol symbol levels in
    if r.0.valid && r.0.shadowing then redeclared symbol r.1 else elim r.1 [
      | [] ↦ undefined
      | l ∷ rest ↦ visited ((alloc_symbol symbol constant false l).1 ∷ rest)
    ]

-- LVarRewriter::visit_identifier
unfoldable pub visit_identifier : ℕ → Continue
visit_identifier symbol errors levels =
    let r = access_symbol symbol levels in
    some (if r.0.valid then errors else errors ++ symbol ∷ [], r.1)

-- LVarRewriter::visit_localinitialisation; `descend` visits the expression.
unfoldable pub visit_localinitialisation : ℕ → Bool → Continue → Continue
visit_localinitialisation symbol constant descend errors [] = none
visit_localinitialisation symbol constant descend errors (l ∷ levels) =
    if scope_contains_symbol l.block symbol
    then some (errors ++ symbol ∷ [], l ∷ levels)
    else go_on (declare symbol constant (l ∷ levels)) errors descend

-- The loop of visit_function over the parameters
unfoldable pub declare_parameters : List ℕ → List Level → Visit
declare_parameters [] levels = visited levels
declare_parameters (symbol ∷ symbols) levels = elim (declare symbol false levels) [
  | visited levels' ↦ declare_parameters symbols levels'
  | redeclared s levels' ↦ redeclared s levels'
  | undefined ↦ undefined
]

abbrev pub new_level : Level
new_level = record { function = record { slots = []; lvarcount = 0 }; block = []; outer = [] }

-- The symbol of `arguments`, and its slot in a function that needs it
unfoldable pub declare_arguments : ℕ → Bool → Level → Level
declare_arguments arguments_symbol needs_arguments l =
    if needs_arguments
    then register_symbol arguments_symbol
        (record {
          location = ValueLocation.frame 0 0;
          valid = true;
          constant = false;
          shadowing = false;
        })
        false false (alloc_symbol arguments_symbol true false l).1
    else l

-- The scope that a function had is deleted.
abbrev pub leave_function : Result → Result
leave_function none = none
leave_function (some r) = elim r.1 [ [] ↦ none | l ∷ levels ↦ some (r.0, levels) ]

-- LVarRewriter::visit_function, which leaves the function with an error of its parameters too;
-- `descend` visits the body.
unfoldable pub visit_function : ℕ → Bool → List ℕ → Continue → Continue
visit_function arguments_symbol needs_arguments parameters descend errors levels = leave_function (
    go_on
      (declare_parameters parameters
        (declare_arguments arguments_symbol needs_arguments new_level ∷ levels))
      errors descend)

-- LVarRewriter::visit_block; `descend` visits its statements.
unfoldable pub visit_block : Continue → Continue
visit_block descend errors levels = and_then (descend errors (push_local_scope levels)) pop_scope

-- The nodes of a program that open scopes, declare or read variables, in the order of the visit;
-- the last argument is what follows a node.
pub data Program : Type 0 where
  nothing : Program
  identifier : ℕ → Program → Program
  initialisation : ℕ → Bool → Program → Program → Program
  function : ℕ → Bool → List ℕ → Program → Program → Program
  block : Program → Program → Program

-- The visit of a program, which goes on behind an error
unfoldable pub visit : Program → Continue
visit nothing errors levels = some (errors, levels)
visit (identifier symbol rest) errors levels =
    and_then (visit_identifier symbol errors levels) (λ es ls. visit rest es ls)
visit (initialisation symbol constant expression rest) errors levels =
    and_then
      (visit_localinitialisation symbol constant (λ es ls. visit expression es ls) errors levels)
      (λ es ls. visit rest es ls)
visit (function arguments_symbol needs_arguments parameters body rest) errors levels =
    and_then
      (visit_function arguments_symbol needs_arguments parameters (λ es ls. visit body es ls) errors
        levels)
      (λ es ls. visit rest es ls)
visit (block body rest) errors levels =
    and_then (visit_block (λ es ls. visit body es ls) errors levels) (λ es ls. visit rest es ls)
