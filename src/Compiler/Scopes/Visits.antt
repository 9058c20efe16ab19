-- ===== src/Compiler/Scopes/Visits.antt =====
-- Whatever the program that src/compiler/lvar-rewrite.cpp visits, its scopes stay sound, and the
-- variables that were captured keep their slots.
use mathlib.Core.Path.{subst}
use charly_vm.Common.{ℕ, ◌≡◌, inl, inr, refl, sym, arith}
use charly_vm.Common.{Bool, true, false, ◌&&◌, ≡→==, if◌then◌else◌, Bool-cases}
use charly_vm.Common.{none, some, List, [], ◌∷◌}
use charly_vm.Compiler.Scopes.{
  LocalOffsetInfo, Locals, Level, find_local, scope_contains_symbol, alloc_symbol, register_symbol,
  access_symbol, search, free_locals,
}
use charly_vm.Compiler.Scopes.Rewrite.{
  Visit, Result, Continue, Program, push_local_scope, pop_scope, declare, go_on, and_then,
  declare_parameters, declare_arguments, leave_function, new_level, visit_identifier,
  visit_localinitialisation, visit_function, visit_block, visit,
}
use charly_vm.Compiler.Scopes.Sound.{
  LevelSound, AllSound, Sound, Sound-weaken, uses_in, alloc_symbol-Sound, search-Sound,
  free_locals-Sound,
}
use charly_vm.Compiler.Scopes.Kept.{
  Kept, Kept-refl, Kept-trans, alloc_symbol-Kept, search-Kept, free_locals-Kept,
}

-- The scopes are sound, and those that there were are kept.
abbrev pub Keeps : List Level → List Level → Type 0
Keeps before after = AllSound after × Kept before after

-- There is a result, and its scopes are sound and kept.
abbrev pub ResultKeeps : List Level → Result → Type 0
ResultKeeps before none = ⊥
ResultKeeps before (some r) = Keeps before r.1

abbrev VisitKeeps : List Level → Visit → Type 0
VisitKeeps before (Visit.visited levels) = Keeps before levels
VisitKeeps before (Visit.redeclared symbol levels) = Keeps before levels
VisitKeeps before Visit.undefined = ⊥

-- What a visit does in any function with sound scopes
abbrev ContinueKeeps : Continue → Type 0
ContinueKeeps k =
    (errors : List ℕ) (l : Level) (levels : List Level)
    → AllSound (l ∷ levels)
    → ResultKeeps (l ∷ levels) (k errors (l ∷ levels))

module _ (k : Continue) (keeps : ContinueKeeps k) (l : Level) (levels : List Level) where
  after-Keeps :
      (errors : List ℕ) (after : List Level)
      → Keeps (l ∷ levels) after
      → ResultKeeps (l ∷ levels) (k errors after)
  after-Keeps errors [] h = elim (h.1) [ ]
  after-Keeps errors (m ∷ ms) h = go (k errors (m ∷ ms)) (keeps errors m ms h.0)
    where
      go : (r : Result) → ResultKeeps (m ∷ ms) r → ResultKeeps (l ∷ levels) r
      go none g = g
      go (some r) g = (g.0, Kept-trans (l ∷ levels) (m ∷ ms) r.1 h.1 g.1)

  and_then-Keeps :
      (r : Result) → ResultKeeps (l ∷ levels) r → ResultKeeps (l ∷ levels) (and_then r k)
  and_then-Keeps none h = h
  and_then-Keeps (some r) h = after-Keeps r.0 r.1 h

  go_on-Keeps :
      (v : Visit) (errors : List ℕ)
      → VisitKeeps (l ∷ levels) v
      → ResultKeeps (l ∷ levels) (go_on v errors k)
  go_on-Keeps (Visit.visited ls) errors h = after-Keeps errors ls h
  go_on-Keeps (Visit.redeclared symbol ls) errors h = h
  go_on-Keeps Visit.undefined errors h = h

declare-Keeps :
    (symbol : ℕ) (constant : Bool) (l : Level) (levels : List Level)
    → AllSound (l ∷ levels)
    → VisitKeeps (l ∷ levels) (declare symbol constant (l ∷ levels))
unfolding declare access_symbol
declare-Keeps symbol constant l levels s =
    let r = search symbol 0 false (l ∷ levels) in
    go (r.0.valid && r.0.shadowing) r.1 (search-Sound symbol 0 false (l ∷ levels) s)
      (search-Kept symbol 0 false (l ∷ levels))
  where
    go :
        (b : Bool) (ls : List Level)
        → AllSound ls
        → Kept (l ∷ levels) ls
        → VisitKeeps (l ∷ levels) (
            if b then Visit.redeclared symbol ls else elim ls [
              | [] ↦ Visit.undefined
              | m ∷ rest ↦ Visit.visited ((alloc_symbol symbol constant false m).1 ∷ rest)
            ])
    go true ls h k = (h, k)
    go false [] h k = k
    go false (m ∷ rest) h k =
        let new = (alloc_symbol symbol constant false m).1 in
        let allocated : Kept (m ∷ rest) (new ∷ rest) =
          (alloc_symbol-Kept symbol constant false m, Kept-refl rest) in
        (
          (alloc_symbol-Sound symbol constant false m h.0, h.1),
          Kept-trans (l ∷ levels) (m ∷ rest) (new ∷ rest) k allocated,
        )

visit_identifier-Keeps : (symbol : ℕ) → ContinueKeeps (visit_identifier symbol)
unfolding visit_identifier access_symbol
visit_identifier-Keeps symbol errors l levels s =
    (search-Sound symbol 0 false (l ∷ levels) s, search-Kept symbol 0 false (l ∷ levels))

visit_localinitialisation-Keeps :
    (symbol : ℕ) (constant : Bool) (descend : Continue)
    → ContinueKeeps descend
    → ContinueKeeps (visit_localinitialisation symbol constant descend)
unfolding visit_localinitialisation
visit_localinitialisation-Keeps symbol constant descend k errors l levels s =
    elim (Bool-cases (scope_contains_symbol l.block symbol)) [
      | inl e ↦ rw (e, visit_localinitialisation) (s, Kept-refl (l ∷ levels))
      | inr e ↦
          rw (e, visit_localinitialisation)
            (go_on-Keeps descend k l levels (declare symbol constant (l ∷ levels)) errors
              (declare-Keeps symbol constant l levels s))
    ]

declare_parameters-Keeps :
    (symbols : List ℕ) (l : Level) (levels : List Level)
    → AllSound (l ∷ levels)
    → VisitKeeps (l ∷ levels) (declare_parameters symbols (l ∷ levels))
unfolding declare_parameters
declare_parameters-Keeps [] l levels s = (s, Kept-refl (l ∷ levels))
declare_parameters-Keeps (symbol ∷ symbols) l levels s =
    go (declare symbol false (l ∷ levels)) (declare-Keeps symbol false l levels s)
      (declare_parameters-Keeps symbols)
  where
    wider :
        (m : Level) (ms : List Level) (v : Visit)
        → Kept (l ∷ levels) (m ∷ ms)
        → VisitKeeps (m ∷ ms) v
        → VisitKeeps (l ∷ levels) v
    wider m ms (Visit.visited ns) a b = (b.0, Kept-trans (l ∷ levels) (m ∷ ms) ns a b.1)
    wider m ms (Visit.redeclared t ns) a b = (b.0, Kept-trans (l ∷ levels) (m ∷ ms) ns a b.1)
    wider m ms Visit.undefined a b = b

    go :
        (v : Visit)
        → VisitKeeps (l ∷ levels) v
        → ((m : Level) (ms : List Level)
            → AllSound (m ∷ ms)
            → VisitKeeps (m ∷ ms) (declare_parameters symbols (m ∷ ms)))
        → VisitKeeps (l ∷ levels) (elim v as (λ x. Visit) [
          | Visit.visited ls ↦ declare_parameters symbols ls
          | Visit.redeclared t ls ↦ Visit.redeclared t ls
          | Visit.undefined ↦ Visit.undefined
        ])
    go (Visit.visited []) h ih = elim (h.1) [ ]
    go (Visit.visited (m ∷ ms)) h ih =
        wider m ms (declare_parameters symbols (m ∷ ms)) h.1 (ih m ms h.0)
    go (Visit.redeclared t ls) h ih = h
    go Visit.undefined h ih = h

new_level-Sound : LevelSound new_level
new_level-Sound = record { alone = λ i. omega arith; leaks = tt; counted = refl }

contains_first :
    (symbol : ℕ) (info : LocalOffsetInfo) (locals : Locals)
    → scope_contains_symbol ((symbol, info) ∷ locals) symbol ≡ true
unfolding scope_contains_symbol find_local
contains_first symbol info locals = rw (≡→== symbol symbol refl, scope_contains_symbol) refl

-- `arguments` is registered when it has its slot, so the registration changes nothing.
register_symbol-twice :
    (symbol : ℕ) (info first : LocalOffsetInfo) (l : Level)
    → register_symbol symbol info false false (record l { block = (symbol, first) ∷ l.block })
      ≡ record l { block = (symbol, first) ∷ l.block }
unfolding register_symbol
register_symbol-twice symbol info first l =
    rw (contains_first symbol first l.block, register_symbol) refl

declare_arguments-Sound :
    (symbol : ℕ) (needs_arguments : Bool)
    → LevelSound (declare_arguments symbol needs_arguments new_level)
unfolding declare_arguments alloc_symbol scope_contains_symbol find_local
declare_arguments-Sound symbol false = new_level-Sound
declare_arguments-Sound symbol true =
    subst LevelSound (sym (register_symbol-twice symbol _ _ _))
      (alloc_symbol-Sound symbol true false new_level new_level-Sound)

leave_function-Keeps :
    (n : Level) (levels : List Level) (r : Result)
    → ResultKeeps (n ∷ levels) r
    → ResultKeeps levels (leave_function r)
leave_function-Keeps n levels none h = h
leave_function-Keeps n levels (some r) h = go r.1 h
  where
    go :
        (ls : List Level)
        → Keeps (n ∷ levels) ls
        → ResultKeeps levels (elim ls as (λ x. Result) [ [] ↦ none | m ∷ ms ↦ some (r.0, ms) ])
    go [] h = h.1
    go (m ∷ ms) h = (h.0.1, h.1.1)

visit_function-Keeps :
    (symbol : ℕ) (needs_arguments : Bool) (parameters : List ℕ) (descend : Continue)
    → ContinueKeeps descend
    → ContinueKeeps (visit_function symbol needs_arguments parameters descend)
unfolding visit_function
visit_function-Keeps symbol needs_arguments parameters descend k errors l levels s =
    let n = declare_arguments symbol needs_arguments new_level in
    let sound : AllSound (n ∷ l ∷ levels) = (declare_arguments-Sound symbol needs_arguments, s) in
    leave_function-Keeps n (l ∷ levels)
      (go_on (declare_parameters parameters (n ∷ l ∷ levels)) errors descend)
      (go_on-Keeps descend k n (l ∷ levels) (declare_parameters parameters (n ∷ l ∷ levels)) errors
        (declare_parameters-Keeps parameters n (l ∷ levels) sound))

pop_scope-Keeps :
    (errors : List ℕ) (l : Level) (levels ls : List Level)
    → Keeps (record l { block = []; outer = l.block ∷ l.outer } ∷ levels) ls
    → ResultKeeps (l ∷ levels) (pop_scope errors ls)
unfolding pop_scope
pop_scope-Keeps errors l levels [] h = elim (h.1) [ ]
pop_scope-Keeps errors l levels (m ∷ ms) h = go m.outer h.1.0.0 h.0.0
  where
    go :
        (o : List Locals)
        → o ≡ l.block ∷ l.outer
        → Sound m.function (λ i. uses_in i (m.block ∷ o))
        → ResultKeeps (l ∷ levels) (elim o as (λ x. Result) [
          | [] ↦ none
          | block ∷ outer ↦ some (
            errors,
            record { function = free_locals m.block m.function; block = block; outer = outer } ∷ ms,
          )
        ])
    go [] e sound = cc
    go (b ∷ bs) e sound =
        let same : bs ≡ l.outer = cc in
        let freed = free_locals-Kept m.block m.function in
        (
          (free_locals-Sound m.block m.function (λ i. uses_in i (b ∷ bs)) sound, h.0.1),
          ((same, λ i. omega (arith, h.1.0.1 i, freed i)), h.1.1),
        )

visit_block-Keeps :
    (descend : Continue) → ContinueKeeps descend → ContinueKeeps (visit_block descend)
unfolding visit_block push_local_scope
visit_block-Keeps descend k errors l levels s =
    let inner : Level = record l { block = []; outer = l.block ∷ l.outer } in
    go (descend errors (inner ∷ levels))
      (k errors inner levels (Sound-weaken l.function _ _ (λ i. omega arith) s.0, s.1))
  where
    go :
        (r : Result)
        → ResultKeeps (record l { block = []; outer = l.block ∷ l.outer } ∷ levels) r
        → ResultKeeps (l ∷ levels) (and_then r pop_scope)
    go none h = h
    go (some r) h = pop_scope-Keeps r.0 l levels r.1 h

-- The visit of any program of functions, blocks, declarations and identifiers, inside a function
-- with sound scopes, ends, errors or not, with the same functions, which have the same blocks
-- around the innermost one, and with sound scopes: no two variables that are alive have the same
-- slot, their slots are in use, a slot that is leaked is in use, and each function counts its
-- slots modulo 2^32. Every slot that was leaked before the visit is still leaked.
pub visit-Keeps :
    (program : Program) (errors : List ℕ) (l : Level) (levels : List Level)
    → AllSound (l ∷ levels)
    → ResultKeeps (l ∷ levels) (visit program errors (l ∷ levels))
unfolding visit
visit-Keeps Program.nothing errors l levels s = (s, Kept-refl (l ∷ levels))
visit-Keeps (Program.identifier symbol rest) errors l levels s =
    and_then-Keeps _ (visit-Keeps rest) l levels (visit_identifier symbol errors (l ∷ levels))
      (visit_identifier-Keeps symbol errors l levels s)
visit-Keeps (Program.initialisation symbol constant expression rest) errors l levels s =
    and_then-Keeps _ (visit-Keeps rest) l levels _
      (visit_localinitialisation-Keeps symbol constant _ (visit-Keeps expression) errors l levels s)
visit-Keeps (Program.function symbol needs_arguments parameters body rest) errors l levels s =
    and_then-Keeps _ (visit-Keeps rest) l levels _ (
      visit_function-Keeps symbol needs_arguments parameters _ (visit-Keeps body) errors l levels s)
visit-Keeps (Program.block body rest) errors l levels s =
    and_then-Keeps _ (visit-Keeps rest) l levels _
      (visit_block-Keeps _ (visit-Keeps body) errors l levels s)
