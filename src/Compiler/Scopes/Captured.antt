-- ===== src/Compiler/Scopes/Captured.antt =====
-- A variable that a function inside captures keeps its slot in src/compiler/lvar-alloc.cpp.
use mathlib.Core.Path.{subst}
use charly_vm.Common.{ℕ, zero, suc, ◌^◌, ◌≤◌, ◌<◌, ◌≡◌, refl, ap, ◌∙◌, arith}
use charly_vm.Common.{≡→==, false, none, some, List, [], ◌∷◌, ◌++◌, length}
use charly_vm.Compiler.Scopes.{
  SlotInfo, ValueLocation, LocalOffsetInfo, Level, find_in_blocks, access_symbol, search, modify,
  leak_slot, mark_as_leaked,
}
use charly_vm.Compiler.Scopes.Rewrite.{Result, Program, visit}
use charly_vm.Compiler.Scopes.Slots.{occupied}
use charly_vm.Compiler.Scopes.Sound.{
  LevelSound, AllSound, points, search-Sound, find_in_blocks-points,
}
use charly_vm.Compiler.Scopes.Levels.{Absent, access_symbol-captured}
use charly_vm.Compiler.Scopes.Kept.{Kept, leaked_at}
use charly_vm.Compiler.Scopes.Visits.{ResultKeeps, visit-Keeps}

-- Whether the slot of the n-th function from the innermost on was leaked
abbrev pub leaked_in : List Level → ℕ → ℕ → ℕ
leaked_in [] n i = 0
leaked_in (l ∷ ls) zero i = leaked_at l.function.slots i
leaked_in (l ∷ ls) (suc n) i = leaked_in ls n i

Kept-leaked_in : (ls ms : List Level) (n i : ℕ) → Kept ls ms → leaked_in ls n i ≤ leaked_in ms n i
Kept-leaked_in [] ms n i k = omega arith
Kept-leaked_in (l ∷ ls) [] n i k = elim k [ ]
Kept-leaked_in (l ∷ ls) (m ∷ ms) zero i k = k.0.1 i
Kept-leaked_in (l ∷ ls) (m ∷ ms) (suc n) i k = Kept-leaked_in ls ms n i k.1

leaked_at-le-one : (slots : List SlotInfo) (i : ℕ) → leaked_at slots i ≤ 1
leaked_at-le-one [] i = omega arith
leaked_at-le-one (slot ∷ slots) zero = ground arith
leaked_at-le-one (slot ∷ slots) (suc i) = leaked_at-le-one slots i

leaked_in-le-one : (ls : List Level) (n i : ℕ) → leaked_in ls n i ≤ 1
leaked_in-le-one [] n i = omega arith
leaked_in-le-one (l ∷ ls) zero i = leaked_at-le-one l.function.slots i
leaked_in-le-one (l ∷ ls) (suc n) i = leaked_in-le-one ls n i

leaked_in-behind :
    (between : List Level) (l : Level) (levels : List Level) (i : ℕ)
    → leaked_in (between ++ l ∷ levels) (length between) i ≡ leaked_at l.function.slots i
leaked_in-behind [] l levels i = refl
leaked_in-behind (m ∷ between) l levels i = leaked_in-behind between l levels i

AllSound-behind :
    (between : List Level) (l : Level) (levels : List Level)
    → AllSound (between ++ l ∷ levels)
    → LevelSound l
AllSound-behind [] l levels s = s.0
AllSound-behind (m ∷ between) l levels s = AllSound-behind between l levels s.1

-- A slot that is in use is leaked when it is marked.
leaked_at-leak :
    (slots : List SlotInfo) (i : ℕ)
    → 1 ≤ occupied slots i
    → leaked_at (modify leak_slot i slots) i ≡ 1
leaked_at-leak [] i o = absurd (omega (arith, o))
leaked_at-leak (slot ∷ slots) zero o = refl
leaked_at-leak (slot ∷ slots) (suc i) o = leaked_at-leak slots i o

points-own : (index level : ℕ) → points index (ValueLocation.frame index level) ≡ 1
points-own index level = rw (≡→== index index refl) refl

module _ (index level : ℕ) (l : Level) (info : LocalOffsetInfo) (symbol : ℕ) where
  captured-leaked_at :
      find_in_blocks (l.block ∷ l.outer) symbol ≡ some info
      → info.location ≡ ValueLocation.frame index level
      → LevelSound l
      → leaked_at (mark_as_leaked index l.function).slots index ≡ 1
  unfolding mark_as_leaked
  captured-leaked_at e f s =
      let one : points index info.location ≡ 1 = ap (points index) f ∙ points-own index level in
      let used = find_in_blocks-points (l.block ∷ l.outer) symbol index info e in
      leaked_at-leak l.function.slots index (omega (arith, one, used, s.alone index))

-- When a variable of a function around, which no block of the functions inside declares, is
-- accessed from sound scopes, fewer than 2^32 functions further in, its slot is leaked, and is
-- still leaked after the visit of any program that follows there, which ends.
pub visit-captured :
    (symbol index level : ℕ) (inner : Level) (between : List Level) (l : Level)
    (levels : List Level) (info : LocalOffsetInfo) (program : Program) (errors : List ℕ)
    → AllSound (inner ∷ between ++ l ∷ levels)
    → Absent symbol (inner ∷ between)
    → find_in_blocks (l.block ∷ l.outer) symbol ≡ some info
    → info.location ≡ ValueLocation.frame index level
    → suc (length between) < 2 ^ 32
    → (errors' : List ℕ) × ((after : List Level) × ((visit program errors
              (access_symbol symbol (inner ∷ between ++ l ∷ levels)).1
            ≡ some (errors', after))
          × (leaked_in after (suc (length between)) index ≡ 1)))
unfolding access_symbol
visit-captured symbol index level inner between l levels info program errors s a e f h =
    rw (captured) (go (visit program errors start) refl kept)
  where
    start : List Level
    start = inner ∷ between ++ record l { function = mark_as_leaked index l.function } ∷ levels

    captured : (search symbol 0 false (inner ∷ between ++ l ∷ levels)).1 ≡ start
    captured = (access_symbol-captured symbol index level inner between l levels info a e f h).1

    sound : AllSound start
    sound = subst AllSound captured (search-Sound symbol 0 false (inner ∷ between ++ l ∷ levels) s)

    kept : ResultKeeps start (visit program errors start)
    kept =
        visit-Keeps program errors inner
          (between ++ record l { function = mark_as_leaked index l.function } ∷ levels) sound

    before : leaked_in start (suc (length between)) index ≡ 1
    before =
        leaked_in-behind between (record l { function = mark_as_leaked index l.function }) levels
          index
        ∙ captured-leaked_at index level l info symbol e f (AllSound-behind between l levels s.1)

    go :
        (r : Result)
        → visit program errors start ≡ r
        → ResultKeeps start r
        → (errors' : List ℕ) × ((after : List Level) × ((visit program errors start
                ≡ some (errors', after))
              × (leaked_in after (suc (length between)) index ≡ 1)))
    go none q k = elim k [ ]
    go (some r) q k =
        let grows = Kept-leaked_in start r.1 (suc (length between)) index k.1 in
        let most = leaked_in-le-one r.1 (suc (length between)) index in
        (r.0, (r.1, (q, omega (arith, before, grows, most))))
