-- ===== src/Gc/Collect.antt =====
-- GarbageCollector::collect of src/vm/gc.cpp: what a collection keeps and what it frees.
use mathlib.Core.Path.{subst}
use charly_vm.Common.{ℕ, zero, suc, ◌≡◌, ◌⊎◌, inl, inr, refl, sym, ap, ◌∙◌, arith}
use charly_vm.Common.{Bool, true, false, some, List, [], ◌∷◌, ◌++◌, length, get_elem?, map}
use charly_vm.Value.Word.{Value}
use charly_vm.Gc.{Cell, Cells, Collector, mark, mark_all, immortals, sweep, collect}
use charly_vm.Gc.Graph.{payloads, Reach, is_marked, clear, is_marked-get}
use charly_vm.Gc.Mark.{Marks}
use charly_vm.Gc.Mark.Reachable.{AllWhite, mark-Marks-roots, marked_iff_reachable}
use charly_vm.Gc.Sweep.{freed, is_dead, cell_injective, sweep-marked, sweep-dead, sweep-white}
use charly_vm.Gc.Sweep.{length-sweep, is_marked-sweep}

mark_all-append :
    (one : Value → Cells → Cells) (xs ys : List Value) (h : Cells)
    → mark_all one (xs ++ ys) h ≡ mark_all one ys (mark_all one xs h)
unfolding mark_all
mark_all-append one [] ys h = refl
mark_all-append one (x ∷ xs) ys h = mark_all-append one xs ys (one x h)

immortals-clear : (k : ℕ) (h : Cells) → immortals k (map clear h) ≡ immortals k h
unfolding immortals
immortals-clear k [] = refl
immortals-clear k (c ∷ h) = rw (immortals-clear (suc k) h)

-- The values that a collection starts from.
abbrev pub starts : List Value → Collector → List Value
starts roots g = roots ++ immortals 0 g.cells

-- The cells after marking.
abbrev pub marked_cells : List Value → Collector → Cells
marked_cells roots g = mark_all (mark (suc (length g.cells))) (starts roots g) g.cells

pub runs :
    (roots : List Value) (g : Collector)
    → Marks (Reach (payloads g.cells) (starts roots g)) g.cells (marked_cells roots g)
runs roots g = mark-Marks-roots g.cells (starts roots g) (suc (length g.cells)) (omega arith)

-- Marking from the roots and then from the immortal cells is marking from both.
marked_twice :
    (roots : List Value) (g : Collector)
    → (let one = mark (suc (length g.cells)) in
        let first = mark_all one roots g.cells in mark_all one (immortals 0 first) first)
      ≡ marked_cells roots g
marked_twice roots g =
    ap (λ vs. mark_all one vs first) flags
    ∙ sym (mark_all-append one roots (immortals 0 g.cells) g.cells)
  where
    one : Value → Cells → Cells
    one = mark (suc (length g.cells))

    first : Cells
    first = mark_all one roots g.cells

    flags : immortals 0 first ≡ immortals 0 g.cells
    flags =
        sym (immortals-clear 0 first)
        ∙ ap (immortals 0)
            (mark-Marks-roots g.cells roots (suc (length g.cells)) (omega arith)).cleared
        ∙ immortals-clear 0 g.cells

pub collect-sweep :
    (roots : List Value) (g : Collector)
    → (collect roots g).cells ≡ (sweep 0 (marked_cells roots g) g.freelist).0
unfolding collect
collect-sweep roots g = ap (λ h. (sweep 0 h g.freelist).0) (marked_twice roots g)

pub collect-freelist :
    (roots : List Value) (g : Collector)
    → (collect roots g).freelist ≡ (sweep 0 (marked_cells roots g) g.freelist).1
unfolding collect
collect-freelist roots g = ap (λ h. (sweep 0 h g.freelist).1) (marked_twice roots g)

-- The marked cells are those of before, up to the mark.
get_elem?-clear :
    (h : Cells) (i : ℕ) {c : Cell}
    → get_elem? (map clear h) i ≡ some c
    → (d : Cell) × ((get_elem? h i ≡ some d) × (clear d ≡ c))
get_elem?-clear [] i e = cc
get_elem?-clear (x ∷ h) zero e = (x, (refl, cell_injective e))
get_elem?-clear (x ∷ h) (suc i) e = get_elem?-clear h i e

clear-get_elem? :
    (h : Cells) (i : ℕ) {c : Cell}
    → get_elem? h i ≡ some c
    → get_elem? (map clear h) i ≡ some (clear c)
clear-get_elem? [] i e = cc
clear-get_elem? (x ∷ h) zero e = ap some (ap clear (cell_injective e))
clear-get_elem? (x ∷ h) (suc i) e = clear-get_elem? h i e

clear_white : (c : Cell) → c.mark ≡ false → clear c ≡ c
clear_white c m i = record c { mark = sym m i }

length-payloads : (h : Cells) → length h ≡ length (payloads h)
length-payloads [] = refl
length-payloads (c ∷ h) = ap suc (length-payloads h)

module _ (roots : List Value) (g : Collector) (clean : AllWhite g.cells) where
  Reachable : ℕ → Type 0
  Reachable = Reach (payloads g.cells) (starts roots g)

  -- The cell at a position after marking.
  after_marking :
      (i : ℕ) {c : Cell}
      → get_elem? g.cells i ≡ some c
      → (d : Cell) × ((get_elem? (marked_cells roots g) i ≡ some d) × (clear d ≡ c))
  after_marking i {c} e =
      let found =
        get_elem?-clear (marked_cells roots g) i
          (ap (λ h. get_elem? h i) (runs roots g).cleared ∙ clear-get_elem? g.cells i e) in
      (found.0, (found.1.0, found.1.1 ∙ clear_white c (sym (is_marked-get g.cells i e) ∙ clean i)))

  -- If no cell was marked before, a collection keeps every cell that is reachable from the roots
  -- or from an immortal cell.
  pub collect-keeps :
      (i : ℕ) {c : Cell}
      → get_elem? g.cells i ≡ some c
      → Reach (payloads g.cells) (starts roots g) i
      → get_elem? (collect roots g).cells i ≡ some c
  collect-keeps i e r =
      let after = after_marking i e in
      let marked =
        marked_iff_reachable g.cells (starts roots g) (suc (length g.cells)) (omega arith) clean
          i in
      ap (λ h. get_elem? h i) (collect-sweep roots g)
      ∙ sweep-marked 0 (marked_cells roots g) g.freelist i after.1.0
          (sym (is_marked-get (marked_cells roots g) i after.1.0) ∙ marked.1 r)
      ∙ ap some after.1.1

  -- If no cell was marked before, a collection makes a free cell of every unreachable one, and
  -- leaves those that were free already as they are.
  pub collect-frees :
      (i : ℕ) {c : Cell}
      → get_elem? g.cells i ≡ some c
      → (Reach (payloads g.cells) (starts roots g) i → ⊥)
      → (get_elem? (collect roots g).cells i ≡ some c × (is_dead c ≡ true))
        ⊎ ((is_dead c ≡ false)
            × ((link : ℕ) × (get_elem? (collect roots g).cells i ≡ some (freed link))))
  collect-frees i {c} e r = by_mark d.mark refl
    where
      after : (x : Cell) × ((get_elem? (marked_cells roots g) i ≡ some x) × (clear x ≡ c))
      after = after_marking i e

      d : Cell
      d = after.0

      goal : Cell → Type 0
      goal x =
          (get_elem? (collect roots g).cells i ≡ some x × (is_dead x ≡ true))
          ⊎ ((is_dead x ≡ false)
              × ((link : ℕ) × (get_elem? (collect roots g).cells i ≡ some (freed link))))

      by_dead : (b : Bool) → d.mark ≡ false → is_dead d ≡ b → goal d
      by_dead true m k = inl (
        ap (λ h. get_elem? h i) (collect-sweep roots g)
            ∙ sweep-dead 0 (marked_cells roots g) g.freelist i after.1.0 m k,
        k,
      )
      by_dead false m k =
          let swept = sweep-white 0 (marked_cells roots g) g.freelist i after.1.0 m k in
          inr (k, (swept.0, ap (λ h. get_elem? h i) (collect-sweep roots g) ∙ swept.1))

      by_mark : (b : Bool) → d.mark ≡ b → goal c
      by_mark true m =
          elim (r (
            (marked_iff_reachable g.cells (starts roots g) (suc (length g.cells)) (omega arith)
                clean i).0
              (is_marked-get (marked_cells roots g) i after.1.0 ∙ m))) [ ]
      by_mark false m = subst goal (sym (clear_white d m) ∙ after.1.1) (by_dead (is_dead d) m refl)

-- After a collection no cell is marked, and there are as many cells as before.
pub collect-AllWhite :
    (roots : List Value) (g : Collector)
    → AllWhite (collect roots g).cells × (length (collect roots g).cells ≡ length g.cells)
collect-AllWhite roots g = (
  λ i.
      ap (λ h. is_marked h i) (collect-sweep roots g)
      ∙ is_marked-sweep 0 (marked_cells roots g) g.freelist i,
  ap length (collect-sweep roots g)
      ∙ length-sweep 0 (marked_cells roots g) g.freelist
      ∙ length-payloads (marked_cells roots g)
      ∙ ap length (runs roots g).same
      ∙ sym (length-payloads g.cells),
)
