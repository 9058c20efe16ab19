-- ===== src/Gc/Tests.antt =====
-- The theorems of src/vm/gc.cpp on a heap of three cells.
use charly_vm.Common.{ℕ, zero, suc, ◌≡◌, ◌⊎◌, ◌↔◌, inl, true, false, refl, arith}
use charly_vm.Common.{some, List, [], ◌∷◌, get_elem?}
use charly_vm.Value.Word.{Value}
use charly_vm.Value.Types.{create_pointer}
use charly_vm.Gc.{
  Cell, Cells, Payload, Collector, mark, mark_all, collect, target, children, immortals,
}
use charly_vm.Gc.Graph.{payloads, Reach, is_marked}
use charly_vm.Gc.Mark.Reachable.{AllWhite, marked_iff_reachable}
use charly_vm.Gc.Sweep.{freed, is_dead}
use charly_vm.Gc.Collect.{starts, collect-keeps, collect-frees}
use charly_vm.Gc.Chain.{Chain, link}

-- An array that refers to a string, and a string that nothing refers to.
abbrev holder : Cell
holder = record {
  mark = false;
  immortal = false;
  payload = Payload.array (0xfff8000000000002 ∷ []);
}

abbrev text : Cell
text = record { mark = false; immortal = false; payload = Payload.string }

abbrev three_cells : Cells
three_cells = holder ∷ text ∷ text ∷ []

abbrev small_heap : Collector
small_heap = record { cells = three_cells; freelist = 0; heaps = 1 }

-- The address of the array.
abbrev array_root : List Value
array_root = 0xfff8000000000001 ∷ []

three_cells-AllWhite : AllWhite three_cells
three_cells-AllWhite zero = refl
three_cells-AllWhite (suc zero) = refl
three_cells-AllWhite (suc (suc zero)) = refl
three_cells-AllWhite (suc (suc (suc i))) = refl

target-array : target 0xfff8000000000001 ≡ some 0
unfolding target charly_vm.Value.Types.is_ptr charly_vm.Value.Types.as_pointer
target-array = refl

target-text : target 0xfff8000000000002 ≡ some 1
unfolding target charly_vm.Value.Types.is_ptr charly_vm.Value.Types.as_pointer
target-text = refl

text_is_reachable : Reach (payloads three_cells) (starts array_root small_heap) 1
unfolding children immortals
text_is_reachable =
    Reach.step 0 1 (Payload.array (0xfff8000000000002 ∷ [])) Payload.string 0xfff8000000000002
      (Reach.root 0xfff8000000000001 0 (Payload.array (0xfff8000000000002 ∷ [])) (inl refl)
        target-array refl)
      refl (inl refl) target-text refl

-- Nothing is reachable without roots.
none_reachable : (i : ℕ) → Reach (payloads three_cells) (starts [] small_heap) i → ⊥
unfolding immortals
none_reachable _ (Reach.root v i p m t e) = m
none_reachable _ (Reach.step i j p q v r e m t f) = none_reachable i r

marked_iff_reachable_example :
    (is_marked (mark_all (mark 4) array_root three_cells) 1 ≡ true)
    ↔ Reach (payloads three_cells) array_root 1
marked_iff_reachable_example =
    marked_iff_reachable three_cells array_root 4 (omega arith) three_cells-AllWhite 1

collect-keeps_example : get_elem? (collect array_root small_heap).cells 1 ≡ some text
collect-keeps_example =
    collect-keeps array_root small_heap three_cells-AllWhite 1 refl text_is_reachable

collect-frees_example :
    (get_elem? (collect [] small_heap).cells 1 ≡ some text × (is_dead text ≡ true))
    ⊎ ((is_dead text ≡ false)
        × ((link : ℕ) × (get_elem? (collect [] small_heap).cells 1 ≡ some (freed link))))
collect-frees_example = collect-frees [] small_heap three_cells-AllWhite 1 refl (none_reachable 1)

-- One dead cell, which is free.
abbrev one_free : Collector
one_free = record {
  cells = record { mark = false; immortal = false; payload = Payload.free 0 } ∷ [];
  freelist = 1;
  heaps = 1;
}
