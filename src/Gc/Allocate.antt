-- ===== src/Gc/Allocate.antt =====
-- GarbageCollector::add_heap, grow_heap and allocate_cell of src/vm/gc.cpp: allocation always
-- finds a cell.
use charly_vm.Common.{◌<◌}
use charly_vm.Value.Word.{Value}
use charly_vm.Gc.Chain.{Chain}
use charly_vm.Gc.{Collector}

-- The free list is not empty, and there is a heap.
record Stocked (g : Collector) : Type 0 where
  pub free_cell : 0 < g.freelist
  pub some_heap : 0 < g.heaps

-- The free list leads from a free cell of the heaps through free cells, each at a lower address
-- than the one before, and there is at least one heap.
pub record Ready (g : Collector) : Type 0 where
  pub free_cells : Chain (λ j. Unit) g.cells g.freelist
  pub free_cell : 0 < g.freelist
  pub some_heap : 0 < g.heaps
