-- ===== src/Gc.antt =====
-- include/gc.h and src/vm/gc.cpp: the cells of the heaps, the free list, marking and sweeping, and
-- allocation. The cells of all heaps stand in one list in the order in which the heaps were added;
-- the cell at position `i` has the address `i + 1`, and 0 is the null pointer. Reading at an address
-- outside the heaps, undefined in the source, finds no cell.
pub mod Roots
pub mod Graph
pub mod Mark
pub mod Sweep
pub mod Collect
pub mod Chain
pub mod Allocate
mod Tests
use charly_vm.Common.{
  ℕ, zero, suc, ◌+◌, ◌-◌, Bool, true, false, not, ◌&&◌, ◌||◌, ◌==◌, if◌then◌else◌,
}
use charly_vm.Common.{Option, none, some, List, [], ◌∷◌, ◌++◌, map, length, get_elem?, set}
use charly_vm.Value.Word.{Value}
use charly_vm.Value.Types.{ValueType, is_ptr, as_pointer, create_pointer, same_type}
use charly_vm.Heap.Container.{ContainerType}

-- What a cell holds: the members that refer to other values, and of a free cell the next one.
-- A pointer member is an address.
pub data Payload : Type 0 where
  free : ℕ → Payload
  object : ℕ → ContainerType → Payload
  array : List Value → Payload
  string cpointer : Payload
  -- context, host_class, bound_self_set, bound_self, container
  function : ℕ → ℕ → Bool → Value → ContainerType → Payload
  cfunction : ContainerType → Payload
  -- constructor, prototype, parent_class, container
  class : ℕ → ℕ → ℕ → ContainerType → Payload
  -- parent, environment, catchtable, function, self, locals
  frame : ℕ → ℕ → ℕ → ℕ → Value → List Value → Payload
  -- frame, parent
  catchtable : ℕ → ℕ → Payload

-- Header::type
unfoldable pub type_of : Payload → ValueType
type_of (free next) = ValueType.dead
type_of (object k c) = ValueType.object
type_of (array d) = ValueType.array
type_of string = ValueType.string
type_of cpointer = ValueType.cpointer
type_of (function ctx host b s c) = ValueType.function
type_of (cfunction c) = ValueType.cfunction
type_of (class ctor proto parent c) = ValueType.class
type_of (frame p e t f s l) = ValueType.frame
type_of (catchtable f p) = ValueType.catchtable

-- Header and payload of a MemoryCell.
pub record Cell : Type 0 where
  pub mark : Bool
  pub immortal : Bool
  pub payload : Payload

abbrev pub Cells : Type 0
Cells = List Cell

-- GarbageCollector; `heaps` counts the vector of heaps.
pub record Collector : Type 0 where
  pub cells : Cells
  pub freelist : ℕ
  pub heaps : ℕ

-- kInitialHeapCount and kHeapCellCount
abbrev pub initial_heap_count : ℕ
initial_heap_count = 4

abbrev pub heap_cell_count : ℕ
heap_cell_count = 4096

-- The loop of add_heap, with `n` cells to go and the last one linked at `last`.
unfoldable pub link_cells : ℕ → ℕ → ℕ → Cells × ℕ
link_cells zero address last = ([], last)
link_cells (suc n) address last =
    let rest = link_cells n (suc address) address in
    (record { mark = false; immortal = false; payload = free last } ∷ rest.0, rest.1)

-- GarbageCollector::add_heap, for heaps of `count` cells
unfoldable pub add_heap : ℕ → Collector → Collector
add_heap count g =
    let linked = link_cells count (suc (length g.cells)) g.freelist in
    record { cells = g.cells ++ linked.0; freelist = linked.1; heaps = suc g.heaps }

unfoldable pub add_heaps : ℕ → ℕ → Collector → Collector
add_heaps count zero g = g
add_heaps count (suc n) g = add_heaps count n (add_heap count g)

-- GarbageCollector::grow_heap
unfoldable pub grow_heap : ℕ → Collector → Collector
grow_heap count g = add_heaps count g.heaps g

-- mark(Header*): a null pointer is skipped.
abbrev pub pointer_values : ℕ → List Value
pointer_values p = if p == 0 then [] else create_pointer p ∷ []

abbrev pub entries : ContainerType → List Value
entries [] = []
entries ((k, v) ∷ c) = v ∷ entries c

-- The values that GarbageCollector::mark goes on to, in its order.
unfoldable pub children : Payload → List Value
children (free next) = []
children (object k c) = pointer_values k ++ entries c
children (array d) = d
children string = []
children cpointer = []
children (function ctx host b s c) =
    pointer_values ctx ++ (pointer_values host ++ ((if b then s ∷ [] else []) ++ entries c))
children (cfunction c) = entries c
children (class ctor proto parent c) =
    pointer_values ctor ++ (pointer_values proto ++ (pointer_values parent ++ entries c))
children (frame p e t f s l) =
    pointer_values p ++ (pointer_values e ++ (pointer_values t ++ (pointer_values f ++ (s ∷ l))))
children (catchtable f p) = pointer_values f ++ pointer_values p

-- The position of the cell that a value points to, if it is a pointer and not null.
unfoldable pub target : Value → Option ℕ
target v = if is_ptr v && not (as_pointer v == 0) then some (as_pointer v - 1) else none

abbrev pub set_mark : Cell → Cell
set_mark c = record c { mark = true }

unfoldable pub mark_all : (Value → Cells → Cells) → List Value → Cells → Cells
mark_all one [] h = h
mark_all one (v ∷ vs) h = mark_all one vs (one v h)

-- GarbageCollector::mark(VALUE); the fuel bounds the depth of the recursion.
unfoldable pub mark : ℕ → Value → Cells → Cells
mark zero v h = h
mark (suc fuel) v h = elim (target v) [
  | none ↦ h
  | some i ↦ elim (get_elem? h i) [
    | none ↦ h
    | some c ↦
        if c.mark then h else mark_all (mark fuel) (children c.payload) (set h i (set_mark c))
  ]
]

-- The values of the cells whose `immortal` flag is set. Marking does not change the flag.
unfoldable pub immortals : ℕ → Cells → List Value
immortals i [] = []
immortals i (c ∷ cs) =
    if c.immortal then create_pointer (suc i) ∷ immortals (suc i) cs else immortals (suc i) cs

-- The sweep of one cell at a position, and the free list behind it. `deallocate` fills the cell
-- with 0xEA before it sets the type and the mark, which leaves the `immortal` byte set.
unfoldable pub sweep_cell : ℕ → Cell → ℕ → Cell × ℕ
sweep_cell i c freelist =
    if c.mark
    then (record c { mark = false }, freelist)
    else if same_type (type_of c.payload) ValueType.dead
    then (c, freelist)
    else (record { mark = false; immortal = true; payload = free freelist }, suc i)

unfoldable pub sweep : ℕ → Cells → ℕ → Cells × ℕ
sweep i [] freelist = ([], freelist)
sweep i (c ∷ cs) freelist =
    let swept = sweep_cell i c freelist in
    let rest = sweep (suc i) cs swept.1 in (swept.0 ∷ rest.0, rest.1)

-- GarbageCollector::collect, given the values that the running machine holds on to.
unfoldable pub collect : List Value → Collector → Collector
collect roots g =
    let fuel = suc (length g.cells) in
    let marked = mark_all (mark fuel) roots g.cells in
    let kept = mark_all (mark fuel) (immortals 0 marked) marked in
    let swept = sweep 0 kept g.freelist in record g { cells = swept.0; freelist = swept.1 }

-- The link of a free cell; a cell that is not free has none.
abbrev pub next_free : Cells → ℕ → ℕ
next_free h i = elim (get_elem? h i) [ none ↦ 0 | some c ↦ elim c.payload [ free n ↦ n | _ ↦ 0 ] ]

-- The cell that allocate_cell returns: all bytes zero, which is a dead cell.
abbrev pub zero_cell : Cell
zero_cell = record { mark = false; immortal = false; payload = free 0 }

-- The middle of allocate_cell: collect if the free list is empty, and grow if it still is.
unfoldable pub refill : ℕ → List Value → Collector → Collector
refill count roots g =
    let collected = if g.freelist == 0 then collect roots g else g in
    if collected.freelist == 0 then grow_heap count collected else collected

-- GarbageCollector::allocate_cell: the address and the collector; `none` is the read through a
-- null free list.
unfoldable pub allocate_cell : ℕ → List Value → Collector → Option (ℕ × Collector)
allocate_cell count roots g =
    if g.freelist == 0
    then none
    else let i = g.freelist - 1 in
      let filled = refill count roots (record g { freelist = next_free g.cells i }) in
      some (suc i, record filled { cells = set filled.cells i zero_cell })
