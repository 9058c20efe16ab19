-- ===== src/Gc/Chain.antt =====
-- The free list of src/vm/gc.cpp: from each free cell it goes on to one at a lower address.
use mathlib.Core.Path.{subst}
use mathlib.Core.List.{append_assoc, append-nil}
use charly_vm.Common.{ℕ, zero, suc, ◌+◌, ◌≤◌, ◌<◌, ◌≡◌, ◌≢◌, inl, inr, refl, sym, ap, ◌∙◌, arith}
use charly_vm.Common.{true, false, Bool-cases, some}
use charly_vm.Common.{List, [], ◌∷◌, ◌++◌, length, length-append, get_elem?, set}
use charly_vm.Value.Word.{Value}
use charly_vm.Value.Types.{same_type, type_index}
use charly_vm.Gc.{
  type_of, Payload, Cell, Cells, Collector, link_cells, add_heap, add_heaps, sweep_cell, sweep,
  collect,
}
use charly_vm.Gc.Graph.{payloads, get_elem?-payloads}
use charly_vm.Gc.Sweep.{freed, is_dead}
use charly_vm.Gc.Collect.{marked_cells, runs, collect-sweep, collect-freelist}

-- The address leads through free cells at positions that satisfy `P`, each at a lower address
-- than the one before, to the null pointer.
pub data Chain (P : ℕ → Type 0) (h : Cells) : ℕ → Type 0 where
  end : Chain P h 0
  link :
      (i next : ℕ) (c : Cell)
      → get_elem? h i ≡ some c
      → c.payload ≡ Payload.free next
      → next ≤ i
      → P i
      → Chain P h next
      → Chain P h (suc i)

pub get_elem?-append :
    (g h : Cells) (i : ℕ) {c : Cell} → get_elem? g i ≡ some c → get_elem? (g ++ h) i ≡ some c
get_elem?-append [] h i e = cc
get_elem?-append (x ∷ g) h zero e = e
get_elem?-append (x ∷ g) h (suc i) e = get_elem?-append g h i e

get_elem?-next : (g h : Cells) (c : Cell) → get_elem? (g ++ c ∷ h) (length g) ≡ some c
get_elem?-next [] h c = refl
get_elem?-next (x ∷ g) h c = get_elem?-next g h c

get_elem?-set_other :
    (h : Cells) (i j : ℕ) (z : Cell) → j ≢ i → get_elem? (set h i z) j ≡ get_elem? h j
get_elem?-set_other [] i j z n = refl
get_elem?-set_other (x ∷ h) zero zero z n = absurd (n refl)
get_elem?-set_other (x ∷ h) zero (suc j) z n = refl
get_elem?-set_other (x ∷ h) (suc i) zero z n = refl
get_elem?-set_other (x ∷ h) (suc i) (suc j) z n = get_elem?-set_other h i j z (λ e. n (ap suc e))

pub Chain-append :
    {P : ℕ → Type 0} (g h : Cells) {address : ℕ} → Chain P g address → Chain P (g ++ h) address
Chain-append g h end = end
Chain-append g h (link i next c e f l p k) =
    link i next c (get_elem?-append g h i e) f l p (Chain-append g h k)

pub Chain-map :
    {P Q : ℕ → Type 0} (h : Cells) {address : ℕ}
    → ((j : ℕ) → P j → Q j)
    → Chain P h address
    → Chain Q h address
Chain-map h m end = end
Chain-map h m (link i next c e f l p k) = link i next c e f l (m i p) (Chain-map h m k)

-- A chain that avoids a cell does not depend on what is in it.
pub Chain-set :
    (h : Cells) (i : ℕ) (z : Cell) {address : ℕ}
    → Chain (λ j. j ≢ i) h address
    → Chain (λ j. j ≢ i) (set h i z) address
Chain-set h i z end = end
Chain-set h i z (link j next c e f l p k) =
    link j next c (get_elem?-set_other h i j z p ∙ e) f l p (Chain-set h i z k)

-- The free cell that an address leads to, and the next one.
pub record FirstFree (h : Cells) (address : ℕ) : Type 0 where
  pub position : ℕ
  pub next : ℕ
  pub cell : Cell
  pub here : address ≡ suc position
  pub found : get_elem? h position ≡ some cell
  pub linked : cell.payload ≡ Payload.free next
  pub below : next ≤ position
  pub rest : Chain (λ j. Unit) h next

pub first_free :
    (h : Cells) (address : ℕ) → Chain (λ j. Unit) h address → 0 < address → FirstFree h address
first_free h address end p = absurd (omega (arith, p))
first_free h address (link i next c e f l q k) p = record {
  position = i;
  next = next;
  cell = c;
  here = refl;
  found = e;
  linked = f;
  below = l;
  rest = k;
}

-- Behind the cell at `i` the free list does not come back to it.
pub Chain-below :
    (h : Cells) (i : ℕ) {address : ℕ}
    → address ≤ i
    → Chain (λ j. Unit) h address
    → Chain (λ j. j ≢ i) h address
Chain-below h i b end = end
Chain-below h i b (link j next c e f l p k) =
    link j next c e f l (omega (arith, b)) (Chain-below h i (omega (arith, b, l)) k)

-- A free cell that is put behind the others is linked to the list.
Chain-next :
    (P : ℕ → Type 0) (g : Cells) (c : Cell) (last : ℕ)
    → c.payload ≡ Payload.free last
    → last ≤ length g
    → P (length g)
    → Chain P g last
    → Chain P (g ++ c ∷ []) (suc (length g))
Chain-next P g c last f l p k =
    link (length g) last c (get_elem?-next g [] c) f l p (Chain-append g (c ∷ []) k)

length-snoc : (g : Cells) (c : Cell) → length (g ++ c ∷ []) ≡ suc (length g)
length-snoc g c = omega (arith, length-append g (c ∷ []))

link_cells-Chain :
    (P : ℕ → Type 0) (g : Cells) (n last : ℕ)
    → ((j : ℕ) → length g ≤ j → P j)
    → last ≤ length g
    → Chain P g last
    → Chain P (g ++ (link_cells n (suc (length g)) last).0) (link_cells n (suc (length g)) last).1
unfolding link_cells
link_cells-Chain P g zero last p l k = rw (append-nil g) k
link_cells-Chain P g (suc n) last p l k =
    let c : Cell = record { mark = false; immortal = false; payload = Payload.free last } in
    let g' : Cells = g ++ c ∷ [] in
    let grown : length g' ≡ suc (length g) = length-snoc g c in
    let rest : Chain P (g' ++ (link_cells n (suc (length g')) (suc (length g))).0)
        (link_cells n (suc (length g')) (suc (length g))).1 =
      link_cells-Chain P g' n (suc (length g)) (λ j m. p j (omega (arith, grown, m)))
        (omega (arith, grown)) (Chain-next P g c last refl l (p (length g) (omega arith)) k) in
    let linked = link_cells n (suc (suc (length g))) (suc (length g)) in
    let here : Chain P (g' ++ linked.0) linked.1 =
      subst
        (λ a.
          Chain P (g' ++ (link_cells n (suc a) (suc (length g))).0)
            (link_cells n (suc a) (suc (length g))).1)
        grown rest in
    subst (λ x. Chain P x linked.1) (append_assoc g (c ∷ []) linked.0) here

pub get_elem?-length : (h : Cells) (i : ℕ) {c : Cell} → get_elem? h i ≡ some c → i < length h
get_elem?-length [] i e = cc
get_elem?-length (x ∷ h) zero e = omega arith
get_elem?-length (x ∷ h) (suc i) e = omega (arith, get_elem?-length h i e)

pub get_elem?-set : (h : Cells) (i : ℕ) (z : Cell) → i < length h → get_elem? (set h i z) i ≡ some z
get_elem?-set [] i z l = ground (arith, l)
get_elem?-set (x ∷ h) zero z l = refl
get_elem?-set (x ∷ h) (suc i) z l = get_elem?-set h i z (omega (arith, l))

-- The list starts at a cell that exists.
Chain-inside : {P : ℕ → Type 0} (h : Cells) {address : ℕ} → Chain P h address → address ≤ length h
Chain-inside h end = omega arith
Chain-inside h (link i next c e f l p k) = get_elem?-length h i e

pub add_heap-Chain :
    (P : ℕ → Type 0) (count : ℕ) (g : Collector)
    → ((j : ℕ) → length g.cells ≤ j → P j)
    → Chain P g.cells g.freelist
    → Chain P (add_heap count g).cells (add_heap count g).freelist
unfolding add_heap
add_heap-Chain P count g p k =
    link_cells-Chain P g.cells count g.freelist p (Chain-inside g.cells k) k

length-add_heap : (count : ℕ) (g : Collector) → length g.cells ≤ length (add_heap count g).cells
unfolding add_heap
length-add_heap count g =
    omega (arith, length-append g.cells (link_cells count (suc (length g.cells)) g.freelist).0)

pub length-add_heaps :
    (count n : ℕ) (g : Collector) → length g.cells ≤ length (add_heaps count n g).cells
unfolding add_heaps
length-add_heaps count zero g = omega arith
length-add_heaps count (suc n) g =
    omega (arith, length-add_heap count g, length-add_heaps count n (add_heap count g))

pub add_heaps-Chain :
    (P : ℕ → Type 0) (count n : ℕ) (g : Collector)
    → ((j : ℕ) → length g.cells ≤ j → P j)
    → Chain P g.cells g.freelist
    → Chain P (add_heaps count n g).cells (add_heaps count n g).freelist
unfolding add_heaps
add_heaps-Chain P count zero g p k = k
add_heaps-Chain P count (suc n) g p k =
    add_heaps-Chain P count n (add_heap count g)
      (λ j l. p j (omega (arith, l, length-add_heap count g))) (add_heap-Chain P count g p k)

-- The cells from position `k` on that a sweep may free are at positions that satisfy `P`.
abbrev Freeable : (ℕ → Type 0) → ℕ → Cells → Type 0
Freeable P k [] = Unit
Freeable P k (c ∷ cs) = ((is_dead c ≡ false) → P k) × Freeable P (suc k) cs

Freeable-from :
    (P : ℕ → Type 0) (k : ℕ) (h : Cells)
    → ((j : ℕ) (c : Cell) → get_elem? h j ≡ some c → is_dead c ≡ false → P (k + j))
    → Freeable P k h
Freeable-from P k [] f = tt
Freeable-from P k (c ∷ cs) f = (
  λ d. subst P (omega arith) (f 0 c refl d),
  Freeable-from P (suc k) cs (λ j x e d. subst P (omega arith) (f (suc j) x e d)),
)

module _ (P : ℕ → Type 0) (g : Cells) (k : ℕ) (same : length g ≡ k) where
  swept_cell-Chain :
      (c : Cell) (freelist : ℕ)
      → ((is_dead c ≡ false) → P k)
      → freelist ≤ k
      → Chain P g freelist
      → Chain P (g ++ (sweep_cell k c freelist).0 ∷ []) (sweep_cell k c freelist).1
        × ((sweep_cell k c freelist).1 ≤ suc k)
  unfolding sweep_cell is_dead
  swept_cell-Chain c freelist p l h = elim (Bool-cases c.mark) [
    | inl m ↦ rw (m, sweep_cell) (Chain-append g _ h, omega (arith, l))
    | inr m ↦ elim (Bool-cases (is_dead c)) [
      | inl d ↦ rw (m, d, sweep_cell) (Chain-append g _ h, omega (arith, l))
      | inr d ↦
          rw (m, d, sweep_cell)
            (
              subst (λ a. Chain P (g ++ freed freelist ∷ []) (suc a)) same
                  (Chain-next P g (freed freelist) freelist refl (omega (arith, l, same))
                    (subst P (sym same) (p d)) h),
              omega arith,
            )
    ]
  ]

sweep-Chain :
    (P : ℕ → Type 0) (g h : Cells) (k freelist : ℕ)
    → length g ≡ k
    → Freeable P k h
    → freelist ≤ k
    → Chain P g freelist
    → Chain P (g ++ (sweep k h freelist).0) (sweep k h freelist).1
unfolding sweep
sweep-Chain P g [] k freelist same f l c = rw (append-nil g) c
sweep-Chain P g (x ∷ h) k freelist same f l c =
    let first = swept_cell-Chain P g k same x freelist f.0 l c in
    let swept = sweep_cell k x freelist in
    subst (λ y. Chain P y (sweep (suc k) h swept.1).1)
      (append_assoc g (swept.0 ∷ []) (sweep (suc k) h swept.1).0)
      (sweep-Chain P (g ++ swept.0 ∷ []) h (suc k) swept.1
        (omega (arith, same, length-snoc g swept.0)) f.1 first.1 first.0)

dead_payload : (c : Cell) (next : ℕ) → c.payload ≡ Payload.free next → is_dead c ≡ true
unfolding is_dead type_of same_type type_index
dead_payload c next e = rw e refl

payload_injective : {p q : Payload} → some p ≡ some q → p ≡ q
payload_injective e = cc

-- A collection that starts with an empty free list leaves one through free cells only, and does
-- not put a cell into it that was free.
pub collect-Chain :
    (roots : List Value) (g : Collector) (i : ℕ) (c : Cell) (next : ℕ)
    → g.freelist ≡ 0
    → get_elem? g.cells i ≡ some c
    → c.payload ≡ Payload.free next
    → Chain (λ j. j ≢ i) (collect roots g).cells (collect roots g).freelist
collect-Chain roots g i c next z e f =
    let h = marked_cells roots g in
    let freeable : Freeable (λ j. j ≢ i) 0 h =
      Freeable-from (λ j. j ≢ i) 0 h (λ j d q w s. alive j d q w s) in
    subst (λ x. Chain (λ j. j ≢ i) x (collect roots g).freelist) (sym (collect-sweep roots g))
      (subst (λ x. Chain (λ j. j ≢ i) (sweep 0 h g.freelist).0 x) (sym (collect-freelist roots g))
        (sweep-Chain (λ j. j ≢ i) [] h 0 g.freelist refl freeable (omega (arith, z))
          (subst (Chain (λ j. j ≢ i) []) (sym z) end)))
  where
    alive :
        (j : ℕ) (d : Cell)
        → get_elem? (marked_cells roots g) j ≡ some d
        → is_dead d ≡ false
        → 0 + j ≢ i
    alive j d q w s =
        let at : j ≡ i = omega (arith, s) in
        let before : get_elem? (payloads g.cells) i ≡ some (Payload.free next) =
          get_elem?-payloads g.cells i e ∙ ap some f in
        let after : some d.payload ≡ some (Payload.free next) =
          sym (get_elem?-payloads (marked_cells roots g) j q)
          ∙ ap (λ ps. get_elem? ps j) (runs roots g).same
          ∙ ap (get_elem? (payloads g.cells)) at
          ∙ before in
        let dead = dead_payload d next (payload_injective after) in cc
