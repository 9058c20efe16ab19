-- ===== src/Gc/Sweep.antt =====
-- GarbageCollector's sweep of src/vm/gc.cpp: what it makes of each cell.
use charly_vm.Common.{ℕ, zero, suc, ◌≡◌, refl, ap, ◌∙◌, arith}
use charly_vm.Common.{Bool, true, false, some, [], ◌∷◌, length, get_elem?}
use charly_vm.Value.Types.{ValueType, same_type}
use charly_vm.Gc.{Cell, Cells, Payload, type_of, sweep_cell, sweep}
use charly_vm.Gc.Graph.{is_marked, clear}

-- The free cell that the sweep makes, linked to the free list as it was.
abbrev pub freed : ℕ → Cell
freed link = record { mark = false; immortal = true; payload = Payload.free link }

unfoldable pub is_dead : Cell → Bool
is_dead c = same_type (type_of c.payload) ValueType.dead

pub cell_injective : {c d : Cell} → some c ≡ some d → c ≡ d
cell_injective e = cc

sweep_cell-marked : (k : ℕ) (c : Cell) (f : ℕ) → c.mark ≡ true → (sweep_cell k c f).0 ≡ clear c
unfolding sweep_cell
sweep_cell-marked k c f m = rw m

sweep_cell-dead :
    (k : ℕ) (c : Cell) (f : ℕ) → c.mark ≡ false → is_dead c ≡ true → (sweep_cell k c f).0 ≡ c
unfolding sweep_cell is_dead
sweep_cell-dead k c f m d = rw (m, d)

sweep_cell-white :
    (k : ℕ) (c : Cell) (f : ℕ) → c.mark ≡ false → is_dead c ≡ false → (sweep_cell k c f).0 ≡ freed f
unfolding sweep_cell is_dead
sweep_cell-white k c f m d = rw (m, d)

-- The sweep of the first cell, which `e` names.
first_swept :
    (k f : ℕ) {x c d : Cell}
    → some x ≡ some c
    → (sweep_cell k c f).0 ≡ d
    → some (sweep_cell k x f).0 ≡ some d
first_swept k f e p = ap (λ y. some (sweep_cell k y f).0) (cell_injective e) ∙ ap some p

pub sweep-marked :
    (k : ℕ) (h : Cells) (f i : ℕ) {c : Cell}
    → get_elem? h i ≡ some c
    → c.mark ≡ true
    → get_elem? (sweep k h f).0 i ≡ some (clear c)
unfolding sweep
sweep-marked k [] f i e m = cc
sweep-marked k (x ∷ h) f zero {c} e m = first_swept k f e (sweep_cell-marked k c f m)
sweep-marked k (x ∷ h) f (suc i) e m = sweep-marked (suc k) h (sweep_cell k x f).1 i e m

pub sweep-dead :
    (k : ℕ) (h : Cells) (f i : ℕ) {c : Cell}
    → get_elem? h i ≡ some c
    → c.mark ≡ false
    → is_dead c ≡ true
    → get_elem? (sweep k h f).0 i ≡ some c
unfolding sweep
sweep-dead k [] f i e m d = cc
sweep-dead k (x ∷ h) f zero {c} e m d = first_swept k f e (sweep_cell-dead k c f m d)
sweep-dead k (x ∷ h) f (suc i) e m d = sweep-dead (suc k) h (sweep_cell k x f).1 i e m d

pub sweep-white :
    (k : ℕ) (h : Cells) (f i : ℕ) {c : Cell}
    → get_elem? h i ≡ some c
    → c.mark ≡ false
    → is_dead c ≡ false
    → (link : ℕ) × (get_elem? (sweep k h f).0 i ≡ some (freed link))
unfolding sweep
sweep-white k [] f i e m d = cc
sweep-white k (x ∷ h) f zero {c} e m d = (f, first_swept k f e (sweep_cell-white k c f m d))
sweep-white k (x ∷ h) f (suc i) e m d = sweep-white (suc k) h (sweep_cell k x f).1 i e m d

pub length-sweep : (k : ℕ) (h : Cells) (f : ℕ) → length (sweep k h f).0 ≡ length h
unfolding sweep
length-sweep k [] f = refl
length-sweep k (c ∷ h) f = ap suc (length-sweep (suc k) h (sweep_cell k c f).1)

pub is_marked-sweep : (k : ℕ) (h : Cells) (f i : ℕ) → is_marked (sweep k h f).0 i ≡ false
unfolding sweep sweep_cell
is_marked-sweep k [] f i = refl
is_marked-sweep k (c ∷ h) f zero = ground arith
is_marked-sweep k (c ∷ h) f (suc i) = is_marked-sweep (suc k) h (sweep_cell k c f).1 i
