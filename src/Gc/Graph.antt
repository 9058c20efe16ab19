-- ===== src/Gc/Graph.antt =====
-- Which cells are reachable, over the payloads of the cells.
use charly_vm.Common.{ℕ, zero, suc, ◌+◌, ◌≡◌, ◌⊎◌, refl, ap, arith}
use charly_vm.Common.{Bool, true, false, if◌then◌else◌, none, some, List, [], ◌∷◌, map}
use charly_vm.Common.{get_elem?, set, ◌==◌}
use charly_vm.Value.Word.{Value}
use charly_vm.Gc.{Cell, Cells, Payload, children, target, set_mark}

infix 40 ◌∈◌
abbrev pub ◌∈◌ : Value → List Value → Type 0
v ∈ [] = ⊥
v ∈ w ∷ ws = (v ≡ w) ⊎ (v ∈ ws)

abbrev pub payloads : Cells → List Payload
payloads = map (λ (c : Cell). c.payload)

-- A cell that a value of the list points to, or that a reachable cell refers to.
pub data Reach (ps : List Payload) (roots : List Value) : ℕ → Type 0 where
  root :
      (v : Value) (i : ℕ) (p : Payload)
      → v ∈ roots
      → target v ≡ some i
      → get_elem? ps i ≡ some p
      → Reach ps roots i
  step :
      (i j : ℕ) (p q : Payload) (v : Value)
      → Reach ps roots i
      → get_elem? ps i ≡ some p
      → v ∈ children p
      → target v ≡ some j
      → get_elem? ps j ≡ some q
      → Reach ps roots j

abbrev pub is_marked : Cells → ℕ → Bool
is_marked [] i = false
is_marked (c ∷ cs) zero = c.mark
is_marked (c ∷ cs) (suc i) = is_marked cs i

-- How many cells are not marked.
abbrev pub white : Cells → ℕ
white [] = 0
white (c ∷ cs) = (if c.mark then 0 else 1) + white cs

module _ (h : Cells) where
  pub get_elem?-payloads :
      (i : ℕ) {c : Cell} → get_elem? h i ≡ some c → get_elem? (payloads h) i ≡ some c.payload
  get_elem?-payloads i e = go h i e
    where
      go :
          (g : Cells) (k : ℕ) {d : Cell}
          → get_elem? g k ≡ some d
          → get_elem? (payloads g) k ≡ some d.payload
      go [] k e = cc
      go (x ∷ g) zero e = ground arith
      go (x ∷ g) (suc k) e = go g k e

pub get_elem?-none-payloads :
    (h : Cells) (i : ℕ) → get_elem? h i ≡ none → get_elem? (payloads h) i ≡ none
get_elem?-none-payloads [] i e = refl
get_elem?-none-payloads (x ∷ h) zero e = cc
get_elem?-none-payloads (x ∷ h) (suc i) e = get_elem?-none-payloads h i e

pub is_marked-get : (h : Cells) (i : ℕ) {c : Cell} → get_elem? h i ≡ some c → is_marked h i ≡ c.mark
is_marked-get [] i e = cc
is_marked-get (x ∷ h) zero e = ground arith
is_marked-get (x ∷ h) (suc i) e = is_marked-get h i e

abbrev pub clear : Cell → Cell
clear c = record c { mark = false }

pub clear-set_mark :
    (h : Cells) (i : ℕ) {c : Cell}
    → get_elem? h i ≡ some c
    → map clear (set h i (set_mark c)) ≡ map clear h
clear-set_mark [] i e = refl
clear-set_mark (x ∷ h) zero e = ground arith
clear-set_mark (x ∷ h) (suc i) e = ap (◌∷◌ (clear x)) (clear-set_mark h i e)

-- Setting a mark keeps the payloads, marks that cell, and lowers the number of white cells.
pub payloads-set_mark :
    (h : Cells) (i : ℕ) {c : Cell}
    → get_elem? h i ≡ some c
    → payloads (set h i (set_mark c)) ≡ payloads h
payloads-set_mark [] i e = refl
payloads-set_mark (x ∷ h) zero e = ground arith
payloads-set_mark (x ∷ h) (suc i) e = ap (◌∷◌ x.payload) (payloads-set_mark h i e)

pub is_marked-set_mark :
    (h : Cells) (i j : ℕ) {c : Cell}
    → get_elem? h i ≡ some c
    → is_marked (set h i (set_mark c)) j ≡ (if i == j then true else is_marked h j)
is_marked-set_mark [] i j e = cc
is_marked-set_mark (x ∷ h) zero zero e = refl
is_marked-set_mark (x ∷ h) zero (suc j) e = ground arith
is_marked-set_mark (x ∷ h) (suc i) zero e = ground arith
is_marked-set_mark (x ∷ h) (suc i) (suc j) e = ground (arith, is_marked-set_mark h i j e)

pub white-set_mark :
    (h : Cells) (i : ℕ) {c : Cell}
    → get_elem? h i ≡ some c
    → c.mark ≡ false
    → suc (white (set h i (set_mark c))) ≡ white h
white-set_mark [] i e m = cc
white-set_mark (x ∷ h) zero e m = ground arith
white-set_mark (x ∷ h) (suc i) e m = omega (arith, white-set_mark h i e m)
