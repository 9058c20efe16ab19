-- ===== src/Value/Number/Compare.antt =====
-- Comparison and truth of immediate integers.
use charly_vm.Common.{◌%◌, ◌^◌, ◌≡◌, ◌≢◌, refl, arith}
use charly_vm.Common.{Bool, true, false, not, ◌==◌, inl, inr}
use charly_vm.Common.Int.{ℤ, ◌≤ℤ◌, ◌<ℤ◌, ltb_ℤ, leb_ℤ, eq_of_parts}
use charly_vm.Value.Word.{Value, IsWord, true_value, false_value, word_of_int64}
use charly_vm.Value.Types.{is_int}
use charly_vm.Value.Types.Tags.{is_int-tag}
use charly_vm.Value.Integer.{Doubles, int_to_int64, int_to_int8}
use charly_vm.Value.Integer.Laws.{int_to_int64-payload}
use charly_vm.Common.{◌⊎◌}
use charly_vm.Value.Number.{lt_number, gt_number, le_number, ge_number, eq_number, neq_number}
use charly_vm.Value.Number.{unot_number, truthyness, boolean_value, eqb_ℤ}

-- The comparison answers `true` exactly when `P` holds, and `false` otherwise.
abbrev pub Decides : Value → Type 0 → Type 0
Decides v P = (v ≡ true_value) × P ⊎ (v ≡ false_value) × (¬ P)

decided : (b : Bool) {P : Type 0} → (b ≡ true → P) → (b ≡ false → ¬ P) → Decides (boolean_value b) P
decided true h k = inl (refl, h refl)
decided false h k = inr (refl, k refl)

module _ (a b : ℤ) where
  ltb_ℤ-Decides : Decides (boolean_value (ltb_ℤ a b)) (a <ℤ b)
  ltb_ℤ-Decides = decided (ltb_ℤ a b) (λ h. ground arith) (λ h k. ground arith)

  leb_ℤ-Decides : Decides (boolean_value (leb_ℤ a b)) (a ≤ℤ b)
  leb_ℤ-Decides = decided (leb_ℤ a b) (λ h. ground arith) (λ h k. ground arith)

  eqb_ℤ-Decides : Decides (boolean_value (eqb_ℤ a b)) (a ≡ b)
  eqb_ℤ-Decides = decided (eqb_ℤ a b) (λ h. eq_of_parts a b (ground arith)) (λ h k. ground arith)

  neqb_ℤ-Decides : Decides (boolean_value (not (eqb_ℤ a b))) (a ≢ b)
  neqb_ℤ-Decides =
      decided (not (eqb_ℤ a b)) (λ h k. ground arith) (λ h k. k (eq_of_parts a b (ground arith)))

-- On immediate integers the six comparisons decide the order of the integers that they hold.
pub comparison-Decides :
    (fp : Doubles) (l r : Value)
    → is_int l ≡ true
    → is_int r ≡ true
    → Decides (lt_number fp l r) (int_to_int64 l <ℤ int_to_int64 r)
      × Decides (gt_number fp l r) (int_to_int64 r <ℤ int_to_int64 l)
      × Decides (le_number fp l r) (int_to_int64 l ≤ℤ int_to_int64 r)
      × Decides (ge_number fp l r) (int_to_int64 r ≤ℤ int_to_int64 l)
      × Decides (eq_number fp l r) (int_to_int64 l ≡ int_to_int64 r)
      × Decides (neq_number fp l r) (int_to_int64 l ≢ int_to_int64 r)
unfolding lt_number gt_number le_number ge_number eq_number neq_number
comparison-Decides fp l r hl hr =
    rw (hl, hr)
      (
        ltb_ℤ-Decides (int_to_int64 l) (int_to_int64 r),
        ltb_ℤ-Decides (int_to_int64 r) (int_to_int64 l),
        leb_ℤ-Decides (int_to_int64 l) (int_to_int64 r),
        leb_ℤ-Decides (int_to_int64 r) (int_to_int64 l),
        eqb_ℤ-Decides (int_to_int64 l) (int_to_int64 r),
        neqb_ℤ-Decides (int_to_int64 l) (int_to_int64 r),
      )

-- charly_unot_number answers for the low eight bits of an immediate integer. The operator `!` of
-- the machine asks charly_truthyness instead.
pub unot_number-low_byte :
    (fp : Doubles) (v : Value) → is_int v ≡ true → unot_number fp v ≡ boolean_value (v % 2 ^ 8 == 0)
unfolding unot_number int_to_int8 word_of_int64
unot_number-low_byte fp v h = ground (arith, int_to_int64-payload v)

-- A branch on an immediate integer asks for its whole payload.
pub truthyness-payload :
    (fp : Doubles) (v : Value)
    → is_int v ≡ true
    → IsWord v
    → truthyness fp v ≡ not (v % 2 ^ 48 == 0)
unfolding truthyness
truthyness-payload fp v h w = ground (arith, is_int-tag v w, int_to_int64-payload v)

-- For each non-zero immediate integer that is a multiple of 256, charly_truthyness takes both the value and
-- its negation by charly_unot_number as true.
pub unot_number_disagrees :
    (fp : Doubles) (v : Value)
    → IsWord v
    → is_int v ≡ true
    → v % 2 ^ 8 ≡ 0
    → v % 2 ^ 48 ≢ 0
    → (truthyness fp v ≡ true) × (unot_number fp v ≡ true_value)
unot_number_disagrees fp v w h low some_bit =
    ground (arith, unot_number-low_byte fp v h, truthyness-payload fp v h w)
