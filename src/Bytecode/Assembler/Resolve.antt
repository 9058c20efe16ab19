-- ===== src/Bytecode/Assembler/Resolve.antt =====
-- resolve_unresolved_label_references patches each pending field whose label is placed, and keeps
-- the references whose label is not.
use charly_vm.Common.{ℕ, ◌+◌, ◌≤◌, ◌≡◌, ◌⊎◌, inl, inr, refl, sym, ◌∙◌, arith}
use mathlib.Core.Path.{subst}
use charly_vm.Common.{none, some, Option-cases, List, [], ◌∷◌, length}
use charly_vm.Bytecode.InstructionBlock.{Code}
use charly_vm.Bytecode.Assembler.{Label, UnresolvedReference, find_label, sub_u32, patch_u32}
use charly_vm.Bytecode.Assembler.{resolve_loop}
use charly_vm.Bytecode.Assembler.Fields.{
  field, length-patch_u32, field-patch_self, field-patch_other,
}

abbrev pub Labels : Type 0
Labels = List (Label × ℕ)

abbrev pub All : (UnresolvedReference → Type 0) → List UnresolvedReference → Type 0
All P [] = Unit
All P (r ∷ rs) = P r × All P rs

-- Two four-byte fields do not overlap.
abbrev pub Apart : ℕ → ℕ → Type 0
Apart s t = (s + 4 ≤ t) ⊎ (t + 4 ≤ s)

abbrev pub Inside : ℕ → UnresolvedReference → Type 0
Inside n r = r.target_offset + 4 ≤ n

abbrev pub ApartFrom : ℕ → UnresolvedReference → Type 0
ApartFrom s r = Apart s r.target_offset

abbrev pub Separate : List UnresolvedReference → Type 0
Separate [] = Unit
Separate (r ∷ rs) = All (ApartFrom r.target_offset) rs × Separate rs

-- The label is placed, and the field holds its distance from the start of the instruction.
abbrev pub Correct : Labels → Code → UnresolvedReference → Type 0
Correct labels code r =
    (offset : ℕ) × (find_label labels r.id ≡ some offset)
    × (field code r.target_offset ≡ sub_u32 offset r.instruction_base)

abbrev pub IsPlaced : Labels → UnresolvedReference → Type 0
IsPlaced labels r = (offset : ℕ) × (find_label labels r.id ≡ some offset)

pub All_map :
    {P Q : UnresolvedReference → Type 0} (rs : List UnresolvedReference)
    → ((r : UnresolvedReference) → P r → Q r)
    → All P rs
    → All Q rs
All_map [] f h = tt
All_map (r ∷ rs) f (h, hs) = (f r h, All_map rs f hs)

abbrev patched : Code → UnresolvedReference → ℕ → Code
patched code r offset = patch_u32 code r.target_offset (sub_u32 offset r.instruction_base)

module _ (labels : Labels) (r : UnresolvedReference) (rs : List UnresolvedReference)
    (code : Code) where
  resolve_loop-missing :
      find_label labels r.id ≡ none
      → resolve_loop labels (r ∷ rs) code
        ≡ ((resolve_loop labels rs code).0, r ∷ (resolve_loop labels rs code).1)
  unfolding resolve_loop
  resolve_loop-missing e = rw (e, resolve_loop)

  resolve_loop-found :
      {offset : ℕ}
      → find_label labels r.id ≡ some offset
      → resolve_loop labels (r ∷ rs) code ≡ resolve_loop labels rs (patched code r offset)
  unfolding resolve_loop
  resolve_loop-found e = rw (e, resolve_loop)

-- The code keeps its length.
pub length-resolve_loop :
    (labels : Labels) (rs : List UnresolvedReference) (code : Code)
    → All (Inside (length code)) rs
    → length (resolve_loop labels rs code).0 ≡ length code
unfolding resolve_loop
length-resolve_loop labels [] code h = refl
length-resolve_loop labels (r ∷ rs) code (h, hs) = elim (Option-cases (find_label labels r.id)) [
  | inl missing ↦
      rw (resolve_loop-missing labels r rs code missing) (length-resolve_loop labels rs code hs)
  | inr (offset, found) ↦
      let kept = length-patch_u32 code r.target_offset (sub_u32 offset r.instruction_base) h in
      rw (resolve_loop-found labels r rs code found)
        (length-resolve_loop labels rs (patched code r offset) (rw kept hs) ∙ kept)
]

-- A field apart from all pending ones keeps its value.
pub field-resolve_loop :
    (labels : Labels) (rs : List UnresolvedReference) (code : Code) (s : ℕ)
    → All (Inside (length code)) rs
    → All (ApartFrom s) rs
    → field (resolve_loop labels rs code).0 s ≡ field code s
unfolding resolve_loop
field-resolve_loop labels [] code s h a = refl
field-resolve_loop labels (r ∷ rs) code s (h, hs) (a, as') =
    elim (Option-cases (find_label labels r.id)) [
      | inl missing ↦
          rw (resolve_loop-missing labels r rs code missing)
            (field-resolve_loop labels rs code s hs as')
      | inr (offset, found) ↦
          let v = sub_u32 offset r.instruction_base in
          let kept = length-patch_u32 code r.target_offset v h in
          rw (resolve_loop-found labels r rs code found) (
            field-resolve_loop labels rs (patched code r offset) s (rw kept hs) as'
            ∙ field-patch_other code r.target_offset v h s a)
    ]

-- No reference stays, and each is correct.
abbrev pub Outcome : Labels → List UnresolvedReference → Code × List UnresolvedReference → Type 0
Outcome labels rs out = (out.1 ≡ []) × All (Correct labels out.0) rs

-- With all labels placed, no reference stays, and each pending field is correct.
pub resolve_loop-Correct :
    (labels : Labels) (rs : List UnresolvedReference) (code : Code)
    → All (Inside (length code)) rs
    → Separate rs
    → All (IsPlaced labels) rs
    → Outcome labels rs (resolve_loop labels rs code)
unfolding resolve_loop
resolve_loop-Correct labels [] code h sep p = (refl, tt)
resolve_loop-Correct labels (r ∷ rs) code (h, hs) (apart, sep) ((offset, found), ps) =
    let v = sub_u32 offset r.instruction_base in
    let kept = length-patch_u32 code r.target_offset v h in
    let inside : All (Inside (length (patched code r offset))) rs = rw kept hs in
    let (gone, rest) = resolve_loop-Correct labels rs (patched code r offset) inside sep ps in
    let mine =
      field-resolve_loop labels rs (patched code r offset) r.target_offset inside apart
      ∙ field-patch_self code r.target_offset v h (omega arith) in
    subst (λ (out : Code × List UnresolvedReference). Outcome labels (r ∷ rs) out)
      (sym (resolve_loop-found labels r rs code found)) (gone, ((offset, found, mine), rest))
