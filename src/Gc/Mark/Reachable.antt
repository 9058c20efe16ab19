-- ===== src/Gc/Mark/Reachable.antt =====
-- GarbageCollector::mark of src/vm/gc.cpp against reachability over the references of the cells.
use charly_vm.Common.{ℕ, ◌≤◌, ◌<◌, ◌≡◌, ◌↔◌, inl, inr, refl, ap, ◌∙◌, arith}
use charly_vm.Common.{Bool, true, false, List, [], ◌∷◌, length, get_elem?}
use charly_vm.Value.Word.{Value}
use charly_vm.Gc.{Cells, mark, mark_all}
use charly_vm.Gc.Graph.{◌∈◌, payloads, Reach, is_marked, white}
use charly_vm.Gc.Mark.{Marks, Hit, mark_all-Marks, mark-Marks}

pub white-length : (h : Cells) → white h ≤ length h
white-length [] = omega arith
white-length (c ∷ h) = ground (arith, white-length h)

not_both : {b : Bool} → b ≡ false → b ≡ true → ⊥
not_both p q = cc

-- No cell is marked.
abbrev pub AllWhite : Cells → Type 0
AllWhite h = (i : ℕ) → is_marked h i ≡ false

module _ (h : Cells) (roots : List Value) where
  run :
      (fuel : ℕ)
      → length h < fuel
      → Marks (Reach (payloads h) roots) h (mark_all (mark fuel) roots h)
        × ((v : Value) → v ∈ roots → Hit (mark_all (mark fuel) roots h) v)
  run fuel l =
      mark_all-Marks (Reach (payloads h) roots) (payloads h) (mark fuel) fuel
        (mark-Marks (Reach (payloads h) roots) (payloads h)
          (λ i p v r e m j q t f. Reach.step i j p q v r e m t f) fuel)
        roots h refl (omega (arith, l, white-length h)) (λ v m i p t e. Reach.root v i p m t e)

  pub mark-Marks-roots :
      (fuel : ℕ)
      → length h < fuel
      → Marks (Reach (payloads h) roots) h (mark_all (mark fuel) roots h)
  mark-Marks-roots fuel l = (run fuel l).0

  -- With no cell marked before, and more fuel than there are cells, marking the roots marks
  -- exactly the cells that are reachable from them.
  pub marked_iff_reachable :
      (fuel : ℕ)
      → length h < fuel
      → AllWhite h
      → (i : ℕ) → (is_marked (mark_all (mark fuel) roots h) i ≡ true) ↔ Reach (payloads h) roots i
  marked_iff_reachable fuel l none_yet k = (forth k, back k)
    where
      marked : ℕ → Type 0
      marked i = is_marked (mark_all (mark fuel) roots h) i ≡ true

      forth : (i : ℕ) → marked i → Reach (payloads h) roots i
      forth i m = elim ((run fuel l).0.new i m) [
        | inl old ↦ elim (not_both (none_yet i) old) [ ]
        | inr b ↦ b.0
      ]

      back : (i : ℕ) → Reach (payloads h) roots i → marked i
      back _ (Reach.root v i p m t e) =
          (run fuel l).1 v m i p t (ap (λ ps. get_elem? ps i) (run fuel l).0.same ∙ e)
      back _ (Reach.step i j p q v r e m t f) = elim ((run fuel l).0.new i (back i r)) [
        | inl old ↦ elim (not_both (none_yet i) old) [ ]
        | inr b ↦
            b.1 p v (ap (λ ps. get_elem? ps i) (run fuel l).0.same ∙ e) m j q t
              (ap (λ ps. get_elem? ps j) (run fuel l).0.same ∙ f)
      ]
