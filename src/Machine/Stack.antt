-- ===== src/Machine/Stack.antt =====
-- The instructions of src/vm/vm.cpp that move values on the stack.
use charly_vm.Common.{ℕ, zero, suc, ◌≡◌, ◌<◌, refl, ap, ◌∙◌, arith, List, [], ◌∷◌, ◌++◌, length}
use charly_vm.Value.Word.{Value}
use charly_vm.Machine.{Machine, Outcome, Status, pop_stack, pop_count, push_back, op_dupn}

push_back-stack :
    (vs : List Value) (m : Machine) → push_back vs m ≡ record m { stack = vs ++ m.stack }
unfolding push_back
push_back-stack [] m = refl
push_back-stack (v ∷ vs) m =
    λ i. record (push_back-stack vs m i) { stack = v ∷ (push_back-stack vs m i).stack }

pop_count-append :
    (vs s : List Value) (m : Machine) (k : List Value → Machine → Outcome)
    → pop_count (length vs) (record m { stack = vs ++ s }) k ≡ k vs (record m { stack = s })
unfolding pop_count pop_stack
pop_count-append [] s m k = refl
pop_count-append (v ∷ vs) s m k = pop_count-append vs s m (λ ws o. k (v ∷ ws) o)

pop_count-short :
    (n : ℕ) (s : List Value) (m : Machine) (k : List Value → Machine → Outcome)
    → length s < n
    → pop_count n (record m { stack = s }) k ≡ Outcome.panic Status.corrupted_stack
unfolding pop_count pop_stack
pop_count-short zero s m k h = elim (none_below (length s) h) [ ]
  where
    none_below : (a : ℕ) → a < 0 → ⊥
    none_below a h = omega (arith, h)
pop_count-short (suc n) [] m k h = refl
pop_count-short (suc n) (v ∷ s) m k h =
    pop_count-short n s m (λ ws o. k (v ∷ ws) o) (omega (arith, h))

-- `dupn` repeats the top values in their order, and panics if there are fewer.
pub op_dupn_lem :
    (vs s : List Value) (m : Machine) (n : ℕ)
    → length s < n
    → (op_dupn (length vs) (record m { stack = vs ++ s })
        ≡ Outcome.ok (record m { stack = vs ++ (vs ++ s) }))
      × (op_dupn n (record m { stack = s }) ≡ Outcome.panic Status.corrupted_stack)
unfolding op_dupn
op_dupn_lem vs s m n h = (
  pop_count-append vs s m (λ b o. Outcome.ok (push_back b (push_back b o)))
      ∙ ap Outcome.ok (
          push_back-stack vs (push_back vs (record m { stack = s }))
          ∙ ap (λ (o : Machine). record o { stack = vs ++ o.stack })
              (push_back-stack vs (record m { stack = s }))),
  pop_count-short n s m (λ b o. Outcome.ok (push_back b (push_back b o))) h,
)
