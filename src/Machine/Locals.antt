-- ===== src/Machine/Locals.antt =====
-- Reading and writing the locals of the frames of an environment, src/vm/vm.cpp.
use charly_vm.Common.{ℕ, zero, suc, ◌≡◌, ◌<◌, refl, ◌∙◌, arith, List, [], ◌∷◌, length}
use charly_vm.Common.{Option, none, some, get_elem?, set, ltb, true}
use charly_vm.Value.Word.{Value}
use charly_vm.Machine.{
  Frame, get_environment, Machine, Outcome, pop_stack, push_stack, travel, write_local, op_setlocal,
  op_readlocal,
}

abbrev pub with_locals : Frame → List Value → Frame
with_locals frame vs = record frame { locals = vs }

get_elem?-set {ℓ} :
    {A : Type ℓ} (xs : List A) (i : ℕ) (x : A) → i < length xs → get_elem? (set xs i x) i ≡ some x
get_elem?-set [] i x h = ground (arith, h)
get_elem?-set (y ∷ xs) zero x h = refl
get_elem?-set (y ∷ xs) (suc i) x h = get_elem?-set xs i x (omega (arith, h))

get_elem?-length {ℓ} :
    {A : Type ℓ} (xs : List A) (i : ℕ) {x : A} → get_elem? xs i ≡ some x → i < length xs
get_elem?-length [] i e = cc
get_elem?-length (y ∷ xs) zero e = omega arith
get_elem?-length (y ∷ xs) (suc i) e = omega (arith, get_elem?-length xs i e)

get_environment-set :
    (fs : List Frame) (g i : ℕ) {frame : Frame} (vs : List Value)
    → get_elem? fs g ≡ some frame
    → get_environment (set fs g (with_locals frame vs)) i ≡ get_environment fs i
get_environment-set [] g i vs e = refl
get_environment-set (f ∷ fs) zero zero vs e = ground arith
get_environment-set (f ∷ fs) zero (suc i) vs e = refl
get_environment-set (f ∷ fs) (suc g) zero vs e = refl
get_environment-set (f ∷ fs) (suc g) (suc i) vs e = get_environment-set fs g i vs e

travel-set :
    (fs : List Frame) (f level g : ℕ) {frame : Frame} (vs : List Value)
    → get_elem? fs g ≡ some frame
    → travel (set fs g (with_locals frame vs)) f level ≡ travel fs f level
unfolding travel
travel-set fs f zero g vs e = refl
travel-set fs f (suc level) g {frame} vs e =
    rw (get_environment-set fs g f vs e, travel)
      (by_environment (λ k. travel-set fs k level g vs e) (get_environment fs f))
  where
    by_environment :
        ((k : ℕ) → travel (set fs g (with_locals frame vs)) k level ≡ travel fs k level)
        → (o : Option (Option ℕ))
        → elim o [
          | none ↦ none
          | some environment ↦ elim environment [
            | none ↦ none
            | some k ↦ travel (set fs g (with_locals frame vs)) k level
          ]
        ]
          ≡ elim o [
            | none ↦ none
            | some environment ↦ elim environment [ none ↦ none | some k ↦ travel fs k level ]
          ]
    by_environment ih none = refl
    by_environment ih (some none) = refl
    by_environment ih (some (some k)) = ih k

-- A local that exists, at any level of the environment, is set to the value that is taken from
-- the stack, with nothing but the frames changed otherwise, and is then read back.
pub op_readlocal-op_setlocal :
    (index level : ℕ) (v : Value) (m : Machine) {f g : ℕ} {frame : Frame}
    → m.frames ≡ some f
    → travel m.frame_store f level ≡ some g
    → get_elem? m.frame_store g ≡ some frame
    → index < length frame.locals
    → (n : Machine) × (op_setlocal index level (push_stack v m) ≡ Outcome.ok n)
      × (n ≡ record m { frame_store = n.frame_store })
      × (op_readlocal index level n ≡ Outcome.ok (push_stack v n))
unfolding op_setlocal pop_stack write_local op_readlocal
op_readlocal-op_setlocal index level v m {f} {g} {frame} a b c d = (
  record m { frame_store = set m.frame_store g (with_locals frame (set frame.locals index v)) },
  rw (a, b, c, inside, write_local)
      (λ i. Outcome.ok (record m { frames = a i; frame_store = set m.frame_store g changed })),
  refl,
  rw (a, same_frame, new_locals, new_value, op_readlocal)
      (λ i. Outcome.ok (record m {
        stack = v ∷ m.stack;
        frames = a i;
        frame_store = set m.frame_store g changed;
      })),
)
  where
    changed : Frame
    changed = with_locals frame (set frame.locals index v)

    inside : ltb index (length frame.locals) ≡ true
    inside = ground (arith, d)

    same_frame : travel (set m.frame_store g changed) f level ≡ some g
    same_frame = travel-set m.frame_store f level g (set frame.locals index v) c ∙ b

    new_locals : get_elem? (set m.frame_store g changed) g ≡ some changed
    new_locals = get_elem?-set m.frame_store g changed (get_elem?-length m.frame_store g c)

    new_value : get_elem? (set frame.locals index v) index ≡ some v
    new_value = get_elem?-set frame.locals index v d
