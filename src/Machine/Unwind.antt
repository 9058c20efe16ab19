-- ===== src/Machine/Unwind.antt =====
-- What an exception restores: the catch tables of src/vm/vm.cpp.
use charly_vm.Common.{
  ℕ, zero, suc, ◌-◌, ◌≡◌, ◌<◌, ltb, refl, sym, ap, ◌∙◌, arith, List, [], ◌∷◌, ◌++◌, length,
  length-append,
}
use charly_vm.Common.{Bool, Option, none, some, get_elem?, drop, true, false, Bool-cases, inl, inr}
use charly_vm.Common.Int.{ℤ, pos, ◌+ℤ◌, pos_part}
use charly_vm.Value.Word.{Value}
use charly_vm.Machine.{Frame, CatchTable, Machine, Outcome}
use charly_vm.Machine.Returns.{get_elem?-at_end}
use charly_vm.Machine.Catch.{op_registercatchtable, unwind_frames, same_frame, unwind_catchstack}

-- The target is the frame itself or one of its ancestors.
pub data IsAncestor (fs : List Frame) (target : Option ℕ) : Option ℕ → Type 0 where
  here : IsAncestor fs target target
  up :
      (f : ℕ) (frame : Frame)
      → get_elem? fs f ≡ some frame
      → IsAncestor fs target frame.parent
      → IsAncestor fs target (some f)

-- A frame is allocated after its parent.
abbrev pub IsOrdered : List Frame → Type 0
IsOrdered fs =
    (f p : ℕ) (frame : Frame) → get_elem? fs f ≡ some frame → frame.parent ≡ some p → p < f

abbrev pub IsBelow : Option ℕ → ℕ → Type 0
IsBelow none n = Unit
IsBelow (some f) n = f < n

same_frame_refl : (f : Option ℕ) → same_frame f f ≡ true
same_frame_refl none = refl
same_frame_refl (some f) = ground arith

same_frame-path : (f g : Option ℕ) → same_frame f g ≡ true → f ≡ g
same_frame-path none none e = refl
same_frame-path none (some g) e = cc
same_frame-path (some f) none e = cc
same_frame-path (some f) (some g) e = ap some (ground (arith, e))

unwind_frames-here :
    (fs : List Frame) (fuel : ℕ) (f : Option ℕ) → IsBelow f fuel → unwind_frames fuel fs f f ≡ f
unfolding unwind_frames
unwind_frames-here fs fuel none b = refl
unwind_frames-here fs zero (some f) b = ground (arith, b)
unwind_frames-here fs (suc fuel) (some f) b = rw (same_frame_refl (some f)) refl

parent-IsBelow :
    (fs : List Frame) (f fuel : ℕ) (frame : Frame)
    → IsOrdered fs
    → get_elem? fs f ≡ some frame
    → f < suc fuel
    → IsBelow frame.parent fuel
parent-IsBelow fs f fuel frame o e b = go frame.parent refl
  where
    go : (p : Option ℕ) → frame.parent ≡ p → IsBelow p fuel
    go none q = tt
    go (some p) q = omega (arith, o f p frame e q, b)

-- The walk stops at the target.
unwind_frames-IsAncestor :
    (fs : List Frame) (target : Option ℕ)
    → IsOrdered fs
    → (fuel : ℕ) {f : Option ℕ} → IsBelow f fuel
    → IsAncestor fs target f
    → unwind_frames fuel fs f target ≡ target
unfolding unwind_frames
unwind_frames-IsAncestor fs target o fuel b IsAncestor.here = unwind_frames-here fs fuel target b
unwind_frames-IsAncestor fs target o zero b (IsAncestor.up f frame e a) = ground (arith, b)
unwind_frames-IsAncestor fs target o (suc fuel) b (IsAncestor.up f frame e a) =
    let rest = unwind_frames-IsAncestor fs target o fuel (parent-IsBelow fs f fuel frame o e b) a in
    elim (Bool-cases (same_frame (some f) target)) [
      | inl same ↦ rw same (same_frame-path (some f) target same)
      | inr other ↦ rw (other, e) rest
    ]

drop-append : (xs ys : List Value) → drop (length (xs ++ ys) - length ys) (xs ++ ys) ≡ ys
drop-append xs ys = ap (λ n. drop n (xs ++ ys)) (omega (arith, length-append xs ys)) ∙ go xs
  where
    go : (zs : List Value) → drop (length zs) (zs ++ ys) ≡ ys
    go [] = refl
    go (z ∷ zs) = go zs

-- The table that `m` registers for a handler at `address`.
abbrev pub registered : ℕ → Machine → CatchTable
registered address m = record {
  parent = m.catchstack;
  frame = m.frames;
  address = address;
  stacksize = length m.stack;
}

abbrev after_register : ℤ → ℕ → Machine → Machine
after_register offset ip m = record m {
  catchstack = some (length m.table_store);
  table_store = m.table_store ++ registered (pos_part (pos ip +ℤ offset)) m ∷ [];
}

register-ok :
    (offset : ℤ) (m : Machine) {ip : ℕ}
    → m.ip ≡ some ip
    → op_registercatchtable offset m ≡ Outcome.ok (after_register offset ip m)
unfolding op_registercatchtable
register-ok offset m {ip} a =
    rw (a, op_registercatchtable)
      (λ i. Outcome.ok (record (after_register offset ip m) { ip = a i }))

ok_injective : {m n : Machine} → Outcome.ok m ≡ Outcome.ok n → m ≡ n
ok_injective {m} e = ap (λ o. elim o [ Outcome.ok x ↦ x | _ ↦ m ]) e

-- An exception while a registered table is the innermost, in the frame that registered it or in
-- one that was called from there, and with values above those that were on the stack then, goes
-- on at the handler with the frame, the catch tables and the stack of the registration, and the
-- payload on top. A frame is allocated after its parent.
pub unwind_catchstack-register :
    (handler : Bool) (payload : Value) (offset : ℤ) (m n o : Machine) (above : List Value) {ip : ℕ}
    → m.ip ≡ some ip
    → op_registercatchtable offset m ≡ Outcome.ok n
    → o.catchstack ≡ n.catchstack
    → get_elem? o.table_store (length m.table_store)
      ≡ get_elem? n.table_store (length m.table_store)
    → o.stack ≡ above ++ m.stack
    → IsOrdered o.frame_store
    → IsBelow o.frames (suc (length o.frame_store))
    → IsAncestor o.frame_store m.frames o.frames
    → unwind_catchstack handler payload o
      ≡ Outcome.ok (record o {
        catchstack = m.catchstack;
        frames = m.frames;
        ip = some (pos_part (pos ip +ℤ offset));
        stack = payload ∷ m.stack;
      })
unfolding unwind_catchstack
unwind_catchstack-register handler payload offset m n o above {ip} a r c t s ordered below anc =
    rw (top, table, room, unwind_catchstack)
      (λ i. Outcome.ok (record o {
        catchstack = m.catchstack;
        frames = framed i;
        ip = some (pos_part (pos ip +ℤ offset));
        stack = payload ∷ dropped i;
      }))
  where
    same : after_register offset ip m ≡ n
    same = ok_injective (sym (register-ok offset m a) ∙ r)

    top : o.catchstack ≡ some (length m.table_store)
    top = c ∙ ap (λ (x : Machine). x.catchstack) (sym same)

    table :
        get_elem? o.table_store (length m.table_store)
        ≡ some (registered (pos_part (pos ip +ℤ offset)) m)
    table =
        t
        ∙ ap (λ (x : Machine). get_elem? x.table_store (length m.table_store)) (sym same)
        ∙ get_elem?-at_end m.table_store (registered (pos_part (pos ip +ℤ offset)) m)

    room : ltb (length o.stack) (length m.stack) ≡ false
    room = ground (arith, ap length s ∙ length-append above m.stack)

    dropped : drop (length o.stack - length m.stack) o.stack ≡ m.stack
    dropped = ap (λ xs. drop (length xs - length m.stack) xs) s ∙ drop-append above m.stack

    framed : unwind_frames (suc (length o.frame_store)) o.frame_store o.frames m.frames ≡ m.frames
    framed =
        unwind_frames-IsAncestor o.frame_store m.frames ordered (suc (length o.frame_store)) below
          anc
