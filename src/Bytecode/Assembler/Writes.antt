-- ===== src/Bytecode/Assembler/Writes.antt =====
-- What code generation does with the assembler of src/compiler/assembler.cpp, and where the
-- references that it writes stand.
use charly_vm.Common.{ℕ, ◌+◌, ◌%◌, ◌^◌, ◌≤◌, ◌<◌, ◌≡◌, inl, inr, ap, ◌∙◌, arith}
use charly_vm.Common.{none, some, List, [], ◌∷◌, ◌++◌, length}
use charly_vm.Common.{length-append}
use charly_vm.Bytecode.Opcode.{Opcode, byte_of}
use charly_vm.Bytecode.MemoryBlock.{bytes_le}
use charly_vm.Bytecode.MemoryBlock.Bytes.{length-bytes_le}
use charly_vm.Bytecode.InstructionBlock.{Code, write_op, write_u32}
use charly_vm.Bytecode.Assembler.{Assembler, Label, UnresolvedReference, find_label}
use charly_vm.Bytecode.Assembler.{reserve_label, place_label, write_to_label}
use charly_vm.Bytecode.Assembler.{}
use charly_vm.Bytecode.Assembler.{placed_offset}
use charly_vm.Bytecode.Assembler.Fields.{field-append, field-at_end}
use charly_vm.Bytecode.Assembler.Resolve.{Labels, All, Inside, ApartFrom, Separate, Correct}
use charly_vm.Bytecode.Assembler.Resolve.{All_map}

-- The reference of a branch that is written at the end of the code.
abbrev pub branch_reference : Label → Code → UnresolvedReference
branch_reference label code = record {
  id = label;
  target_offset = length code + 1;
  instruction_base = length code;
}

-- What code generation does with an assembler. The first list has the references whose label was
-- placed before they were written, from the last on; the second has those whose label was not,
-- from the first on. A label is placed once.
pub data Writes : Assembler → List UnresolvedReference → List UnresolvedReference → Type 0 where
  start : (a : Assembler) → a.labels ≡ [] → a.unresolved ≡ [] → Writes a [] []
  append :
      {a : Assembler} {done pending : List UnresolvedReference} (bytes : Code)
      → Writes a done pending
      → Writes (record a { code = a.code ++ bytes }) done pending
  reserve :
      {a : Assembler} {done pending : List UnresolvedReference}
      → Writes a done pending
      → Writes (reserve_label a).0 done pending
  place :
      {a : Assembler} {done pending : List UnresolvedReference} (label : Label)
      → find_label a.labels label ≡ none
      → Writes a done pending
      → Writes (place_label label a) done pending
  backward :
      {a : Assembler} {done pending : List UnresolvedReference} (op : Opcode) (label : Label)
      {offset : ℕ}
      → find_label a.labels label ≡ some offset
      → length a.code + 5 < 2 ^ 32
      → Writes a done pending
      → Writes (write_to_label op label a) (branch_reference label a.code ∷ done) pending
  forward :
      {a : Assembler} {done pending : List UnresolvedReference} (op : Opcode) (label : Label)
      → find_label a.labels label ≡ none
      → length a.code + 5 < 2 ^ 32
      → Writes a done pending
      → Writes (write_to_label op label a) done (pending ++ branch_reference label a.code ∷ [])

pub record Inv (a : Assembler) (done : List UnresolvedReference) : Type 0 where
  pub pending_inside : All (Inside (length a.code)) a.unresolved
  pub done_inside : All (Inside (length a.code)) done
  pub pending_separate : Separate a.unresolved
  -- Each finished reference is apart from each pending one.
  pub apart : All (λ r. All (ApartFrom r.target_offset) a.unresolved) done
  pub correct : All (Correct a.labels a.code) done

Inv-start : (a : Assembler) → a.unresolved ≡ [] → Inv a []
Inv-start a e = record {
  pending_inside = rw e tt;
  done_inside = tt;
  pending_separate = rw e tt;
  apart = tt;
  correct = tt;
}

-- Code that is appended moves no field.
Inv-append :
    {a : Assembler} {done : List UnresolvedReference} (bytes : Code)
    → Inv a done
    → Inv (record a { code = a.code ++ bytes }) done
Inv-append {a} {done} bytes inv = record {
  pending_inside = All_map a.unresolved (λ r h. omega (arith, grows)) inv.pending_inside;
  done_inside = All_map done (λ r h. omega (arith, grows)) inv.done_inside;
  pending_separate = inv.pending_separate;
  apart = inv.apart;
  correct = Correct-append done inv.done_inside inv.correct;
}
  where
    grows : length (a.code ++ bytes) ≡ length a.code + length bytes
    grows = length-append a.code bytes

    Correct-append :
        (rs : List UnresolvedReference)
        → All (Inside (length a.code)) rs
        → All (Correct a.labels a.code) rs
        → All (Correct a.labels (a.code ++ bytes)) rs
    Correct-append [] h c = tt
    Correct-append (r ∷ rs) (h, hs) ((offset, found, same), cs) = (
      (offset, found, field-append a.code bytes r.target_offset h ∙ same),
      Correct-append rs hs cs,
    )

-- A label that is placed for the first time is not the label of a finished reference.
Correct-place :
    (labels : Labels) (code : Code) (label offset : ℕ) (r : UnresolvedReference)
    → find_label labels label ≡ none
    → Correct labels code r
    → Correct ((label, offset) ∷ labels) code r
unfolding find_label
Correct-place labels code label offset r fresh (o, found, same) =
    (o, ground (arith, ap (find_label labels) {x = label} {y = r.id}), same)

Inv-place :
    {a : Assembler} {done : List UnresolvedReference} (label : Label)
    → find_label a.labels label ≡ none
    → Inv a done
    → Inv (place_label label a) done
unfolding place_label
Inv-place {a} {done} label fresh inv = record {
  pending_inside = inv.pending_inside;
  done_inside = inv.done_inside;
  pending_separate = inv.pending_separate;
  apart = inv.apart;
  correct =
      All_map done (λ r c. Correct-place a.labels a.code label (length a.code) r fresh c)
        inv.correct;
}

-- All pending fields lie before the end of the code, so a new field there is apart from them.
ends_apart :
    (rs : List UnresolvedReference) (n s : ℕ) → n ≤ s → All (Inside n) rs → All (ApartFrom s) rs
ends_apart [] n s h i = tt
ends_apart (r ∷ rs) n s h (i, is) = (inr (omega arith), ends_apart rs n s h is)

All-snoc :
    (P : UnresolvedReference → Type 0) (rs : List UnresolvedReference) {r : UnresolvedReference}
    → All P rs
    → P r
    → All P (rs ++ r ∷ [])
All-snoc P [] h p = (p, tt)
All-snoc P (s ∷ rs) (h, hs) p = (h, All-snoc P rs hs p)

Separate-snoc :
    (rs : List UnresolvedReference) (n : ℕ) (r : UnresolvedReference)
    → n ≤ r.target_offset
    → All (Inside n) rs
    → Separate rs
    → Separate (rs ++ r ∷ [])
Separate-snoc [] n r h i sep = (tt, tt)
Separate-snoc (s ∷ rs) n r h (i, is) (apart, sep) = (
  All-snoc (ApartFrom s.target_offset) rs apart (inl (omega arith)),
  Separate-snoc rs n r h is sep,
)

apart_snoc :
    (rs pending : List UnresolvedReference) (n : ℕ) (r : UnresolvedReference)
    → n ≤ r.target_offset
    → All (Inside n) rs
    → All (λ (d : UnresolvedReference). All (ApartFrom d.target_offset) pending) rs
    → All (λ (d : UnresolvedReference). All (ApartFrom d.target_offset) (pending ++ r ∷ [])) rs
apart_snoc [] pending n r h i a = tt
apart_snoc (d ∷ rs) pending n r h (i, is) (a, as') = (
  All-snoc (ApartFrom d.target_offset) pending a (inl (omega arith)),
  apart_snoc rs pending n r h is as',
)

-- The two ways in which a branch is written.
module _ (op : Opcode) (label : Label) (a : Assembler) where
  abbrev after_opcode : Code
  after_opcode = write_op a.code op

  length-after_opcode : length after_opcode ≡ length a.code + 1
  length-after_opcode =
      length-append a.code (bytes_le 1 (byte_of op))
      ∙ ap (λ k. length a.code + k) (length-bytes_le 1 (byte_of op))

  longer : (v : ℕ) → length a.code + 1 + 4 ≤ length (write_u32 after_opcode v)
  longer v =
      omega
        (arith, length-append after_opcode (bytes_le 4 v), length-bytes_le 4 v, length-after_opcode)

  write_to_label-found :
      {offset : ℕ}
      → find_label a.labels label ≡ some offset
      → write_to_label op label a
        ≡ record a { code = write_u32 after_opcode (placed_offset offset after_opcode) }
  unfolding write_to_label
  write_to_label-found e = rw (e, write_to_label)

  write_to_label-missing :
      find_label a.labels label ≡ none
      → length a.code + 5 < 2 ^ 32
      → write_to_label op label a ≡ record a {
        code = write_u32 after_opcode 0;
        unresolved = a.unresolved ++ branch_reference label a.code ∷ [];
      }
  unfolding write_to_label
  write_to_label-missing e small =
      rw (e, write_to_label)
        (λ i. record a {
          code = write_u32 after_opcode 0;
          unresolved =
              a.unresolved
              ++ record { id = label; target_offset = target i; instruction_base = base i } ∷ [];
        })
    where
      target : length after_opcode % 2 ^ 32 ≡ length a.code + 1
      target = omega (arith, length-after_opcode)

      base : length a.code % 2 ^ 32 ≡ length a.code
      base = omega arith

  Inv-backward :
      {done : List UnresolvedReference} {offset : ℕ}
      → find_label a.labels label ≡ some offset
      → length a.code + 5 < 2 ^ 32
      → Inv a done
      → Inv (write_to_label op label a) (branch_reference label a.code ∷ done)
  Inv-backward {done} {offset} found small inv = rw (write_to_label-found found) record {
    pending_inside = grown.pending_inside;
    done_inside = (longer (placed_offset offset after_opcode), grown.done_inside);
    pending_separate = grown.pending_separate;
    apart = (
      ends_apart a.unresolved (length a.code) (length a.code + 1) (omega arith) inv.pending_inside,
      grown.apart,
    );
    correct = (
      (
        offset,
        found,
        field-at_end a.code (bytes_le 1 (byte_of op)) (placed_offset offset after_opcode)
              (length a.code + 1) (ap (λ k. length a.code + k) (length-bytes_le 1 (byte_of op)))
              (omega arith)
            ∙ omega (arith, length-after_opcode),
      ),
      grown.correct,
    );
  }
    where
      grown :
          Inv (record a { code = write_u32 after_opcode (placed_offset offset after_opcode) }) done
      grown =
          Inv-append (bytes_le 4 (placed_offset offset after_opcode))
            (Inv-append (bytes_le 1 (byte_of op)) inv)

  Inv-forward :
      {done : List UnresolvedReference}
      → find_label a.labels label ≡ none
      → length a.code + 5 < 2 ^ 32
      → Inv a done
      → Inv (write_to_label op label a) done
  Inv-forward {done} fresh small inv = rw (write_to_label-missing fresh small) record {
    pending_inside =
        All-snoc (Inside (length (write_u32 after_opcode 0))) a.unresolved grown.pending_inside
          (longer 0);
    done_inside = grown.done_inside;
    pending_separate =
        Separate-snoc a.unresolved (length a.code) (branch_reference label a.code) (omega arith)
          inv.pending_inside inv.pending_separate;
    apart =
        apart_snoc done a.unresolved (length a.code) (branch_reference label a.code) (omega arith)
          inv.done_inside inv.apart;
    correct = grown.correct;
  }
    where
      grown : Inv (record a { code = write_u32 after_opcode 0 }) done
      grown = Inv-append (bytes_le 4 0) (Inv-append (bytes_le 1 (byte_of op)) inv)

pub Writes-Inv :
    {a : Assembler} {done pending : List UnresolvedReference} → Writes a done pending → Inv a done
unfolding reserve_label
Writes-Inv (start a none_placed none_pending) = Inv-start a none_pending
Writes-Inv (append bytes w) = Inv-append bytes (Writes-Inv w)
Writes-Inv (reserve w) =
    let inv = Writes-Inv w in
    record {
      pending_inside = inv.pending_inside;
      done_inside = inv.done_inside;
      pending_separate = inv.pending_separate;
      apart = inv.apart;
      correct = inv.correct;
    }
Writes-Inv (place label fresh w) = Inv-place label fresh (Writes-Inv w)
Writes-Inv (backward {a} op label found small w) =
    Inv-backward op label a found small (Writes-Inv w)
Writes-Inv (forward {a} op label fresh small w) = Inv-forward op label a fresh small (Writes-Inv w)

-- The assembler keeps the references that are not finished.
pub Writes-unresolved :
    {a : Assembler} {done pending : List UnresolvedReference}
    → Writes a done pending
    → a.unresolved ≡ pending
unfolding reserve_label place_label
Writes-unresolved (start a none_placed none_pending) = none_pending
Writes-unresolved (append bytes w) = Writes-unresolved w
Writes-unresolved (reserve w) = Writes-unresolved w
Writes-unresolved (place label fresh w) = Writes-unresolved w
Writes-unresolved (backward {a} op label found small w) =
    ap (λ b. b.unresolved) (write_to_label-found op label a found) ∙ Writes-unresolved w
Writes-unresolved (forward {a} op label fresh small w) =
    ap (λ b. b.unresolved) (write_to_label-missing op label a fresh small)
    ∙ ap (λ rs. rs ++ branch_reference label a.code ∷ []) (Writes-unresolved w)
