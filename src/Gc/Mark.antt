-- ===== src/Gc/Mark.antt =====
-- GarbageCollector::mark of src/vm/gc.cpp: what a run of it does to the marks.
pub mod Reachable
use charly_vm.Common.{ℕ, zero, suc, ◌+◌, ◌≤◌, ◌<◌, ◌≡◌, ◌⊎◌, inl, inr, refl, sym, ap, ◌∙◌, arith}
use charly_vm.Common.{
  Bool, true, false, if◌then◌else◌, Option, none, some, List, [], ◌∷◌, ◌++◌, map,
}
use mathlib.Core.Path.{subst}
use charly_vm.Common.{get_elem?, set, ◌==◌}
use charly_vm.Value.Word.{Value}
use charly_vm.Gc.{Cell, Cells, Payload, children, target, set_mark, mark, mark_all}
use charly_vm.Gc.Graph.{◌∈◌, payloads, Reach, is_marked, white, get_elem?-payloads}
use charly_vm.Gc.Graph.{
  get_elem?-none-payloads, is_marked-get, payloads-set_mark, clear, clear-set_mark,
}
use charly_vm.Gc.Graph.{is_marked-set_mark, white-set_mark}

-- If the value points to a cell, that cell is marked.
abbrev pub Hit : Cells → Value → Type 0
Hit h v =
    (i : ℕ) (p : Payload)
    → target v ≡ some i
    → get_elem? (payloads h) i ≡ some p
    → is_marked h i ≡ true

-- Every value that the cell refers to is hit.
abbrev pub Blackened : Cells → ℕ → Type 0
Blackened h i =
    (p : Payload) (v : Value) → get_elem? (payloads h) i ≡ some p → v ∈ children p → Hit h v

-- One run of marking: payloads stay, marks stay, and a new mark is on a cell that satisfies `P`
-- and whose references are all hit.
pub record Marks (P : ℕ → Type 0) (g h : Cells) : Type 0 where
  pub same : payloads h ≡ payloads g
  pub cleared : map clear h ≡ map clear g
  pub fewer : white h ≤ white g
  pub keeps : (i : ℕ) → is_marked g i ≡ true → is_marked h i ≡ true
  pub new : (i : ℕ) → is_marked h i ≡ true → (is_marked g i ≡ true) ⊎ (P i × Blackened h i)

pub Hit-Marks : {P : ℕ → Type 0} {g h : Cells} (v : Value) → Marks P g h → Hit g v → Hit h v
Hit-Marks v m hit i p e q = m.keeps i (hit i p e (subst (λ ps. get_elem? ps i ≡ some p) m.same q))

Blackened-Marks :
    {P : ℕ → Type 0} {g h : Cells} (i : ℕ) → Marks P g h → Blackened g i → Blackened h i
Blackened-Marks i m b p v e w =
    Hit-Marks v m (b p v (subst (λ ps. get_elem? ps i ≡ some p) m.same e) w)

pub refl-Marks : {P : ℕ → Type 0} (h : Cells) → Marks P h h
refl-Marks h = record {
  same = refl;
  cleared = refl;
  fewer = omega arith;
  keeps = λ i e. e;
  new = λ i e. inl e;
}

pub trans-Marks : {P : ℕ → Type 0} {f g h : Cells} → Marks P f g → Marks P g h → Marks P f h
trans-Marks {P = P} {f = f} {g = g} {h = h} m n = record {
  same = n.same ∙ m.same;
  cleared = n.cleared ∙ m.cleared;
  fewer = omega (arith, m.fewer, n.fewer);
  keeps = λ i e. n.keeps i (m.keeps i e);
  new = λ i e. before i (n.new i e);
}
  where
    before :
        (i : ℕ)
        → (is_marked g i ≡ true) ⊎ (P i × Blackened h i)
        → (is_marked f i ≡ true) ⊎ (P i × Blackened h i)
    before i (inr b) = inr b
    before i (inl e) = elim (m.new i e) [
      | inl old ↦ inl old
      | inr b ↦ inr (b.0, Blackened-Marks i n b.1)
    ]

-- The equations of `mark`, by what the value points to.
pub mark-none : (fuel : ℕ) (v : Value) (h : Cells) → target v ≡ none → mark fuel v h ≡ h
unfolding mark
mark-none zero v h e = refl
mark-none (suc fuel) v h e = rw (e, mark)

pub mark-outside :
    (fuel : ℕ) (v : Value) (h : Cells) {i : ℕ}
    → target v ≡ some i
    → get_elem? h i ≡ none
    → mark fuel v h ≡ h
unfolding mark
mark-outside zero v h e f = refl
mark-outside (suc fuel) v h e f = rw (e, f, mark)

pub mark-marked :
    (fuel : ℕ) (v : Value) (h : Cells) {i : ℕ} {c : Cell}
    → target v ≡ some i
    → get_elem? h i ≡ some c
    → c.mark ≡ true
    → mark fuel v h ≡ h
unfolding mark
mark-marked zero v h e f m = refl
mark-marked (suc fuel) v h e f m = rw (e, f, m, mark)

pub mark-white :
    (fuel : ℕ) (v : Value) (h : Cells) {i : ℕ} {c : Cell}
    → target v ≡ some i
    → get_elem? h i ≡ some c
    → c.mark ≡ false
    → mark (suc fuel) v h ≡ mark_all (mark fuel) (children c.payload) (set h i (set_mark c))
unfolding mark
mark-white fuel v h e f m = rw (e, f, m, mark)

pub some-injective : {p q : Payload} → some p ≡ some q → p ≡ q
some-injective e = cc

number_injective : {i j : ℕ} → some i ≡ some j → i ≡ j
number_injective e = cc

Hit-at : (h : Cells) (v : Value) (i : ℕ) → target v ≡ some i → is_marked h i ≡ true → Hit h v
Hit-at h v i e m j p f q = subst (λ k. is_marked h k ≡ true) (number_injective (sym e ∙ f)) m

-- Marking one white cell of `P`, then a run after which its references are hit.
Marks-white :
    {P : ℕ → Type 0} (g h : Cells) (i : ℕ) {c : Cell}
    → get_elem? g i ≡ some c
    → c.mark ≡ false
    → P i
    → Marks P (set g i (set_mark c)) h
    → ((v : Value) → v ∈ children c.payload → Hit h v)
    → Marks P g h
Marks-white {P = P} g h i {c} e m good rest hits = record {
  same = rest.same ∙ payloads-set_mark g i e;
  cleared = rest.cleared ∙ clear-set_mark g i e;
  fewer = omega (arith, rest.fewer, white-set_mark g i e m);
  keeps = λ j k. rest.keeps j (is_marked-set_mark g i j e ∙ kept j k);
  new = λ j k. old j (rest.new j k);
}
  where
    kept : (j : ℕ) → is_marked g j ≡ true → (if i == j then true else is_marked g j) ≡ true
    kept j k = ground (arith, k)

    payload_at : get_elem? (payloads h) i ≡ some c.payload
    payload_at =
        ap (λ ps. get_elem? ps i) (rest.same ∙ payloads-set_mark g i e) ∙ get_elem?-payloads g i e

    black : Blackened h i
    black p v q w = hits v (subst (λ x. v ∈ children x) (some-injective (sym q ∙ payload_at)) w)

    old :
        (j : ℕ)
        → (is_marked (set g i (set_mark c)) j ≡ true) ⊎ (P j × Blackened h j)
        → (is_marked g j ≡ true) ⊎ (P j × Blackened h j)
    old j (inr b) = inr b
    old j (inl k) = here j (eq_or i j) (sym (is_marked-set_mark g i j e) ∙ k)
      where
        eq_or : (a b : ℕ) → (a ≡ b) ⊎ ((a == b) ≡ false)
        eq_or a b = ground arith

        here :
            (j : ℕ)
            → (i ≡ j) ⊎ ((i == j) ≡ false)
            → (if i == j then true else is_marked g j) ≡ true
            → (is_marked g j ≡ true) ⊎ (P j × Blackened h j)
        here j (inl s) k = inr (subst P s good, subst (Blackened h) s black)
        here j (inr s) k = inl (subst (λ b. (if b then true else is_marked g j) ≡ true) s k)

if_same : (i : ℕ) (b : Bool) → (if i == i then true else b) ≡ true
if_same i b = ground arith

none_below : (n : ℕ) → n < 0 → ⊥
none_below n w = omega (arith, w)

module _ (P : ℕ → Type 0) (ps : List Payload) where
  -- The predicate holds of whatever the value points to.
  abbrev pub Good : Value → Type 0
  Good v = (i : ℕ) (p : Payload) → target v ≡ some i → get_elem? ps i ≡ some p → P i

  -- One call of `mark` with enough fuel, or a run of them over a list.
  abbrev pub MarksOne : (Value → Cells → Cells) → ℕ → Type 0
  MarksOne one n =
      (v : Value) (h : Cells)
      → payloads h ≡ ps
      → white h < n
      → Good v
      → Marks P h (one v h) × Hit (one v h) v

  pub mark_all-Marks :
      (one : Value → Cells → Cells) (n : ℕ)
      → MarksOne one n
      → (vs : List Value) (h : Cells) → payloads h ≡ ps
      → white h < n
      → ((v : Value) → v ∈ vs → Good v)
      → Marks P h (mark_all one vs h) × ((v : Value) → v ∈ vs → Hit (mark_all one vs h) v)
  unfolding mark_all
  mark_all-Marks one n each [] h s w good = (refl-Marks h, λ v m. elim m [ ])
  mark_all-Marks one n each (v ∷ vs) h s w good =
      let first = each v h s w (good v (inl refl)) in
      let rest =
        mark_all-Marks one n each vs (one v h) (first.0.same ∙ s) (omega (arith, first.0.fewer, w))
          (λ u m. good u (inr m)) in
      (
        trans-Marks first.0 rest.0,
        λ u m. elim m [
          | inl e ↦ subst (Hit (mark_all one vs (one v h))) (sym e) (Hit-Marks v rest.0 first.1)
          | inr m ↦ rest.1 u m
        ],
      )

  -- One call on a white cell, given what the calls with less fuel do.
  from_white :
      ((i : ℕ) (p : Payload) (v : Value) → P i → get_elem? ps i ≡ some p → v ∈ children p → Good v)
      → (h : Cells) (v : Value) (i : ℕ) (c : Cell) (fuel : ℕ) → MarksOne (mark fuel) fuel
      → payloads h ≡ ps
      → white h < suc fuel
      → Good v
      → target v ≡ some i
      → get_elem? h i ≡ some c
      → c.mark ≡ false
      → Marks P h (mark_all (mark fuel) (children c.payload) (set h i (set_mark c)))
        × Hit (mark_all (mark fuel) (children c.payload) (set h i (set_mark c))) v
  from_white closed h v i c fuel each s w good e f m =
      let ready : Cells = set h i (set_mark c) in
      let there : get_elem? ps i ≡ some c.payload =
        ap (λ qs. get_elem? qs i) (sym s) ∙ get_elem?-payloads h i f in
      let here : P i = good i c.payload e there in
      let run =
        mark_all-Marks (mark fuel) fuel each (children c.payload) ready
          (payloads-set_mark h i f ∙ s) (omega (arith, w, white-set_mark h i f m))
          (λ u k. closed i c.payload u here there k) in
      let set_there : is_marked ready i ≡ true =
        is_marked-set_mark h i i f ∙ if_same i (is_marked h i) in
      (
        Marks-white h (mark_all (mark fuel) (children c.payload) ready) i f m here run.0 run.1,
        Hit-at (mark_all (mark fuel) (children c.payload) ready) v i e (run.0.keeps i set_there),
      )

  one_more :
      ((i : ℕ) (p : Payload) (v : Value) → P i → get_elem? ps i ≡ some p → v ∈ children p → Good v)
      → (fuel : ℕ) → MarksOne (mark fuel) fuel
      → MarksOne (mark (suc fuel)) (suc fuel)
  one_more closed fuel each v h s w good = by_target (target v) refl
    where
      goal : Cells → Type 0
      goal g = Marks P h g × Hit g v

      by_mark :
          (i : ℕ) (c : Cell) (b : Bool)
          → target v ≡ some i
          → get_elem? h i ≡ some c
          → c.mark ≡ b
          → goal (mark (suc fuel) v h)
      by_mark i c true e f m =
          subst goal (sym (mark-marked (suc fuel) v h e f m))
            (refl-Marks h, Hit-at h v i e (is_marked-get h i f ∙ m))
      by_mark i c false e f m =
          subst goal (sym (mark-white fuel v h e f m))
            (from_white closed h v i c fuel each s w good e f m)

      by_cell :
          (i : ℕ) (o : Option Cell)
          → target v ≡ some i
          → get_elem? h i ≡ o
          → goal (mark (suc fuel) v h)
      by_cell i none e f =
          subst goal (sym (mark-outside (suc fuel) v h e f))
            (refl-Marks h, λ j p k q. nothing_there i j e k q f)
        where
          nothing_there :
              (i j : ℕ) {p : Payload}
              → target v ≡ some i
              → target v ≡ some j
              → get_elem? (payloads h) j ≡ some p
              → get_elem? h i ≡ none
              → is_marked h j ≡ true
          nothing_there i j e k q f = let outside = get_elem?-none-payloads h i f in cc
      by_cell i (some c) e f = by_mark i c c.mark e f refl

      by_target : (t : Option ℕ) → target v ≡ t → goal (mark (suc fuel) v h)
      by_target none e = subst goal (sym (mark-none (suc fuel) v h e)) (refl-Marks h, λ i p f q. cc)
      by_target (some i) e = by_cell i (get_elem? h i) e refl

  pub mark-Marks :
      ((i : ℕ) (p : Payload) (v : Value) → P i → get_elem? ps i ≡ some p → v ∈ children p → Good v)
      → (fuel : ℕ) → MarksOne (mark fuel) fuel
  mark-Marks closed zero v h s w good = elim (none_below (white h) w) [ ]
  mark-Marks closed (suc fuel) v h s w good =
      one_more closed fuel (mark-Marks closed fuel) v h s w good
