-- ===== src/Bytecode/Assembler/Fields.antt =====
-- A patched four-byte field reads as the word written there, and other fields keep their value.
use mathlib.Core.List.{append-nil}
use charly_vm.Common.{
  ℕ, zero, suc, ◌+◌, ◌-◌, ◌*◌, ◌^◌, ◌≤◌, ◌<◌, ◌≡◌, ◌⊎◌, refl, sym, ap, ◌∙◌, arith,
}
use charly_vm.Common.{ltb, if◌then◌else◌, [], ◌∷◌, ◌++◌, length, get_or, take, drop}
use charly_vm.Common.{length-append, length-take, length-drop}
use charly_vm.Bytecode.MemoryBlock.{bytes_le, read_le}
use charly_vm.Bytecode.MemoryBlock.Bytes.{length-bytes_le, read_le-bytes_le}
use charly_vm.Bytecode.InstructionBlock.{Code}
use charly_vm.Bytecode.Assembler.{patch_u32}

-- The word in the four bytes at an offset.
unfoldable pub field : Code → ℕ → ℕ
field code t = read_le 4 (drop t code)

get_or-append :
    (xs ys : Code) (i : ℕ)
    → get_or (xs ++ ys) i 0
      ≡ (if ltb i (length xs) then get_or xs i 0 else get_or ys (i - length xs) 0)
get_or-append [] ys i = ground arith
get_or-append (x ∷ xs) ys zero = ground arith
get_or-append (x ∷ xs) ys (suc i) = ground (arith, get_or-append xs ys i)

get_or-take : (n : ℕ) (xs : Code) (i : ℕ) → i < n → get_or (take n xs) i 0 ≡ get_or xs i 0
get_or-take zero xs i h = absurd (omega arith)
get_or-take (suc n) [] i h = refl
get_or-take (suc n) (x ∷ xs) zero h = refl
get_or-take (suc n) (x ∷ xs) (suc i) h = get_or-take n xs i (omega arith)

get_or-drop : (n : ℕ) (xs : Code) (i : ℕ) → get_or (drop n xs) i 0 ≡ get_or xs (n + i) 0
get_or-drop zero xs i = ap (λ k. get_or xs k 0) (omega arith)
get_or-drop (suc n) [] i = refl
get_or-drop (suc n) (x ∷ xs) i =
    let e : suc (n + i) ≡ suc n + i = omega arith in
    get_or-drop n xs i ∙ ap (λ k. get_or (x ∷ xs) k 0) e

read_four :
    (bs : Code)
    → read_le 4 bs
      ≡ get_or bs 0 0 + 256 * (get_or bs 1 0 + 256 * (get_or bs 2 0 + 256 * get_or bs 3 0))
unfolding read_le
read_four [] = refl
read_four (a ∷ []) = omega arith
read_four (a ∷ b ∷ []) = omega arith
read_four (a ∷ b ∷ c ∷ []) = omega arith
read_four (a ∷ b ∷ c ∷ d ∷ bs) = omega arith

-- Two codes with the same four bytes at an offset hold the same word there.
field-congr :
    (bs cs : Code) (t : ℕ)
    → ((k : ℕ) → k < 4 → get_or bs (t + k) 0 ≡ get_or cs (t + k) 0)
    → field bs t ≡ field cs t
unfolding field
field-congr bs cs t same = omega (
  arith,
  read_four (drop t bs),
  read_four (drop t cs),
  at 0 (omega arith),
  at 1 (omega arith),
  at 2 (omega arith),
  at 3 (omega arith),
)
  where
    at : (k : ℕ) → k < 4 → get_or (drop t bs) k 0 ≡ get_or (drop t cs) k 0
    at k h = get_or-drop t bs k ∙ (same k h ∙ sym (get_or-drop t cs k))

pub drop-append : (n : ℕ) (xs ys : Code) → length xs ≡ n → drop n (xs ++ ys) ≡ ys
drop-append zero [] ys h = refl
drop-append zero (x ∷ xs) ys h = absurd (omega arith)
drop-append (suc n) [] ys h = absurd (omega arith)
drop-append (suc n) (x ∷ xs) ys h = drop-append n xs ys (omega arith)

module _ (code : Code) (t v : ℕ) (inside : t + 4 ≤ length code) where
  pub length-patch_u32 : length (patch_u32 code t v) ≡ length code
  unfolding patch_u32
  length-patch_u32 = omega (
    arith,
    length-append (take t code) (bytes_le 4 v ++ drop (t + 4) code),
    length-append (bytes_le 4 v) (drop (t + 4) code),
    length-take t code,
    length-drop (t + 4) code,
    length-bytes_le 4 v,
  )

  pub field-patch_self : v < 2 ^ 32 → field (patch_u32 code t v) t ≡ v
  unfolding patch_u32 field
  field-patch_self h =
      ap (read_le 4) (drop-append t (take t code) _ (omega (arith, length-take t code)))
      ∙ read_le-bytes_le 4 v (drop (t + 4) code) h

  -- Bytes outside the field are those of the code before.
  get_or-patch_u32 :
      (i : ℕ) → (i < t) ⊎ (t + 4 ≤ i) → get_or (patch_u32 code t v) i 0 ≡ get_or code i 0
  unfolding patch_u32
  get_or-patch_u32 i apart = ground (
    arith,
    get_or-append (take t code) (bytes_le 4 v ++ drop (t + 4) code) i,
    get_or-append (bytes_le 4 v) (drop (t + 4) code) (i - t),
    length-take t code,
    length-bytes_le 4 v,
    get_or-take t code i,
    get_or-drop (t + 4) code (i - t - 4),
  )

  pub field-patch_other :
      (s : ℕ) → (s + 4 ≤ t) ⊎ (t + 4 ≤ s) → field (patch_u32 code t v) s ≡ field code s
  field-patch_other s apart =
      field-congr (patch_u32 code t v) code s (λ k h. get_or-patch_u32 (s + k) (omega arith))

-- Appending keeps the fields inside.
pub field-append :
    (code more : Code) (s : ℕ) → s + 4 ≤ length code → field (code ++ more) s ≡ field code s
field-append code more s h =
    field-congr (code ++ more) code s (λ k b. ground (arith, get_or-append code more (s + k)))

-- A word written at the end of the code, behind one more byte.
pub field-at_end :
    (code op : Code) (v t : ℕ)
    → length code + length op ≡ t
    → v < 2 ^ 32
    → field ((code ++ op) ++ bytes_le 4 v) t ≡ v
unfolding field
field-at_end code op v t e h =
    ap (read_le 4) (
      drop-append t (code ++ op) (bytes_le 4 v) (length-append code op ∙ e)
      ∙ sym (append-nil (bytes_le 4 v)))
    ∙ read_le-bytes_le 4 v [] h
