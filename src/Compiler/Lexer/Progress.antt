-- ===== src/Compiler/Lexer/Progress.antt =====
-- How much the loops of src/compiler/lexer.cpp read, and that they end on a text whose last
-- character is a newline.
use mathlib.Core.Path.{subst}
use charly_vm.Common.{ℕ, zero, suc, ◌+◌, ◌-◌, ◌≤◌, ◌<◌, ◌≡◌, ◌≢◌, ◌⊎◌, inl, inr, refl, ap, arith}
use charly_vm.Common.{
  Bool, true, false, ◌==◌, if◌then◌else◌, Bool-cases, ==→≡, List, [], ◌∷◌, ◌++◌, length,
}
use charly_vm.Compiler.Source.{Source, accept_char, read_char}
use charly_vm.Compiler.Lexer.Scan.{Result, done, unexpected, diverge, ◌>>=◌}
use charly_vm.Compiler.Lexer.Scan.{is_numeric}
use charly_vm.Compiler.Lexer.Scan.{read_while}
use charly_vm.Compiler.Lexer.Scan.{decimal_loop}
use charly_vm.Compiler.Lexer.Scan.{string_loop, comment_loop}
use charly_vm.Compiler.Lexer.Scan.{multiline_loop, unescape}

-- The operation ends, and what it returns satisfies `P`.
abbrev pub Returns {ℓ} : {A : Type ℓ} → (A → Type 0) → Result A → Type 0
Returns P (done a) = P a
Returns P (unexpected pos row column cp) = Unit
Returns P diverge = ⊥

pub Returns-bind {ℓ κ} :
    {A : Type ℓ} {B : Type κ} (P : A → Type 0) (Q : B → Type 0) (m : Result A) (f : A → Result B)
    → Returns P m
    → ((a : A) → P a → Returns Q (f a))
    → Returns Q (m >>= f)
Returns-bind P Q (done a) f p k = k a p
Returns-bind P Q (unexpected pos row column cp) f p k = tt
Returns-bind P Q diverge f p k = elim p [ ]

pub Returns-weaken {ℓ} :
    {A : Type ℓ} (P Q : A → Type 0) (m : Result A)
    → Returns P m
    → ((a : A) → P a → Q a)
    → Returns Q m
Returns-weaken P Q (done a) p k = k a p
Returns-weaken P Q (unexpected pos row column cp) p k = tt
Returns-weaken P Q diverge p k = elim p [ ]

pub no_fuel : (k : ℕ) → k < 0 → ⊥
no_fuel k h = omega (arith, h)

-- The characters that are not consumed, the current one among them.
abbrev pub left : Source → ℕ
left s = (if s.current_char == 0 then 0 else 1) + length s.rest

abbrev pub last_or : ℕ → List ℕ → ℕ
last_or d [] = d
last_or d (c ∷ cs) = last_or c cs

-- The last character is a newline, or the text is read to its end.
abbrev pub EndsLine : Source → Type 0
EndsLine s = (last_or s.current_char s.rest ≡ 10) ⊎ ((s.rest ≡ []) × (s.current_char ≡ 0))

-- At most `n` characters are left, and the last one is a newline.
abbrev pub Within : ℕ → Source → Type 0
Within n s = (left s ≤ n) × EndsLine s

module _ (encode : ℕ → List ℕ) where
  abbrev next : Source → Source
  next = read_char encode

  pub next-left : (s : Source) → left (next s) ≤ length s.rest
  unfolding read_char accept_char
  next-left s = go s.rest
    where
      go : (cs : List ℕ) → left (next (record s { rest = cs })) ≤ length cs
      go [] = omega arith
      go (c ∷ cs) = ground arith

  pub next-EndsLine : (s : Source) → EndsLine s → EndsLine (next s)
  unfolding read_char accept_char
  next-EndsLine s e = go s.rest e
    where
      go :
          (cs : List ℕ)
          → EndsLine (record s { rest = cs })
          → EndsLine (next (record s { rest = cs }))
      go [] e = inr (refl, refl)
      go (c ∷ cs) (inr e) = cc
      go (c ∷ cs) (inl e) = elim (Bool-cases (c == 0)) [
        | inl z ↦ rw (z, accept_char) (inl (subst (λ d. last_or d cs ≡ 10) (==→≡ c 0 z) e))
        | inr z ↦ rw (z, accept_char) (inl e)
      ]

  pub next-Within : (n : ℕ) (s : Source) → Within n s → Within n (next s)
  next-Within n s (l, e) = (omega (arith, l, next-left s), next-EndsLine s e)

  pub next-Within_less :
      (n : ℕ) (s : Source) → Within n s → s.current_char ≢ 0 → Within (n - 1) (next s)
  next-Within_less n s (l, e) z = (ground (arith, l, next-left s), next-EndsLine s e)

  pub passes-nonzero : (p : ℕ → Bool) (c : ℕ) → p 0 ≡ false → p c ≡ true → c ≢ 0
  passes-nonzero p c z t e = cc (ap p e)

  -- Past a character that is not 0 there is less left.
  pub next-left_less : (s : Source) → s.current_char ≢ 0 → left (next s) < left s
  next-left_less s z = ground (arith, next-left s)

  -- A loop whose test fails at 0 stops, having read no more than there is.
  pub read_while-Within :
      (p : ℕ → Bool) (n fuel : ℕ) (read : List ℕ) (s : Source)
      → p 0 ≡ false
      → left s < fuel
      → Within n s
      → Returns (λ r. Within n r.0) (read_while encode p fuel read s)
  unfolding read_while
  read_while-Within p n zero read s z l w = elim (no_fuel (left s) l) [ ]
  read_while-Within p n (suc fuel) read s z l w = elim (Bool-cases (p s.current_char)) [
    | inl t ↦
        let less : left (next s) < fuel =
          omega (arith, l, next-left_less s (passes-nonzero p s.current_char z t)) in
        rw (t, read_while)
          (read_while-Within p n fuel (read ++ s.current_char ∷ []) (next s) z less
            (next-Within n s w))
    | inr f ↦ rw (f, read_while) w
  ]

  -- If the first character passes, it is read.
  pub read_while-Within_less :
      (p : ℕ → Bool) (fuel : ℕ) (s : Source)
      → p 0 ≡ false
      → suc (length s.rest) < suc fuel
      → EndsLine s
      → p s.current_char ≡ true
      → Returns (λ r. Within (length s.rest) r.0) (read_while encode p (suc fuel) [] s)
  unfolding read_while
  read_while-Within_less p fuel s z l e t =
      let less : left (next s) < fuel = omega (arith, l, next-left s) in
      rw (t, read_while)
        (read_while-Within p (length s.rest) fuel (s.current_char ∷ []) (next s) z less
          (next-left s, next-EndsLine s e))

  pub decimal_loop-Within :
      (n fuel : ℕ) (point : Bool) (text : List ℕ) (s : Source)
      → length s.rest < fuel
      → length s.rest ≤ n
      → EndsLine s
      → Returns (λ r. Within n r.0) (decimal_loop encode fuel point text s)
  unfolding decimal_loop is_numeric
  decimal_loop-Within n zero point text s l b e = elim (no_fuel (length s.rest) l) [ ]
  decimal_loop-Within n (suc fuel) point text s l b e = ground (
    arith,
    next-left s,
    next-EndsLine s e,
    decimal_loop-Within n fuel point text (next s),
    decimal_loop-Within n fuel true (text ++ (next s).current_char ∷ []) (next s),
    decimal_loop-Within n fuel point (text ++ (next s).current_char ∷ []) (next s),
  )

  pub string_loop-Within :
      (n fuel : ℕ) (value : List ℕ) (s : Source)
      → length s.rest < fuel
      → length s.rest ≤ n
      → EndsLine s
      → Returns (λ r. Within n r.0) (string_loop encode fuel value s)
  unfolding string_loop
  string_loop-Within n zero value s l b e = elim (no_fuel (length s.rest) l) [ ]
  string_loop-Within n (suc fuel) value s l b e =
      let s' = next s in
      let s'' = next s' in
      ground (
        arith,
        next-left s,
        next-EndsLine s e,
        next-left s',
        next-EndsLine s' (next-EndsLine s e),
        string_loop-Within n fuel (value ++ unescape encode s''.current_char) s'',
        string_loop-Within n fuel (value ++ encode s'.current_char) s',
      )

  pub multiline_loop-Within :
      (n fuel depth : ℕ) (s : Source)
      → left s < fuel
      → Within n s
      → Returns (Within n) (multiline_loop encode fuel depth s)
  unfolding multiline_loop
  multiline_loop-Within n zero depth s l w = elim (no_fuel (left s) l) [ ]
  multiline_loop-Within n (suc fuel) depth s l w =
      let s' = next s in
      let s'' = next s' in
      let w' = next-Within n s w in
      let w'' = next-Within n s' w' in
      ground (
        arith,
        next-left s,
        next-left s',
        w',
        w'',
        multiline_loop-Within n fuel (depth - 1) s'',
        multiline_loop-Within n fuel depth s',
        multiline_loop-Within n fuel (depth + 1) s'',
      )

  -- Before the newline that ends the text there is one character less to read.
  pub next-last :
      (s : Source)
      → s.current_char ≢ 10
      → last_or s.current_char s.rest ≡ 10
      → (last_or (next s).current_char (next s).rest ≡ 10)
        × (suc (length (next s).rest) ≡ length s.rest)
  unfolding read_char accept_char
  next-last s z e = go s.rest e
    where
      go :
          (cs : List ℕ)
          → last_or s.current_char cs ≡ 10
          → (last_or
                (next (record s { rest = cs })).current_char
                (next (record s { rest = cs })).rest
              ≡ 10)
            × (suc (length (next (record s { rest = cs })).rest) ≡ length cs)
      go [] e = elim (z e) [ ]
      go (c ∷ cs) e = elim (Bool-cases (c == 0)) [
        | inl k ↦ rw (k, accept_char) (subst (λ d. last_or d cs ≡ 10) (==→≡ c 0 k) e, refl)
        | inr k ↦ rw (k, accept_char) (e, refl)
      ]

  pub comment_loop-Within :
      (n fuel : ℕ) (s : Source)
      → length s.rest < fuel
      → left s ≤ n
      → last_or s.current_char s.rest ≡ 10
      → Returns (Within n) (comment_loop encode fuel s)
  unfolding comment_loop
  comment_loop-Within n zero s l b e = elim (no_fuel (length s.rest) l) [ ]
  comment_loop-Within n (suc fuel) s l b e =
      ground (arith, next-last s, next-left s, comment_loop-Within n fuel (next s))
