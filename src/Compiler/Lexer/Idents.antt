-- ===== src/Compiler/Lexer/Idents.antt =====
-- What Lexer::consume_ident of src/compiler/lexer.cpp makes of an identifier.
use mathlib.Core.List.{append_assoc, append-nil}
use charly_vm.Common.{ℕ, zero, suc, ◌+◌, ◌-◌, ◌<◌, ◌≡◌, ◌≢◌, refl, sym, ap, ◌∙◌, arith}
use charly_vm.Common.{Bool, true, false, ≢→==, List, [], ◌∷◌, ◌++◌, length, length-append, take}
use charly_vm.Compiler.Source.{Source, accept_char, read_char, get_current_frame}
use charly_vm.Compiler.Lexer.Scan.{
  done, is_ident_part, is_ident_start, is_alpha, is_numeric, read_while, consume_ident,
}
use charly_vm.Compiler.Lexer.Progress.{no_fuel, passes-nonzero}

-- Each character passes the test.
abbrev pub Passes : (ℕ → Bool) → List ℕ → Type 0
Passes p [] = Unit
Passes p (c ∷ cs) = (p c ≡ true) × Passes p cs

is_ident_part-zero : is_ident_part 0 ≡ false
unfolding is_ident_part is_ident_start is_alpha is_numeric
is_ident_part-zero = refl

module _ (encode : ℕ → List ℕ) where
  -- The bytes of a text
  abbrev pub bytes : List ℕ → List ℕ
  bytes [] = []
  bytes (c ∷ cs) = encode c ++ bytes cs

  next-head :
      (s : Source) (c : ℕ) (cs : List ℕ)
      → c ≢ 0
      → s.rest ≡ c ∷ cs
      → ((read_char encode s).current_char ≡ c)
        × (((read_char encode s).rest ≡ cs) × ((read_char encode s).frame ≡ s.frame ++ encode c))
  unfolding read_char accept_char
  next-head s c cs z e = rw (e, ≢→== c 0 z) (refl, (refl, refl))

  next-end :
      (s : Source)
      → s.rest ≡ []
      → ((read_char encode s).current_char ≡ 0)
        × (((read_char encode s).rest ≡ []) × ((read_char encode s).frame ≡ s.frame))
  unfolding read_char accept_char
  next-end s e = rw (e) (refl, (refl, refl))

  module _ (p : ℕ → Bool) (p-zero : p 0 ≡ false) where
    stops :
        (fuel : ℕ) (read : List ℕ) (s : Source)
        → p s.current_char ≡ false
        → read_while encode p (suc fuel) read s ≡ done (s, read)
    unfolding read_while
    stops fuel read s e = rw (e, read_while) refl

    goes :
        (fuel : ℕ) (read : List ℕ) (s : Source)
        → p s.current_char ≡ true
        → read_while encode p (suc fuel) read s
          ≡ read_while encode p fuel (read ++ s.current_char ∷ []) (read_char encode s)
    unfolding read_while
    goes fuel read s e = rw (e, read_while) refl

    -- The loop reads `cs` and the character behind it, `d`.
    read_while-frame :
        (fuel : ℕ) (read : List ℕ) (s : Source) (cs : List ℕ) (d : ℕ) (tail : List ℕ)
        → length cs + 1 < fuel
        → p s.current_char ≡ true
        → Passes p cs
        → p d ≡ false
        → d ≢ 0
        → s.rest ≡ cs ++ d ∷ tail
        → (q : Source × List ℕ) × ((read_while encode p fuel read s ≡ done q)
            × ((q.0.frame ≡ s.frame ++ (bytes cs ++ encode d))
                × ((q.0.current_char ≡ d) × (q.0.rest ≡ tail))))
    read_while-frame zero read s cs d tail l c t f z e = elim (no_fuel (length cs + 1) l) [ ]
    read_while-frame (suc zero) read s cs d tail l c t f z e =
        elim (no_fuel (length cs) (omega (arith, l))) [ ]
    read_while-frame (suc (suc fuel)) read s [] d tail l c t f z e =
        let n = next-head s d tail z e in
        (
          (read_char encode s, read ++ s.current_char ∷ []),
          (
            goes (suc fuel) read s c ∙ stops fuel _ (read_char encode s) (rw (n.0) f),
            (n.1.1, (n.0, n.1.0)),
          ),
        )
    read_while-frame (suc fuel) read s (c' ∷ cs) d tail l c t f z e =
        let n = next-head s c' (cs ++ d ∷ tail) (passes-nonzero encode p c' p-zero t.0) e in
        let m =
          read_while-frame fuel (read ++ s.current_char ∷ []) (read_char encode s) cs d tail
            (omega (arith, l)) (rw (n.0) t.0) t.1 f z n.1.0 in
        (
          m.0,
          (
            goes fuel read s c ∙ m.1.0,
            (
              m.1.1.0
                  ∙ ap (λ b. b ++ (bytes cs ++ encode d)) n.1.1
                  ∙ append_assoc s.frame (encode c') (bytes cs ++ encode d)
                  ∙ ap (λ b. s.frame ++ b) (sym (append_assoc (encode c') (bytes cs) (encode d))),
              m.1.1.1,
            ),
          ),
        )

    read_while-end :
        (fuel : ℕ) (read : List ℕ) (s : Source) (cs : List ℕ)
        → length cs + 1 < fuel
        → p s.current_char ≡ true
        → Passes p cs
        → s.rest ≡ cs
        → (q : Source × List ℕ) × ((read_while encode p fuel read s ≡ done q)
            × (q.0.frame ≡ s.frame ++ bytes cs))
    read_while-end zero read s cs l c t e = elim (no_fuel (length cs + 1) l) [ ]
    read_while-end (suc zero) read s cs l c t e = elim (no_fuel (length cs) (omega (arith, l))) [ ]
    read_while-end (suc (suc fuel)) read s [] l c t e =
        let n = next-end s e in
        (
          (read_char encode s, read ++ s.current_char ∷ []),
          (
            goes (suc fuel) read s c ∙ stops fuel _ (read_char encode s) (rw (n.0) p-zero),
            n.1.1 ∙ sym (append-nil s.frame),
          ),
        )
    read_while-end (suc fuel) read s (c' ∷ cs) l c t e =
        let n = next-head s c' cs (passes-nonzero encode p c' p-zero t.0) e in
        let m =
          read_while-end fuel (read ++ s.current_char ∷ []) (read_char encode s) cs
            (omega (arith, l)) (rw (n.0) t.0) t.1 n.1.0 in
        (
          m.0,
          (
            goes fuel read s c ∙ m.1.0,
            m.1.1 ∙ ap (λ b. b ++ bytes cs) n.1.1 ∙ append_assoc s.frame (encode c') (bytes cs),
          ),
        )

  take-append : (xs ys : List ℕ) → take (length xs) (xs ++ ys) ≡ xs
  take-append [] ys = refl
  take-append (x ∷ xs) ys = ap (λ r. x ∷ r) (take-append xs ys)

  take-append_one : (xs ys : List ℕ) → length ys ≡ 1 → take (length (xs ++ ys) - 1) (xs ++ ys) ≡ xs
  take-append_one xs ys e =
      let k : length (xs ++ ys) - 1 ≡ length xs = omega (arith, length-append xs ys, e) in
      rw (k) (take-append xs ys)

  -- An identifier before a character of one byte which is not part of it, and is not 0, gives
  -- its characters.
  pub consume_ident-text :
      (s : Source) (c : ℕ) (cs : List ℕ) (d : ℕ) (tail : List ℕ)
      → (s.current_char ≡ c) × ((s.frame ≡ encode c) × (s.rest ≡ cs ++ d ∷ tail))
      → Passes is_ident_part (c ∷ cs)
      → is_ident_part d ≡ false
      → d ≢ 0
      → length (encode d) ≡ 1
      → (q : Source) × ((consume_ident encode s ≡ done q) × (get_current_frame q ≡ bytes (c ∷ cs)))
  unfolding consume_ident get_current_frame
  consume_ident-text s c cs d tail (e, (f, g)) t n z l =
      let m =
        read_while-frame is_ident_part is_ident_part-zero (suc (suc (length s.rest))) [] s cs d tail
          (rw (g) (omega (arith, length-append cs (d ∷ tail)))) (rw (e) t.0) t.1 n z g in
      (
        m.0.0,
        (
          rw (m.1.0, consume_ident) refl,
          rw
              (m.1.1.0
                ∙ ap (λ b. b ++ (bytes cs ++ encode d)) f
                ∙ sym (append_assoc (encode c) (bytes cs) (encode d)))
              (take-append_one (bytes (c ∷ cs)) (encode d) l),
        ),
      )

  -- An identifier at the end of the text gives its characters without the last byte.
  pub consume_ident-end :
      (s : Source) (c : ℕ) (cs : List ℕ)
      → (s.current_char ≡ c) × ((s.frame ≡ encode c) × (s.rest ≡ cs))
      → Passes is_ident_part (c ∷ cs)
      → (q : Source) × ((consume_ident encode s ≡ done q)
          × (get_current_frame q ≡ take (length (bytes (c ∷ cs)) - 1) (bytes (c ∷ cs))))
  unfolding consume_ident get_current_frame
  consume_ident-end s c cs (e, (f, g)) t =
      let m =
        read_while-end is_ident_part is_ident_part-zero (suc (suc (length s.rest))) [] s cs
          (rw (g) (omega arith)) (rw (e) t.0) t.1 g in
      (m.0.0, (rw (m.1.0, consume_ident) refl, rw (m.1.1 ∙ ap (λ b. b ++ bytes cs) f) refl))
