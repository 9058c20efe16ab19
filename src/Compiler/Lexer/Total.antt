-- ===== src/Compiler/Lexer/Total.antt =====
-- How much Lexer::read_token of src/compiler/lexer.cpp reads for one token, and that it ends.
use charly_vm.Common.{ℕ, ◌≤◌, ◌<◌, ◌≡◌, ◌≢◌, ◌⊎◌, inl, inr, refl, arith}
use charly_vm.Common.{
  Bool, true, false, ◌&&◌, ◌||◌, ◌==◌, if◌then◌else◌, ==→≢, Option, none, some, List, length,
}
use charly_vm.Value.Word.{Value}
use charly_vm.Compiler.Token.{TokenType, Token}
use charly_vm.Compiler.Source.{Source, read_char, peek_char, get_current_frame}
use charly_vm.Compiler.Lexer.{consume_operator, single_token, consume, with_text, with_type}
use charly_vm.Compiler.Lexer.Scan.{Result, done, unexpected, unexpected_char, diverge, ◌>>=◌}
use charly_vm.Compiler.Lexer.Scan.{is_numeric, is_ident_start}
use charly_vm.Compiler.Lexer.Scan.{consume_whitespace, consume_newline, consume_ident}
use charly_vm.Compiler.Lexer.Scan.{consume_hex, consume_numeric}
use charly_vm.Compiler.Lexer.Scan.{consume_string, consume_comment}
use charly_vm.Compiler.Lexer.Scan.{consume_multiline_comment}
use charly_vm.Compiler.Lexer.Progress.{
  Returns, left, EndsLine, Within, next-left, next-EndsLine, next-Within,
}
use charly_vm.Compiler.Lexer.Progress.{}
use charly_vm.Compiler.Lexer.Progress.{next-last, last_or}
use charly_vm.Compiler.Lexer.Routines.{
  whitespace-Within, newline-Within, ident-Within, hex-Within, octal-Within, decimal-Within,
  string-Within, multiline-Within, comment-Within, numeric-Within,
}
use charly_vm.Compiler.Lexer.Operators.{operator-Within}

module _ (encode : ℕ → List ℕ) (parse_float : List ℕ → Value) where
  abbrev pub Scanned : Source → Source × Token × Bool → Type 0
  Scanned s r =
      EndsLine r.0 × ((left r.0 < left s) ⊎ ((r.1.type ≡ TokenType.eof) × (left r.0 ≤ left s)))

  scanned :
      (s q : Source) (t : Token) (b : Bool)
      → Within (length s.rest) q
      → s.current_char ≢ 0
      → Scanned s (q, t, b)
  scanned s q t b w z = (w.1, inl (ground (arith, w.0)))

  Scanned-by :
      (s : Source) (m : Result Source) (f : Source → Token)
      → s.current_char ≢ 0
      → Returns (Within (length s.rest)) m
      → Returns (Scanned s) (m >>= λ r. done (r, f r, true))
  Scanned-by s (done q) f z w = scanned s q (f q) true w z
  Scanned-by s (unexpected pos row column cp) f z w = tt
  Scanned-by s diverge f z w = elim w [ ]

  Scanned-with :
      {X : Type 0} (s : Source) (m : Result (Source × X)) (f : Source × X → Token) (b : Bool)
      → s.current_char ≢ 0
      → Returns (λ r. Within (length s.rest) r.0) m
      → Returns (Scanned s) (m >>= λ r. done (r.0, f r, b))
  Scanned-with s (done q) f b z w = scanned s q.0 (f q) b w z
  Scanned-with s (unexpected pos row column cp) f b z w = tt
  Scanned-with s diverge f b z w = elim w [ ]

  weaken :
      {X : Type 0} (m n : ℕ) (r : Result (Source × X))
      → m ≤ n
      → Returns (λ q. Within m q.0) r
      → Returns (λ q. Within n q.0) r
  weaken m n (done q) l w = (omega (arith, w.0, l), w.1)
  weaken m n (unexpected pos row column cp) l w = tt
  weaken m n diverge l w = elim w [ ]

  module _ (s : Source) (t : Token) (e : EndsLine s) where
    Good : Result (Source × Token × Bool) → Type 0
    Good r = Returns (Scanned s) r

    Good-if :
        (b : Bool) (x y : Result (Source × Token × Bool))
        → (b ≡ true → Good x)
        → (b ≡ false → Good y)
        → Good (if b then x else y)
    Good-if true x y p q = p refl
    Good-if false x y p q = q refl

    one : Within (length s.rest) (read_char encode s)
    one = (next-left encode s, next-EndsLine encode s e)

    two : Within (length s.rest) (read_char encode (read_char encode s))
    two = next-Within encode (length s.rest) (read_char encode s) one

    one_less : length (read_char encode s).rest ≤ length s.rest
    one_less = omega (arith, one.0)

    two_less : length (read_char encode (read_char encode s)).rest ≤ length s.rest
    two_less = omega (arith, two.0)

    numeric :
        s.current_char ≢ 0
        → Returns
            (Scanned s)
            (consume_numeric encode parse_float s t >>= λ r. done (r.0, r.1, true))
    numeric z =
        Scanned-with s (consume_numeric encode parse_float s t) (λ r. r.1) true z
          (numeric-Within encode s e parse_float t (decimal-Within encode s e parse_float t)
            (octal-Within encode s e t)
            (weaken (length (read_char encode (read_char encode s)).rest) (length s.rest)
              (consume_hex encode (read_char encode (read_char encode s)) t) two_less
              (hex-Within encode (read_char encode (read_char encode s)) two.1 t)))

    last :
        s.current_char ≢ 0
        → s.current_char ≢ 10
        → last_or (read_char encode s).current_char (read_char encode s).rest ≡ 10
    last z k = elim e [ inl h ↦ (next-last encode s k h).0 | inr h ↦ absurd (z h.1) ]

    rest_Good :
        s.current_char ≢ 0
        → (o : Option TokenType) (p : Option (Source × Token)) → single_token s.current_char ≡ o
        → consume_operator encode parse_float s t ≡ p
        → Good (elim o [
          | some type ↦ done (read_char encode s, with_type type t, true)
          | none ↦ elim p [
            | some r ↦ done (r.0, r.1, true)
            | none ↦
                if is_ident_start s.current_char
                then (consume_ident encode s >>= λ r.
                    done (r, with_text TokenType.identifier (get_current_frame r) t, true))
                else unexpected_char s
          ]
        ])
    unfolding Good
    rest_Good z (some type) p a b = scanned s (read_char encode s) (with_type type t) true one z
    rest_Good z none (some r) a b =
        scanned s r.0 r.1 true (operator-Within encode parse_float s t e r b) z
    rest_Good z none none a b =
        Good-if _ _ _
          (λ h.
            Scanned-by s (consume_ident encode s)
              (λ r. with_text TokenType.identifier (get_current_frame r) t) z
              (ident-Within encode s e h))
          (λ h. tt)

    consume-Good : Good (consume encode parse_float s t)
    unfolding consume Good
    consume-Good =
        Good-if (s.current_char == 0) _ _ (λ h. (e, inr (refl, omega arith)))
          (λ h0.
            let z = ==→≢ s.current_char 0 h0 in
            Good-if (is_numeric s.current_char) _ _ (λ h. numeric z)
              (λ h1.
                Good-if (s.current_char == 34) _ _
                  (λ h.
                    Scanned-with s (consume_string encode s) (λ r. with_text TokenType.string r.1 t)
                      true z (string-Within encode s e))
                  (λ h2.
                    Good-if (s.current_char == 32 || s.current_char == 9) _ _
                      (λ h.
                        Scanned-by s (consume_whitespace encode s)
                          (λ r. with_type TokenType.whitespace t) z (whitespace-Within encode s e))
                      (λ h3.
                        Good-if (s.current_char == 13 || s.current_char == 10) _ _
                          (λ h.
                            Scanned-by s (consume_newline encode s)
                              (λ r. with_type TokenType.newline t) z
                              (newline-Within encode s e (ground (arith, h))))
                          (λ h4.
                            Good-if (s.current_char == 47 && peek_char s == 47) _ _
                              (λ h.
                                Scanned-by s (consume_comment encode (read_char encode s))
                                  (λ r. with_text TokenType.comment (get_current_frame r) t) z
                                  (comment-Within encode (read_char encode s) one.1 (length s.rest)
                                    one.0 (last z (ground (arith, h4)))))
                              (λ h5.
                                Good-if (s.current_char == 47 && peek_char s == 42) _ _
                                  (λ h.
                                    Scanned-by s
                                      (consume_multiline_comment encode
                                        (read_char encode (read_char encode s)))
                                      (λ r. with_text TokenType.comment (get_current_frame r) t) z
                                      (multiline-Within encode
                                        (read_char encode (read_char encode s)) two.1
                                        (length s.rest) two.0))
                                  (λ h6.
                                    Good-if (s.current_char == 64) _ _
                                      (λ h.
                                        Good-if (peek_char s == 34) _ _
                                          (λ k.
                                            Scanned-with s
                                              (consume_string encode (read_char encode s))
                                              (λ r. with_text TokenType.identifier r.1 t) false z
                                              (weaken (length (read_char encode s).rest)
                                                (length s.rest)
                                                (consume_string encode (read_char encode s))
                                                one_less
                                                (string-Within encode (read_char encode s) one.1)))
                                          (λ k.
                                            scanned s (read_char encode s)
                                              (with_type TokenType.at_sign t) true one z))
                                      (λ h7.
                                        rest_Good z (single_token s.current_char)
                                          (consume_operator encode parse_float s t) refl
                                          refl))))))))

    pub consume-Scanned : Returns (Scanned s) (consume encode parse_float s t)
    unfolding Good
    consume-Scanned = consume-Good
