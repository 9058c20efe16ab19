-- ===== src/Compiler/Lexer/Routines.antt =====
-- How much each routine of src/compiler/lexer.cpp reads, and that it ends.
use charly_vm.Common.{ℕ, suc, ◌-◌, ◌^◌, ◌≤◌, ◌≡◌, ◌⊎◌, inl, inr, refl, arith}
use charly_vm.Common.{true, false, Bool-cases, List, [], ◌∷◌, length}
use charly_vm.Value.Word.{Value}
use charly_vm.Compiler.Token.{Token}
use charly_vm.Compiler.Source.{Source, read_char}
use charly_vm.Compiler.Lexer.{}
use charly_vm.Compiler.Lexer.Scan.{done}
use charly_vm.Compiler.Lexer.Scan.{
  is_numeric, is_hex, is_octal, is_alpha, is_ident_start, is_ident_part,
}
use charly_vm.Compiler.Lexer.Scan.{read_while, consume_whitespace, consume_newline, consume_ident}
use charly_vm.Compiler.Lexer.Scan.{
  consume_hex, consume_octal, decimal_loop, consume_decimal, consume_numeric,
}
use charly_vm.Compiler.Lexer.Scan.{string_loop, consume_string, consume_comment}
use charly_vm.Compiler.Lexer.Scan.{
  consume_multiline_comment, with_int, read_number, decimal_token, is_blank,
}
use charly_vm.Compiler.Lexer.Progress.{
  Returns, Returns-bind, left, EndsLine, Within, next-left, next-EndsLine, next-Within,
}
use charly_vm.Compiler.Lexer.Progress.{
  read_while-Within, read_while-Within_less, decimal_loop-Within, string_loop-Within,
}
use charly_vm.Compiler.Lexer.Progress.{multiline_loop-Within, comment_loop-Within, last_or}

module _ (encode : ℕ → List ℕ) (s : Source) (e : EndsLine s) where
  abbrev next : Source → Source
  next = read_char encode

  after : Within (length s.rest) (next s)
  after = (next-left encode s, next-EndsLine encode s e)

  pub whitespace-Within : Returns (Within (length s.rest)) (consume_whitespace encode s)
  unfolding consume_whitespace
  whitespace-Within =
      Returns-bind (λ r. Within (length s.rest) r.0) (Within (length s.rest))
        (read_while encode is_blank (suc (suc (length s.rest))) [] (next s)) (λ r. done r.0)
        (read_while-Within encode is_blank (length s.rest) (suc (suc (length s.rest))) [] (next s)
          refl (omega (arith, after.0)) after)
        (λ r w. w)

  pub newline-Within :
      (s.current_char ≡ 10) ⊎ (s.current_char ≡ 13)
      → Returns (Within (length s.rest)) (consume_newline encode s)
  unfolding consume_newline
  newline-Within c = ground (arith, after, next-Within encode (length s.rest) (next s) after)

  pub ident-Within :
      is_ident_start s.current_char ≡ true
      → Returns (Within (length s.rest)) (consume_ident encode s)
  unfolding consume_ident is_ident_part is_ident_start is_alpha is_numeric
  ident-Within t =
      Returns-bind (λ r. Within (length s.rest) r.0) (Within (length s.rest))
        (read_while encode is_ident_part (suc (suc (length s.rest))) [] s) (λ r. done r.0)
        (read_while-Within_less encode is_ident_part (suc (length s.rest)) s refl (omega arith) e
          (ground arith))
        (λ r w. w)

  pub hex-Within : (t : Token) → Returns (λ r. Within (length s.rest) r.0) (consume_hex encode s t)
  unfolding consume_hex is_hex is_numeric
  hex-Within t = elim (Bool-cases (is_hex s.current_char)) [
    | inl h ↦
        rw (h, consume_hex)
          (Returns-bind (λ r. Within (length s.rest) r.0) (λ r. Within (length s.rest) r.0)
            (read_while encode is_hex (suc (suc (length s.rest))) [] s)
            (λ r. done (r.0, with_int (read_number 16 (2 ^ 64 - 1) r.1) t))
            (read_while-Within_less encode is_hex (suc (length s.rest)) s refl (omega arith) e h)
            (λ r w. w))
    | inr h ↦ rw (h, consume_hex) tt
  ]

  pub octal-Within :
      (t : Token) → Returns (λ r. Within (length s.rest) r.0) (consume_octal encode s t)
  unfolding consume_octal is_octal
  octal-Within t = elim (Bool-cases (is_octal s.current_char)) [
    | inl h ↦
        rw (h, consume_octal)
          (Returns-bind (λ r. Within (length s.rest) r.0) (λ r. Within (length s.rest) r.0)
            (read_while encode is_octal (suc (suc (length s.rest))) [] s)
            (λ r. done (r.0, with_int (read_number 8 (2 ^ 64 - 1) r.1) t))
            (read_while-Within_less encode is_octal (suc (length s.rest)) s refl (omega arith) e h)
            (λ r w. w))
    | inr h ↦ rw (h, consume_octal) tt
  ]

  pub decimal-Within :
      (parse_float : List ℕ → Value) (t : Token)
      → Returns (λ r. Within (length s.rest) r.0) (consume_decimal encode parse_float s t)
  unfolding consume_decimal
  decimal-Within parse_float t =
      Returns-bind (λ r. Within (length s.rest) r.0) (λ r. Within (length s.rest) r.0)
        (decimal_loop encode (suc (suc (length s.rest))) false (s.current_char ∷ []) s)
        (λ r. done (r.0, decimal_token parse_float r.1 r.2 t))
        (decimal_loop-Within encode (length s.rest) (suc (suc (length s.rest))) false
          (s.current_char ∷ []) s (omega arith) (omega arith) e)
        (λ r w. w)

  pub string-Within : Returns (λ r. Within (length s.rest) r.0) (consume_string encode s)
  unfolding consume_string
  string-Within =
      Returns-bind (λ r. Within (length s.rest) r.0) (λ r. Within (length s.rest) r.0)
        (string_loop encode (suc (suc (length s.rest))) [] s) (λ r. done (next r.0, r.1))
        (string_loop-Within encode (length s.rest) (suc (suc (length s.rest))) [] s (omega arith)
          (omega arith) e)
        (λ r w. next-Within encode (length s.rest) r.0 w)

  pub multiline-Within :
      (n : ℕ) → left s ≤ n → Returns (Within n) (consume_multiline_comment encode s)
  unfolding consume_multiline_comment
  multiline-Within n l =
      multiline_loop-Within encode n (suc (suc (length s.rest))) 1 s (ground arith) (l, e)

  pub comment-Within :
      (n : ℕ)
      → left s ≤ n
      → last_or s.current_char s.rest ≡ 10
      → Returns (Within n) (consume_comment encode s)
  unfolding consume_comment
  comment-Within n l k =
      comment_loop-Within encode n (suc (suc (length s.rest))) s (omega arith) l k

  pub numeric-Within :
      (parse_float : List ℕ → Value) (t : Token)
      → Returns (λ r. Within (length s.rest) r.0) (consume_decimal encode parse_float s t)
      → Returns (λ r. Within (length s.rest) r.0) (consume_octal encode s t)
      → Returns (λ r. Within (length s.rest) r.0) (consume_hex encode (next (next s)) t)
      → Returns (λ r. Within (length s.rest) r.0) (consume_numeric encode parse_float s t)
  unfolding consume_numeric
  numeric-Within parse_float t d o h = ground (arith, d, o, h)
