-- ===== src/Compiler/Lexer/Scan.antt =====
-- The loops of src/compiler/lexer.cpp, one for each kind of token. The fuel of a loop is more than
-- the characters that are left; `diverge` says that it ran out.
use charly_vm.Common.{
  ℕ, zero, suc, ◌+◌, ◌-◌, ◌*◌, ◌^◌, Bool, true, false, ◌&&◌, ◌||◌, ◌==◌, leb, if◌then◌else◌,
}
use charly_vm.Common.{List, [], ◌∷◌, ◌++◌, length}
use charly_vm.Value.Word.{Value}
use charly_vm.Compiler.Token.{TokenType, Token}
use charly_vm.Compiler.Source.{Source, peek_char, read_char}

-- An operation of the lexer returns, throws UnexpectedCharError with its position, or does not end.
pub data Result {ℓ} (A : Type ℓ) : Type ℓ where
  done : A → Result A
  unexpected : ℕ → ℕ → ℕ → ℕ → Result A
  diverge : Result A

infixl 5 ◌>>=◌
abbrev pub ◌>>=◌ {ℓ κ} : {A : Type ℓ} {B : Type κ} → Result A → (A → Result B) → Result B
done a >>= f = f a
unexpected pos row column cp >>= f = unexpected pos row column cp
diverge >>= f = diverge

-- Lexer::unexpected_char
abbrev pub unexpected_char {ℓ} : {A : Type ℓ} → Source → Result A
unexpected_char s = unexpected (s.pos - 1) s.row s.column s.current_char

abbrev pub between : ℕ → ℕ → ℕ → Bool
between low high cp = leb low cp && leb cp high

unfoldable pub is_numeric : ℕ → Bool
is_numeric cp = between 0x30 0x39 cp

unfoldable pub is_hex : ℕ → Bool
is_hex cp = is_numeric cp || between 0x41 0x46 cp || between 0x61 0x66 cp

unfoldable pub is_octal : ℕ → Bool
is_octal cp = between 0x30 0x37 cp

-- The source's is_alpha_lowercase and is_alpha_uppercase have each other's ranges.
unfoldable pub is_alpha : ℕ → Bool
is_alpha cp = between 0x41 0x5a cp || between 0x61 0x7a cp

unfoldable pub is_ident_start : ℕ → Bool
is_ident_start cp = is_alpha cp || cp == b'_' || cp == b'$'

unfoldable pub is_ident_part : ℕ → Bool
is_ident_part cp = is_ident_start cp || is_numeric cp

-- The value of a digit in any of the three bases.
unfoldable pub digit_value : ℕ → ℕ
digit_value cp = if leb 0x61 cp then cp - 0x57 else if leb 0x41 cp then cp - 0x37 else cp - 0x30

unfoldable pub digits_value : ℕ → ℕ → List ℕ → ℕ
digits_value base acc [] = acc
digits_value base acc (d ∷ ds) = digits_value base (acc * base + digit_value d) ds

-- `decoder >> num`: a number that does not fit becomes the greatest that does.
unfoldable pub read_number : ℕ → ℕ → List ℕ → ℕ
read_number base limit ds = let n = digits_value base 0 ds in if leb n limit then n else limit

abbrev pub with_int : ℕ → Token → Token
with_int n t = record t { type = TokenType.number; int_num = n }

abbrev pub is_blank : ℕ → Bool
is_blank cp = cp == 32 || cp == 9

-- The end of consume_decimal
abbrev pub decimal_token : (List ℕ → Value) → Bool → List ℕ → Token → Token
decimal_token parse_float point text t =
    if point
    then record t { type = TokenType.number; float_num = parse_float text; is_float_num = true }
    else with_int (read_number 10 (2 ^ 63 - 1) text) t

module _ (encode : ℕ → List ℕ) where
  abbrev next : Source → Source
  next = read_char encode

  abbrev budget : Source → ℕ
  budget s = suc (suc (length s.rest))

  -- `while (p(current_char)) read_char()`, with the characters that were read
  unfoldable pub read_while : (ℕ → Bool) → ℕ → List ℕ → Source → Result (Source × List ℕ)
  read_while p zero read s = diverge
  read_while p (suc fuel) read s = elim (p s.current_char) [
    | true ↦ read_while p fuel (read ++ s.current_char ∷ []) (next s)
    | false ↦ done (s, read)
  ]

  -- Lexer::consume_whitespace reads before it tests.
  unfoldable pub consume_whitespace : Source → Result Source
  consume_whitespace s = read_while is_blank (budget s) [] (next s) >>= λ r. done r.0

  -- Lexer::consume_newline; its loop never comes round again.
  unfoldable pub consume_newline : Source → Result Source
  consume_newline s =
      if s.current_char == 10
      then done (next s)
      else if s.current_char == 13
      then (if (next s).current_char == 10 then done (next (next s)) else unexpected_char (next s))
      else done s

  -- Lexer::consume_ident
  unfoldable pub consume_ident : Source → Result Source
  consume_ident s = read_while is_ident_part (budget s) [] s >>= λ r. done r.0

  -- Lexer::consume_hex
  unfoldable pub consume_hex : Source → Token → Result (Source × Token)
  consume_hex s t =
      if is_hex s.current_char
      then (read_while is_hex (budget s) [] s >>= λ r.
          done (r.0, with_int (read_number 16 (2 ^ 64 - 1) r.1) t))
      else unexpected_char s

  -- Lexer::consume_octal
  unfoldable pub consume_octal : Source → Token → Result (Source × Token)
  consume_octal s t =
      if is_octal s.current_char
      then (read_while is_octal (budget s) [] s >>= λ r.
          done (r.0, with_int (read_number 8 (2 ^ 64 - 1) r.1) t))
      else unexpected_char s

  -- The loop of consume_decimal: whether a point was passed, the text for the decoder, and the
  -- source at the character after the number.
  unfoldable pub decimal_loop : ℕ → Bool → List ℕ → Source → Result (Source × Bool × List ℕ)
  decimal_loop zero point text s = diverge
  decimal_loop (suc fuel) point text s =
      let s' = next s in
      let cp = s'.current_char in
      elim (cp == b'_') [
        | true ↦ decimal_loop fuel point text s'
        | false ↦ elim (cp == b'.') [
          | true ↦ elim (not_passed point && is_numeric (peek_char s')) [
            | true ↦ decimal_loop fuel true (text ++ cp ∷ []) s'
            | false ↦ done (s', point, text)
          ]
          | false ↦ elim (is_numeric cp) [
            | true ↦ decimal_loop fuel point (text ++ cp ∷ []) s'
            | false ↦ done (s', point, text)
          ]
        ]
      ]
    where
      not_passed : Bool → Bool
      not_passed b = if b then false else true

  module _ (parse_float : List ℕ → Value) where
    -- Lexer::consume_decimal; the decoder of a floating point number is `parse_float`.
    unfoldable pub consume_decimal : Source → Token → Result (Source × Token)
    consume_decimal s t = decimal_loop (budget s) false (s.current_char ∷ []) s >>= λ r.
        done (r.0, decimal_token parse_float r.1 r.2 t)

    -- Lexer::consume_numeric
    unfoldable pub consume_numeric : Source → Token → Result (Source × Token)
    consume_numeric s t =
        if s.current_char == b'0'
        then (if peek_char s == b'x'
            then consume_hex (next (next s)) t
            else if is_numeric (peek_char s)
            then consume_octal s t
            else consume_decimal s t)
        else consume_decimal s t

  -- The inner `switch` of consume_string; other characters are dropped with their backslash.
  unfoldable pub unescape : ℕ → List ℕ
  unescape cp =
      if cp == b'a'
      then 7 ∷ []
      else if cp == b'b'
      then 8 ∷ []
      else if cp == b'n'
      then 10 ∷ []
      else if cp == b'r'
      then 13 ∷ []
      else if cp == b't'
      then 9 ∷ []
      else if cp == b'v'
      then 11 ∷ []
      else if cp == b'f'
      then 12 ∷ []
      else if cp == b'e'
      then 27 ∷ []
      else if cp == b'"'
      then 34 ∷ []
      else if cp == b'\\'
      then 92 ∷ []
      else []

  -- The loop of consume_string
  unfoldable pub string_loop : ℕ → List ℕ → Source → Result (Source × List ℕ)
  string_loop zero value s = diverge
  string_loop (suc fuel) value s =
      let s' = next s in
      let cp = s'.current_char in
      elim (cp == b'\\') [
        | true ↦ elim ((next s').current_char == 0) [
          | true ↦ unexpected_char (next s')
          | false ↦ string_loop fuel (value ++ unescape (next s').current_char) (next s')
        ]
        | false ↦ elim (cp == b'"') [
          | true ↦ done (s', value)
          | false ↦ elim (cp == 0) [
            | true ↦ unexpected_char s'
            | false ↦ string_loop fuel (value ++ encode cp) s'
          ]
        ]
      ]

  -- Lexer::consume_string
  unfoldable pub consume_string : Source → Result (Source × List ℕ)
  consume_string s = string_loop (budget s) [] s >>= λ r. done (next r.0, r.1)

  -- The loop of consume_comment: nothing stops it at the end of the text.
  unfoldable pub comment_loop : ℕ → Source → Result Source
  comment_loop zero s = diverge
  comment_loop (suc fuel) s = elim (s.current_char == 10 || s.current_char == 13) [
    | true ↦ done s
    | false ↦ comment_loop fuel (next s)
  ]

  -- Lexer::consume_comment
  unfoldable pub consume_comment : Source → Result Source
  consume_comment s = comment_loop (budget s) s

  -- The loop of consume_multiline_comment, with the depth of the nesting
  unfoldable pub multiline_loop : ℕ → ℕ → Source → Result Source
  multiline_loop zero depth s = diverge
  multiline_loop (suc fuel) depth s =
      let s' = next s in
      elim (s.current_char == b'*') [
        | true ↦ elim (s'.current_char == b'/') [
          | true ↦ elim (depth == 1) [
            | true ↦ done (next s')
            | false ↦ multiline_loop fuel (depth - 1) (next s')
          ]
          | false ↦ multiline_loop fuel depth s'
        ]
        | false ↦ elim (s.current_char == b'/') [
          | true ↦ elim (s'.current_char == b'*') [
            | true ↦ multiline_loop fuel (depth + 1) (next s')
            | false ↦ multiline_loop fuel depth s'
          ]
          | false ↦ elim (s.current_char == 0) [
            | true ↦ done s
            | false ↦ multiline_loop fuel depth s'
          ]
        ]
      ]

  -- Lexer::consume_multiline_comment
  unfoldable pub consume_multiline_comment : Source → Result Source
  consume_multiline_comment s = multiline_loop (budget s) 1 s
