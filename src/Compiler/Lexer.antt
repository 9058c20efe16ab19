-- ===== src/Compiler/Lexer.antt =====
-- include/lexer.h and src/compiler/lexer.cpp: the text to a list of tokens.
pub mod Scan
pub mod Progress
pub mod Routines
pub mod Operators
pub mod Total
pub mod Ends
pub mod Strings
pub mod Idents
use charly_vm.Common.{
  ℕ, zero, suc, ◌+◌, ◌-◌, ◌%◌, ◌^◌, Bool, true, false, ◌&&◌, ◌||◌, ◌==◌, leb, if◌then◌else◌,
}
use charly_vm.Common.{Option, none, some, List, [], ◌∷◌, ◌++◌, length}
use charly_vm.Value.Word.{Value}
use charly_vm.Compiler.Token.{TokenType, Token, keywords, find_keyword}
use charly_vm.Compiler.Source.{Source, peek_char, get_current_frame, read_char, open_source}
use charly_vm.Compiler.Lexer.Scan.{Result, done, unexpected_char, diverge, ◌>>=◌}
use charly_vm.Compiler.Lexer.Scan.{is_numeric, is_ident_start, consume_whitespace, consume_newline}
use charly_vm.Compiler.Lexer.Scan.{consume_numeric, consume_string, consume_comment}
use charly_vm.Compiler.Lexer.Scan.{consume_multiline_comment, consume_ident}

pub record Lexer : Type 0 where
  pub source : Source
  pub token : Token
  pub tokens : List Token

-- The `switch` of consume_operator_or_assignment
unfoldable pub assignment_of : TokenType → Option TokenType
assignment_of TokenType.plus = some TokenType.plus_assignment
assignment_of TokenType.minus = some TokenType.minus_assignment
assignment_of TokenType.mul = some TokenType.mul_assignment
assignment_of TokenType.div = some TokenType.div_assignment
assignment_of TokenType.mod_op = some TokenType.mod_assignment
assignment_of TokenType.pow = some TokenType.pow_assignment
assignment_of TokenType.bit_and = some TokenType.bit_and_assignment
assignment_of TokenType.bit_or = some TokenType.bit_or_assignment
assignment_of TokenType.bit_xor = some TokenType.bit_xor_assignment
assignment_of TokenType.left_shift = some TokenType.left_shift_assignment
assignment_of TokenType.right_shift = some TokenType.right_shift_assignment
assignment_of _ = none

abbrev pub with_type : TokenType → Token → Token
with_type type t = record t { type = type }

abbrev pub with_text : TokenType → List ℕ → Token → Token
with_text type text t = record t { type = type; value = text }

-- The cases of `read_token` that are one character.
unfoldable pub single_token : ℕ → Option TokenType
single_token c =
    if c == b';'
    then some TokenType.semicolon
    else if c == b','
    then some TokenType.comma
    else if c == b'.'
    then some TokenType.point
    else if c == b'~'
    then some TokenType.bit_not
    else if c == b'!'
    then some TokenType.not_op
    else if c == b'('
    then some TokenType.left_paren
    else if c == b')'
    then some TokenType.right_paren
    else if c == b'{'
    then some TokenType.left_curly
    else if c == b'}'
    then some TokenType.right_curly
    else if c == b'['
    then some TokenType.left_bracket
    else if c == b']'
    then some TokenType.right_bracket
    else if c == b'?'
    then some TokenType.question_mark
    else if c == b':'
    then some TokenType.colon
    else none

-- Lexer::reset_token
unfoldable pub reset_token : Lexer → Token
reset_token l = record l.token {
  type = TokenType.unknown;
  value = [];
  pos = l.source.pos - 1;
  row = l.source.row;
  column = l.source.column;
  size = 0;
  is_float_num = false;
}

-- The test that ends `read_token`
abbrev pub is_skipped : TokenType → Bool
is_skipped TokenType.comment = true
is_skipped TokenType.newline = true
is_skipped TokenType.whitespace = true
is_skipped _ = false

-- The change of the type of an identifier that is a keyword
unfoldable pub resolve_keyword : Bool → Token → Token
resolve_keyword potential t = elim t.type [
  | TokenType.identifier ↦
      if potential
      then elim (find_keyword keywords t.value) [ none ↦ t | some k ↦ with_type k t ]
      else t
  | _ ↦ t
]

-- The test of the loop of Lexer::tokenize
abbrev pub is_eof : TokenType → Bool
is_eof TokenType.eof = true
is_eof _ = false

module _ (encode : ℕ → List ℕ) (parse_float : List ℕ → Value) where
  abbrev next : Source → Source
  next = read_char encode

  -- Lexer::consume_operator_or_assignment
  unfoldable pub consume_operator_or_assignment : TokenType → Source → Token → Source × Token
  consume_operator_or_assignment type s t =
      let s' = next s in
      if s'.current_char == b'='
      then elim (assignment_of type) [ none ↦ (s', t) | some a ↦ (next s', with_type a t) ]
      else (s', with_type type t)

  -- The cases of `read_token` in which the next character matters, one function for each.
  unfoldable pub consume_minus : Source → Token → Source × Token
  consume_minus s t =
      if peek_char s == b'>'
      then (next (next s), with_type TokenType.right_arrow t)
      else consume_operator_or_assignment TokenType.minus s t

  unfoldable pub consume_star : Source → Token → Source × Token
  consume_star s t =
      if peek_char s == b'*'
      then consume_operator_or_assignment TokenType.pow (next s) t
      else consume_operator_or_assignment TokenType.mul s t

  unfoldable pub consume_equal : Source → Token → Source × Token
  consume_equal s t =
      let n = (next s).current_char in
      if n == b'='
      then (next (next s), with_type TokenType.equal t)
      else if n == b'>'
      then (next (next s), with_type TokenType.right_thick_arrow t)
      else (next s, with_type TokenType.assignment t)

  unfoldable pub consume_ampersand : Source → Token → Source × Token
  consume_ampersand s t =
      if peek_char s == b'&'
      then (next (next s), with_type TokenType.and_op t)
      else consume_operator_or_assignment TokenType.bit_and s t

  unfoldable pub consume_bar : Source → Token → Source × Token
  consume_bar s t =
      if peek_char s == b'|'
      then (next (next s), with_type TokenType.or_op t)
      else consume_operator_or_assignment TokenType.bit_or s t

  unfoldable pub consume_less : Source → Token → Source × Token
  consume_less s t =
      let n = (next s).current_char in
      if n == b'='
      then (next (next s), with_type TokenType.less_equal t)
      else if n == b'-'
      then (next (next s), with_type TokenType.left_arrow t)
      else if n == b'<'
      then consume_operator_or_assignment TokenType.left_shift (next s) t
      else (next s, with_type TokenType.less t)

  unfoldable pub consume_greater : Source → Token → Source × Token
  consume_greater s t =
      let n = (next s).current_char in
      if n == b'='
      then (next (next s), with_type TokenType.greater_equal t)
      else if n == b'>'
      then consume_operator_or_assignment TokenType.right_shift (next s) t
      else (next s, with_type TokenType.greater t)

  -- The operators of `read_token`; `none` for a character that starts none.
  unfoldable pub consume_operator : Source → Token → Option (Source × Token)
  consume_operator s t =
      let c = s.current_char in
      if c == b'+'
      then some (consume_operator_or_assignment TokenType.plus s t)
      else if c == b'-'
      then some (consume_minus s t)
      else if c == b'*'
      then some (consume_star s t)
      else if c == b'/'
      then some (consume_operator_or_assignment TokenType.div s t)
      else if c == b'%'
      then some (consume_operator_or_assignment TokenType.mod_op s t)
      else if c == b'='
      then some (consume_equal s t)
      else if c == b'&'
      then some (consume_ampersand s t)
      else if c == b'|'
      then some (consume_bar s t)
      else if c == b'^'
      then some (consume_operator_or_assignment TokenType.bit_xor s t)
      else if c == b'<'
      then some (consume_less s t)
      else if c == b'>'
      then some (consume_greater s t)
      else none

  abbrev plain : Source × Token → Result (Source × Token × Bool)
  plain r = done (r.0, r.1, true)

  -- The `switch` of `read_token`. The last part of the result is `potential_keyword`.
  unfoldable pub consume : Source → Token → Result (Source × Token × Bool)
  consume s t =
      let c = s.current_char in
      if c == 0
      then plain (s, with_type TokenType.eof t)
      else if is_numeric c
      then consume_numeric encode parse_float s t >>= plain
      else if c == b'"'
      then (consume_string encode s >>= λ r. plain (r.0, with_text TokenType.string r.1 t))
      else if c == 32 || c == 9
      then (consume_whitespace encode s >>= λ r. plain (r, with_type TokenType.whitespace t))
      else if c == 13 || c == 10
      then (consume_newline encode s >>= λ r. plain (r, with_type TokenType.newline t))
      else if c == b'/' && peek_char s == b'/'
      then (consume_comment encode (next s) >>= λ r.
          plain (r, with_text TokenType.comment (get_current_frame r) t))
      else if c == b'/' && peek_char s == b'*'
      then (consume_multiline_comment encode (next (next s)) >>= λ r.
          plain (r, with_text TokenType.comment (get_current_frame r) t))
      else if c == b'@'
      then (if peek_char s == b'"'
          then (consume_string encode (next s) >>= λ r.
              done (r.0, with_text TokenType.identifier r.1 t, false))
          else plain (next s, with_type TokenType.at_sign t))
      else elim (single_token c) [
        | some type ↦ plain (next s, with_type type t)
        | none ↦ elim (consume_operator s t) [
          | some r ↦ plain r
          | none ↦
              if is_ident_start c
              then (consume_ident encode s >>= λ r.
                  plain (r, with_text TokenType.identifier (get_current_frame r) t))
              else unexpected_char s
        ]
      ]

  -- One token, of a type that is skipped or not: the source behind it, and the token.
  unfoldable pub scan_token : Lexer → Result (Source × Token)
  scan_token l = consume l.source (reset_token l) >>= λ r. done (
    record r.0 { frame = encode r.0.current_char },
    resolve_keyword r.2 (record r.1 { size = (length r.0.frame + 2 ^ 32 - 1) % 2 ^ 32 }),
  )

  -- Lexer::read_token, which calls itself after a token that is skipped
  unfoldable pub read_token : ℕ → Lexer → Result Lexer
  read_token zero l = diverge
  read_token (suc fuel) l = scan_token l >>= λ r. elim (is_skipped r.1.type) [
    | true ↦ read_token fuel (record l { source = r.0; token = r.1 })
    | false ↦ done (record { source = r.0; token = r.1; tokens = l.tokens ++ r.1 ∷ [] })
  ]

  -- The loop of Lexer::tokenize
  unfoldable pub tokenize_loop : ℕ → ℕ → Lexer → Result Lexer
  tokenize_loop skips zero l = diverge
  tokenize_loop skips (suc fuel) l = elim (is_eof l.token.type) [
    | true ↦ done l
    | false ↦ read_token skips l >>= λ r. tokenize_loop skips fuel r
  ]

  -- Lexer::tokenize of a text, with fuel that is enough for each of its characters.
  unfoldable pub tokenize : List ℕ → Result Lexer
  tokenize text = tokenize_loop (length text + 3) (length text + 4) (record {
    source = open_source encode text;
    token = record {
      type = TokenType.unknown;
      value = [];
      int_num = 0;
      float_num = 0;
      is_float_num = false;
      pos = 0;
      row = 0;
      column = 0;
      size = 0;
    };
    tokens = [];
  })
