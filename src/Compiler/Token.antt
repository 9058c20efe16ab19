-- ===== src/Compiler/Token.antt =====
-- include/token.h: the types of tokens, the keywords and the operators that assign.
use Prim.Native.Char.{code}
use Prim.Native.String.{String}
use charly_vm.Common.{
  ℕ, Bool, true, false, ◌&&◌, ◌==◌, if◌then◌else◌, Option, none, some, List, [], ◌∷◌,
}
use charly_vm.Value.Word.{Value}

pub data TokenType : Type 0 where
  -- Literals
  number identifier string boolean_false boolean_true null nan self : TokenType
  -- Keywords
  break case catch class const continue default do_key else_key extends finally func : TokenType
  guard if_key ignore_const import let_key loop match new primitive property return : TokenType
  static super switch syscall throw try typeof unless until while yield : TokenType
  -- Operators
  plus minus mul div mod_op pow assignment : TokenType
  -- Special unary operator tokens
  uplus uminus unot : TokenType
  -- Bitwise operators
  bit_or bit_xor bit_not bit_and left_shift right_shift : TokenType
  -- AND assignments
  plus_assignment minus_assignment mul_assignment div_assignment mod_assignment : TokenType
  pow_assignment bit_and_assignment bit_or_assignment bit_xor_assignment : TokenType
  left_shift_assignment right_shift_assignment : TokenType
  -- Comparison
  equal not_op less greater less_equal greater_equal and_op or_op : TokenType
  -- Structure
  left_paren right_paren left_curly right_curly left_bracket right_bracket semicolon : TokenType
  comma point comment at_sign right_arrow left_arrow right_thick_arrow question_mark : TokenType
  colon : TokenType
  -- Whitespace
  whitespace newline : TokenType
  -- Misc
  eof unknown : TokenType

-- The bytes of a text of ASCII characters.
abbrev pub codes : String → List ℕ
codes String.[] = []
codes (String.◌∷◌ c s) = code c ∷ codes s

-- kTokenKeywordsAndLiterals
abbrev pub keywords : List (List ℕ × TokenType)
keywords =
    (codes "NaN", TokenType.nan)
    ∷ (codes "break", TokenType.break)
    ∷ (codes "case", TokenType.case)
    ∷ (codes "catch", TokenType.catch)
    ∷ (codes "class", TokenType.class)
    ∷ (codes "const", TokenType.const)
    ∷ (codes "continue", TokenType.continue)
    ∷ (codes "default", TokenType.default)
    ∷ (codes "do", TokenType.do_key)
    ∷ (codes "else", TokenType.else_key)
    ∷ (codes "extends", TokenType.extends)
    ∷ (codes "false", TokenType.boolean_false)
    ∷ (codes "finally", TokenType.finally)
    ∷ (codes "func", TokenType.func)
    ∷ (codes "guard", TokenType.guard)
    ∷ (codes "if", TokenType.if_key)
    ∷ (codes "ignoreconst", TokenType.ignore_const)
    ∷ (codes "import", TokenType.import)
    ∷ (codes "let", TokenType.let_key)
    ∷ (codes "loop", TokenType.loop)
    ∷ (codes "match", TokenType.match)
    ∷ (codes "new", TokenType.new)
    ∷ (codes "null", TokenType.null)
    ∷ (codes "primitive", TokenType.primitive)
    ∷ (codes "property", TokenType.property)
    ∷ (codes "return", TokenType.return)
    ∷ (codes "self", TokenType.self)
    ∷ (codes "static", TokenType.static)
    ∷ (codes "super", TokenType.super)
    ∷ (codes "switch", TokenType.switch)
    ∷ (codes "__syscall", TokenType.syscall)
    ∷ (codes "throw", TokenType.throw)
    ∷ (codes "true", TokenType.boolean_true)
    ∷ (codes "try", TokenType.try)
    ∷ (codes "typeof", TokenType.typeof)
    ∷ (codes "unless", TokenType.unless)
    ∷ (codes "until", TokenType.until)
    ∷ (codes "while", TokenType.while)
    ∷ (codes "yield", TokenType.yield)
    ∷ []

-- kTokenAndAssignmentOperators
abbrev pub assignment_operators : List (TokenType × TokenType)
assignment_operators =
    (TokenType.plus_assignment, TokenType.plus)
    ∷ (TokenType.minus_assignment, TokenType.minus)
    ∷ (TokenType.mul_assignment, TokenType.mul)
    ∷ (TokenType.div_assignment, TokenType.div)
    ∷ (TokenType.mod_assignment, TokenType.mod_op)
    ∷ (TokenType.pow_assignment, TokenType.pow)
    ∷ (TokenType.bit_and_assignment, TokenType.bit_and)
    ∷ (TokenType.bit_or_assignment, TokenType.bit_or)
    ∷ (TokenType.bit_xor_assignment, TokenType.bit_xor)
    ∷ (TokenType.left_shift_assignment, TokenType.left_shift)
    ∷ (TokenType.right_shift_assignment, TokenType.right_shift)
    ∷ []

unfoldable pub same_text : List ℕ → List ℕ → Bool
same_text [] [] = true
same_text [] (d ∷ ds) = false
same_text (c ∷ cs) [] = false
same_text (c ∷ cs) (d ∷ ds) = (c == d) && same_text cs ds

-- `find` on the table
unfoldable pub find_keyword : List (List ℕ × TokenType) → List ℕ → Option TokenType
find_keyword [] text = none
find_keyword ((k, t) ∷ table) text = if same_text k text then some t else find_keyword table text

-- Token; the two members of its union are two fields, and the location is the start and length.
pub record Token : Type 0 where
  pub type : TokenType
  pub value : List ℕ
  pub int_num : ℕ
  pub float_num : Value
  pub is_float_num : Bool
  pub pos : ℕ
  pub row : ℕ
  pub column : ℕ
  pub size : ℕ
