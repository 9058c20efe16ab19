-- ===== src/Compiler/Lexer/Operators.antt =====
-- How much the operators of src/compiler/lexer.cpp read.
use mathlib.Core.Path.{subst}
use charly_vm.Common.{ℕ, ◌≤◌, ◌≡◌, arith}
use charly_vm.Common.{Bool, true, false, ◌==◌, if◌then◌else◌, Option, none, some, List, length}
use charly_vm.Value.Word.{Value}
use charly_vm.Compiler.Token.{TokenType, Token}
use charly_vm.Compiler.Source.{Source, read_char}
use charly_vm.Compiler.Lexer.{
  consume_operator_or_assignment, consume_operator, consume_minus, consume_star, consume_equal,
  consume_ampersand, consume_bar, consume_less, consume_greater,
}
use charly_vm.Compiler.Lexer.Scan.{}
use charly_vm.Compiler.Lexer.Scan.{}
use charly_vm.Compiler.Lexer.Scan.{}
use charly_vm.Compiler.Lexer.Progress.{EndsLine, Within, next-left, next-EndsLine, next-Within}
use charly_vm.Compiler.Lexer.Progress.{}
use charly_vm.Compiler.Lexer.Progress.{}

module _ (encode : ℕ → List ℕ) (parse_float : List ℕ → Value) where
  assignment-Within :
      (type : TokenType) (n : ℕ) (s : Source) (t : Token)
      → length s.rest ≤ n
      → EndsLine s
      → Within n (consume_operator_or_assignment encode parse_float type s t).0
  unfolding consume_operator_or_assignment
  assignment-Within type n s t l e =
      let w : Within n (read_char encode s) =
        (omega (arith, next-left encode s, l), next-EndsLine encode s e) in
      let w' = next-Within encode n (read_char encode s) w in ground (arith, w, w')

  module _ (s : Source) (t : Token) (e : EndsLine s) where
    abbrev s' : Source
    s' = read_char encode s

    w : Within (length s.rest) s'
    w = (next-left encode s, next-EndsLine encode s e)

    w' : Within (length s.rest) (read_char encode s')
    w' = next-Within encode (length s.rest) s' w

    at_once :
        (type : TokenType)
        → Within (length s.rest) (consume_operator_or_assignment encode parse_float type s t).0
    at_once type = assignment-Within type (length s.rest) s t (omega arith) e

    after_one :
        (type : TokenType)
        → Within (length s.rest) (consume_operator_or_assignment encode parse_float type s' t).0
    after_one type = assignment-Within type (length s.rest) s' t (omega (arith, w.0)) w.1

    minus-Within : Within (length s.rest) (consume_minus encode parse_float s t).0
    unfolding consume_minus
    minus-Within = ground (arith, w, w', at_once TokenType.minus)

    star-Within : Within (length s.rest) (consume_star encode parse_float s t).0
    unfolding consume_star
    star-Within = ground (arith, w, w', at_once TokenType.mul, after_one TokenType.pow)

    equal-Within : Within (length s.rest) (consume_equal encode parse_float s t).0
    unfolding consume_equal
    equal-Within = ground (arith, w, w')

    ampersand-Within : Within (length s.rest) (consume_ampersand encode parse_float s t).0
    unfolding consume_ampersand
    ampersand-Within = ground (arith, w, w', at_once TokenType.bit_and)

    bar-Within : Within (length s.rest) (consume_bar encode parse_float s t).0
    unfolding consume_bar
    bar-Within = ground (arith, w, w', at_once TokenType.bit_or)

    less-Within : Within (length s.rest) (consume_less encode parse_float s t).0
    unfolding consume_less
    less-Within = ground (arith, w, w', after_one TokenType.left_shift)

    greater-Within : Within (length s.rest) (consume_greater encode parse_float s t).0
    unfolding consume_greater
    greater-Within = ground (arith, w, w', after_one TokenType.right_shift)

    -- What a case of the operators leaves, if it applies.
    After : Option (Source × Token) → Type 0
    After none = Unit
    After (some r) = Within (length s.rest) r.0

    After-if :
        (b : Bool) (x y : Option (Source × Token)) → After x → After y → After (if b then x else y)
    After-if true x y p q = p
    After-if false x y p q = q

    operator-After : After (consume_operator encode parse_float s t)
    unfolding consume_operator After
    operator-After = After-if (s.current_char == b'+') _ _ (at_once TokenType.plus) (
        After-if (s.current_char == b'-') _ _ (minus-Within) (
          After-if (s.current_char == b'*') _ _ (star-Within) (
            After-if (s.current_char == b'/') _ _ (at_once TokenType.div) (
              After-if (s.current_char == b'%') _ _ (at_once TokenType.mod_op) (
                After-if (s.current_char == b'=') _ _ (equal-Within) (
                  After-if (s.current_char == b'&') _ _ (ampersand-Within) (
                    After-if (s.current_char == b'|') _ _ (bar-Within) (
                      After-if (s.current_char == b'^') _ _ (at_once TokenType.bit_xor) (
                        After-if (s.current_char == b'<') _ _ (less-Within)
                          (After-if (s.current_char == b'>') _ _ (greater-Within) tt))))))))))

    pub operator-Within :
        (r : Source × Token)
        → consume_operator encode parse_float s t ≡ some r
        → Within (length s.rest) r.0
    unfolding After
    operator-Within r q = subst After q operator-After
    -- What one call of the `switch` leaves: less, unless it is at the end.
