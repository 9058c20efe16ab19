-- ===== src/Compiler/Source.antt =====
-- include/sourcefile.h: the text that the lexer reads. The text is the list of its code points, as
-- libs/utf8 decodes them; `encode` stands for utf8::append, and the frame holds bytes.
use charly_vm.Common.{ℕ, ◌+◌, ◌-◌, ◌==◌, if◌then◌else◌, List, [], ◌∷◌, ◌++◌, length, take}

pub record Source : Type 0 where
  pub rest : List ℕ
  pub current_char : ℕ
  pub frame : List ℕ
  pub pos : ℕ
  pub row : ℕ
  pub column : ℕ

-- SourceFile::peek_char
unfoldable pub peek_char : Source → ℕ
peek_char s = elim s.rest [ [] ↦ 0 | c ∷ cs ↦ c ]

-- SourceFile::get_current_frame
unfoldable pub get_current_frame : Source → List ℕ
get_current_frame s = take (length s.frame - 1) s.frame

module _ (encode : ℕ → List ℕ) where
  -- What SourceFile::read_char does with a code point that was read.
  unfoldable pub accept_char : ℕ → List ℕ → Source → Source
  accept_char cp cs s =
      if cp == 0 then record s { rest = cs; current_char = 0; pos = s.pos + 1 } else record s {
        rest = cs;
        current_char = cp;
        frame = s.frame ++ encode cp;
        pos = s.pos + 1;
        row = if cp == 10 then s.row + 1 else s.row;
        column = if cp == 10 then 0 else s.column + 1;
      }

  -- SourceFile::read_char; at the end `next_utf8` gives 0.
  unfoldable pub read_char : Source → Source
  read_char s = elim s.rest [ [] ↦ accept_char 0 [] s | c ∷ cs ↦ accept_char c cs s ]

  -- The constructor, which reads the first character.
  unfoldable pub open_source : List ℕ → Source
  open_source text =
      read_char (record { rest = text; current_char = 0; frame = []; pos = 0; row = 1; column = 0 })
