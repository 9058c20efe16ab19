-- ===== src/Compiler/Lexer/Ends.antt =====
-- That Lexer::tokenize of src/compiler/lexer.cpp ends, and the comment at which it does not.
use charly_vm.Common.{ℕ, zero, suc, ◌+◌, ◌≤◌, ◌<◌, ◌≡◌, ◌≢◌, ◌⊎◌, inl, inr, refl, ap, arith}
use charly_vm.Common.{Bool, true, false, ◌==◌, Bool-cases, List, [], ◌∷◌, ◌++◌, length}
use charly_vm.Value.Word.{Value}
use charly_vm.Compiler.Token.{TokenType, Token}
use charly_vm.Compiler.Source.{Source, accept_char, read_char, peek_char, open_source}
use charly_vm.Compiler.Lexer.{
  Lexer, consume, scan_token, read_token, tokenize_loop, tokenize, reset_token, resolve_keyword,
  is_skipped, is_eof,
}
use charly_vm.Compiler.Lexer.Scan.{done, diverge, ◌>>=◌, comment_loop, consume_comment, is_numeric}
use charly_vm.Compiler.Lexer.Progress.{
  Returns, Returns-bind, Returns-weaken, left, last_or, EndsLine, next-left, next-EndsLine, no_fuel,
}
use charly_vm.Compiler.Lexer.Total.{Scanned, consume-Scanned}

resolve_keyword-eof :
    (b : Bool) (t : Token) → t.type ≡ TokenType.eof → (resolve_keyword b t).type ≡ TokenType.eof
unfolding resolve_keyword
resolve_keyword-eof b t e = rw (e, resolve_keyword) e

eof_not_skipped : (t : TokenType) → t ≡ TokenType.eof → is_skipped t ≡ true → ⊥
eof_not_skipped t e q = cc (ap is_skipped e)

not_eof : (t : TokenType) → t ≡ TokenType.eof → is_eof t ≡ false → ⊥
not_eof t e q = cc (ap is_eof e)

module _ (encode : ℕ → List ℕ) (parse_float : List ℕ → Value) where
  -- What one token leaves: less, unless it is the end of the text.
  abbrev Read : Source → Source × Token → Type 0
  Read s r =
      EndsLine r.0 × ((left r.0 < left s) ⊎ ((r.1.type ≡ TokenType.eof) × (left r.0 ≤ left s)))

  scan_token-Read :
      (l : Lexer) → EndsLine l.source → Returns (Read l.source) (scan_token encode parse_float l)
  unfolding scan_token
  scan_token-Read l e =
      Returns-bind (Scanned encode parse_float l.source) (Read l.source)
        (consume encode parse_float l.source (reset_token l)) _
        (consume-Scanned encode parse_float l.source (reset_token l) e)
        (λ r k. elim k.1 [
          | inl h ↦ (k.0, inl h)
          | inr h ↦ (k.0, inr (resolve_keyword-eof r.2 _ h.0, h.1))
        ])

  read_token-Read :
      (fuel : ℕ) (l : Lexer)
      → left l.source < fuel
      → EndsLine l.source
      → Returns (λ r. Read l.source (r.source, r.token)) (read_token encode parse_float fuel l)
  unfolding read_token
  read_token-Read zero l h e = elim (no_fuel (left l.source) h) [ ]
  read_token-Read (suc fuel) l h e =
      Returns-bind (Read l.source) (λ r. Read l.source (r.source, r.token))
        (scan_token encode parse_float l) _ (scan_token-Read l e)
        (λ r k. after (read_token-Read fuel) r.0 r.1 (is_skipped r.1.type) refl k)
    where
      after :
          ((m : Lexer)
            → left m.source < fuel
            → EndsLine m.source
            → Returns
                (λ r. Read m.source (r.source, r.token))
                (read_token encode parse_float fuel m))
          → (s : Source) (t : Token) (b : Bool) → is_skipped t.type ≡ b
          → Read l.source (s, t)
          → Returns {A = Lexer}
              (λ r. Read l.source (r.source, r.token))
              (elim b [
                | true ↦ read_token encode parse_float fuel (record l { source = s; token = t })
                | false ↦ done (record { source = s; token = t; tokens = l.tokens ++ t ∷ [] })
              ])
      after self s t false q k = k
      after self s t true q k = elim k.1 [
        | inr h ↦ absurd (eof_not_skipped t.type h.0 q)
        | inl less ↦
            Returns-weaken (λ r. Read s (r.source, r.token))
              (λ r. Read l.source (r.source, r.token))
              (read_token encode parse_float fuel (record l { source = s; token = t }))
              (self (record l { source = s; token = t }) (omega (arith, h, less)) k.0)
              (λ r m. elim m.1 [
                | inl f ↦ (m.0, inl (omega (arith, f, less)))
                | inr f ↦ (m.0, inl (omega (arith, f.1, less)))
              ])
      ]

  tokenize_loop-eof :
      (skips fuel : ℕ) (l : Lexer)
      → left l.source < skips
      → (left l.source + 1 < fuel) ⊎ ((l.token.type ≡ TokenType.eof) × (0 < fuel))
      → EndsLine l.source
      → Returns (λ r. is_eof r.token.type ≡ true) (tokenize_loop encode parse_float skips fuel l)
  unfolding tokenize_loop
  tokenize_loop-eof skips zero l h (inl f) e = elim (no_fuel (left l.source + 1) f) [ ]
  tokenize_loop-eof skips zero l h (inr f) e = elim (no_fuel 0 f.1) [ ]
  tokenize_loop-eof skips (suc fuel) l h f e =
      go (tokenize_loop-eof skips fuel) (is_eof l.token.type) refl
    where
      fewer : (r : Lexer) → Read l.source (r.source, r.token) → left r.source < skips
      fewer r k = elim k.1 [ inl m ↦ omega (arith, h, m) | inr m ↦ omega (arith, h, m.1) ]

      ends :
          (r : Lexer)
          → is_eof l.token.type ≡ false
          → Read l.source (r.source, r.token)
          → (left r.source + 1 < fuel) ⊎ ((r.token.type ≡ TokenType.eof) × (0 < fuel))
      ends r q k = elim f [
        | inr m ↦ absurd (not_eof l.token.type m.0 q)
        | inl m ↦ elim k.1 [
          | inl n ↦ inl (omega (arith, m, n))
          | inr n ↦ inr (n.0, omega (arith, m))
        ]
      ]

      go :
          ((r : Lexer)
            → left r.source < skips
            → (left r.source + 1 < fuel) ⊎ ((r.token.type ≡ TokenType.eof) × (0 < fuel))
            → EndsLine r.source
            → Returns
                (λ r. is_eof r.token.type ≡ true)
                (tokenize_loop encode parse_float skips fuel r))
          → (b : Bool) → is_eof l.token.type ≡ b
          → Returns {A = Lexer}
              (λ r. is_eof r.token.type ≡ true)
              (elim b [
                | true ↦ done l
                | false ↦ read_token encode parse_float skips l >>= λ r.
                    tokenize_loop encode parse_float skips fuel r
              ])
      go self true q = q
      go self false q =
          Returns-bind (λ r. Read l.source (r.source, r.token)) (λ r. is_eof r.token.type ≡ true)
            (read_token encode parse_float skips l) _ (read_token-Read skips l h e)
            (λ r k. self r (fewer r k) (ends r q k) k.0)

  abbrev start : List ℕ → Source
  start text = record { rest = text; current_char = 0; frame = []; pos = 0; row = 1; column = 0 }

  start-EndsLine : (text : List ℕ) → last_or 10 text ≡ 10 → EndsLine (start text)
  start-EndsLine [] e = inr (refl, refl)
  start-EndsLine (c ∷ cs) e = inl e

  -- On every text that is empty or whose last character is a newline, the lexer ends, whatever
  -- else the text holds: it throws an unexpected character, or has come to the token of the end
  -- of the file.
  pub tokenize-ends :
      (text : List ℕ)
      → last_or 10 text ≡ 10
      → Returns (λ r. is_eof r.token.type ≡ true) (tokenize encode parse_float text)
  unfolding tokenize open_source
  tokenize-ends text e =
      let l = next-left encode (start text) in
      tokenize_loop-eof (length text + 3) (length text + 4) _ (omega (arith, l))
        (inl (omega (arith, l))) (next-EndsLine encode (start text) (start-EndsLine text e))

-- No character ends a line.
abbrev pub OneLine : List ℕ → Type 0
OneLine [] = Unit
OneLine (c ∷ cs) = ((c ≢ 10) × (c ≢ 13)) × OneLine cs

module _ (encode : ℕ → List ℕ) where
  read_char-OneLine :
      (s : Source)
      → OneLine s.rest
      → OneLine ((read_char encode s).current_char ∷ (read_char encode s).rest)
  unfolding read_char accept_char
  read_char-OneLine s o = go s.rest o
    where
      go :
          (cs : List ℕ)
          → OneLine cs
          → OneLine (
              (read_char encode (record s { rest = cs })).current_char
              ∷ (read_char encode (record s { rest = cs })).rest)
      go [] o = ground arith
      go (c ∷ cs) o = elim (Bool-cases (c == 0)) [
        | inl z ↦ rw (z, accept_char) ((ground arith, ground arith), o.1)
        | inr z ↦ rw (z, accept_char) o
      ]

  pub comment_loop-diverges :
      (fuel : ℕ) (s : Source)
      → OneLine (s.current_char ∷ s.rest)
      → comment_loop encode fuel s ≡ diverge
  unfolding comment_loop
  comment_loop-diverges zero s o = refl
  comment_loop-diverges (suc fuel) s o =
      ground (arith, o, comment_loop-diverges fuel (read_char encode s) (read_char-OneLine s o.1))

  module _ (parse_float : List ℕ → Value) where
    comment-diverges :
        (text : List ℕ) (l : Lexer)
        → OneLine text
        → l.source ≡ open_source encode (b'/' ∷ b'/' ∷ text)
        → scan_token encode parse_float l ≡ diverge
    unfolding scan_token consume consume_comment open_source read_char accept_char peek_char
        is_numeric
    comment-diverges text l o e =
        rw
          (
            e,
            comment_loop-diverges (suc (suc (length text)))
                (read_char encode (open_source encode (b'/' ∷ b'/' ∷ text)))
                ((ground arith, ground arith), o),
          )
          refl

    read_token-diverges :
        (fuel : ℕ) (l : Lexer)
        → scan_token encode parse_float l ≡ diverge
        → read_token encode parse_float fuel l ≡ diverge
    unfolding read_token
    read_token-diverges zero l e = refl
    read_token-diverges (suc fuel) l e = rw (e) refl

    tokenize_loop-diverges :
        (skips fuel : ℕ) (l : Lexer)
        → scan_token encode parse_float l ≡ diverge
        → is_eof l.token.type ≡ false
        → tokenize_loop encode parse_float skips fuel l ≡ diverge
    unfolding tokenize_loop
    tokenize_loop-diverges skips zero l e t = refl
    tokenize_loop-diverges skips (suc fuel) l e t =
        rw (t, read_token-diverges skips l e, tokenize_loop) refl

    -- On a text that begins with a line comment and has no newline or carriage return, the lexer
    -- runs out of the fuel that is enough otherwise, and no fuel is enough for the loop over the
    -- comment.
    pub tokenize-diverges :
        (text : List ℕ)
        → OneLine text
        → (tokenize encode parse_float (b'/' ∷ b'/' ∷ text) ≡ diverge)
          × ((fuel : ℕ)
              → comment_loop encode fuel
                  (read_char encode (open_source encode (b'/' ∷ b'/' ∷ text)))
                ≡ diverge)
    unfolding tokenize open_source read_char accept_char
    tokenize-diverges text o = (
      tokenize_loop-diverges (length (b'/' ∷ b'/' ∷ text) + 3) (length (b'/' ∷ b'/' ∷ text) + 4) _
          (comment-diverges text _ o refl) refl,
      λ fuel.
          comment_loop-diverges fuel (read_char encode (open_source encode (b'/' ∷ b'/' ∷ text)))
            ((ground arith, ground arith), o),
    )
