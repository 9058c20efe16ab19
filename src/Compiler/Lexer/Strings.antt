-- ===== src/Compiler/Lexer/Strings.antt =====
-- What Lexer::consume_string of src/compiler/lexer.cpp makes of a string literal.
use charly_vm.Common.{ℕ, zero, suc, ◌<◌, ◌≡◌, ◌≢◌, refl, sym, ap, ◌∙◌, arith}
use charly_vm.Common.{≡→==, ≢→==, List, [], ◌∷◌, ◌++◌, length, length-append}
use mathlib.Core.List.{append_assoc, append-nil}
use charly_vm.Compiler.Source.{Source, accept_char, read_char}
use charly_vm.Compiler.Lexer.Scan.{Result, done, unescape, string_loop, consume_string}
use charly_vm.Compiler.Lexer.Progress.{no_fuel}

-- What a character behind a backslash stands for: the escapes of the language, as ASCII codes.
-- Any other character stands for nothing.
pub data Escape : ℕ → List ℕ → Type 0 where
  bell : Escape b'a' (7 ∷ [])
  backspace : Escape b'b' (8 ∷ [])
  newline : Escape b'n' (10 ∷ [])
  carriage_return : Escape b'r' (13 ∷ [])
  tab : Escape b't' (9 ∷ [])
  vertical_tab : Escape b'v' (11 ∷ [])
  form_feed : Escape b'f' (12 ∷ [])
  escape : Escape b'e' (27 ∷ [])
  quote : Escape b'"' (34 ∷ [])
  backslash : Escape b'\\' (92 ∷ [])
  unknown :
      (c : ℕ)
      → c ≢ b'a'
      → c ≢ b'b'
      → c ≢ b'n'
      → c ≢ b'r'
      → c ≢ b't'
      → c ≢ b'v'
      → c ≢ b'f'
      → c ≢ b'e'
      → c ≢ b'"'
      → c ≢ b'\\'
      → Escape c []

module _ (encode : ℕ → List ℕ) where
  -- The texts between the quotes, and the bytes that each one stands for.
  pub data Spells : List ℕ → List ℕ → Type 0 where
    empty : Spells [] []
    plain :
        (c : ℕ) {text bytes : List ℕ}
        → c ≢ 0
        → c ≢ b'"'
        → c ≢ b'\\'
        → Spells text bytes
        → Spells (c ∷ text) (encode c ++ bytes)
    escaped :
        {c : ℕ} {code text bytes : List ℕ}
        → Escape c code
        → c ≢ 0
        → Spells text bytes
        → Spells (b'\\' ∷ c ∷ text) (code ++ bytes)

  Escape-unescape : {c : ℕ} {code : List ℕ} → Escape c code → unescape encode c ≡ code
  unfolding unescape
  Escape-unescape bell = ground arith
  Escape-unescape backspace = ground arith
  Escape-unescape newline = ground arith
  Escape-unescape carriage_return = ground arith
  Escape-unescape tab = ground arith
  Escape-unescape vertical_tab = ground arith
  Escape-unescape form_feed = ground arith
  Escape-unescape escape = ground arith
  Escape-unescape quote = ground arith
  Escape-unescape backslash = ground arith
  Escape-unescape (unknown c k1 k2 k3 k4 k5 k6 k7 k8 k9 k10) =
      ground (arith, k1, k2, k3, k4, k5, k6, k7, k8, k9, k10)

  next-current :
      (s : Source) (c : ℕ) (cs : List ℕ)
      → c ≢ 0
      → s.rest ≡ c ∷ cs
      → (read_char encode s).current_char ≡ c
  unfolding read_char accept_char
  next-current s c cs z e = rw (e) (ground arith)

  next-rest : (s : Source) (c : ℕ) (cs : List ℕ) → s.rest ≡ c ∷ cs → (read_char encode s).rest ≡ cs
  unfolding read_char accept_char
  next-rest s c cs e = rw (e) (ground arith)

  -- The source stands at the closing quote, with `tail` behind it.
  abbrev pub Closed : Result (Source × List ℕ) → List ℕ → List ℕ → Type 0
  Closed m bytes tail =
      (q : Source) × ((m ≡ done (q, bytes)) × ((q.current_char ≡ b'"') × (q.rest ≡ tail)))

  closing :
      (fuel : ℕ) (value : List ℕ) (s : Source)
      → (read_char encode s).current_char ≡ b'"'
      → string_loop encode (suc fuel) value s ≡ done (read_char encode s, value)
  unfolding string_loop
  closing fuel value s e = ground (arith, e)

  plain_step :
      (fuel : ℕ) (value : List ℕ) (s : Source) (c : ℕ)
      → (read_char encode s).current_char ≡ c
      → c ≢ 0
      → c ≢ b'"'
      → c ≢ b'\\'
      → string_loop encode (suc fuel) value s
        ≡ string_loop encode fuel (value ++ encode c) (read_char encode s)
  unfolding string_loop
  plain_step fuel value s c e z q b = rw⁻¹ (e) (
      rw
        (
          ≢→== (read_char encode s).current_char b'\\' (λ h. b (sym e ∙ h)),
          ≢→== (read_char encode s).current_char b'"' (λ h. q (sym e ∙ h)),
          ≢→== (read_char encode s).current_char 0 (λ h. z (sym e ∙ h)),
          string_loop,
        )
        refl)

  escaped_step :
      (fuel : ℕ) (value : List ℕ) (s : Source) (c : ℕ)
      → (read_char encode s).current_char ≡ b'\\'
      → (read_char encode (read_char encode s)).current_char ≡ c
      → c ≢ 0
      → string_loop encode (suc fuel) value s
        ≡ string_loop encode fuel
            (value ++ unescape encode c)
            (read_char encode (read_char encode s))
  unfolding string_loop
  escaped_step fuel value s c e d z = rw⁻¹ (d) (
      rw
        (
          ≡→== (read_char encode s).current_char b'\\' e,
          ≢→== (read_char encode (read_char encode s)).current_char 0 (λ h. z (sym d ∙ h)),
          string_loop,
        )
        refl)

  string_loop-Closed :
      (fuel : ℕ) (value tail : List ℕ) (s : Source) (text bytes : List ℕ)
      → Spells text bytes
      → length text < fuel
      → s.rest ≡ text ++ b'"' ∷ tail
      → Closed (string_loop encode fuel value s) (value ++ bytes) tail
  string_loop-Closed zero value tail s text bytes k l e = elim (no_fuel (length text) l) [ ]
  string_loop-Closed (suc fuel) value tail s _ _ empty l e =
      let c = next-current s b'"' tail (ground arith) e in
      (
        read_char encode s,
        (rw (append-nil value) (closing fuel value s c), (c, next-rest s b'"' tail e)),
      )
  string_loop-Closed (suc fuel) value tail s _ _ (plain c {text} {bytes} z q b k) l e =
      let cur = next-current s c (text ++ b'"' ∷ tail) z e in
      let rest =
        string_loop-Closed fuel (value ++ encode c) tail (read_char encode s) text bytes k
          (omega (arith, l)) (next-rest s c _ e) in
      (
        rest.0,
        (
          plain_step fuel value s c cur z q b
              ∙ rest.1.0
              ∙ ap (λ v. done (rest.0, v)) (append_assoc value (encode c) bytes),
          rest.1.1,
        ),
      )
  string_loop-Closed (suc fuel) value tail s _ _ (escaped {c} {code} {text} {bytes} x z k) l e =
      let s' = read_char encode s in
      let cur = next-current s b'\\' (c ∷ (text ++ b'"' ∷ tail)) (ground arith) e in
      let cur' = next-current s' c (text ++ b'"' ∷ tail) z (next-rest s b'\\' _ e) in
      let rest =
        string_loop-Closed fuel (value ++ code) tail (read_char encode s') text bytes k
          (omega (arith, l)) (next-rest s' c _ (next-rest s b'\\' _ e)) in
      (
        rest.0,
        (
          escaped_step fuel value s c cur cur' z
              ∙ ap (λ v. string_loop encode fuel (value ++ v) (read_char encode s'))
                  (Escape-unescape x)
              ∙ rest.1.0
              ∙ ap (λ v. done (rest.0, v)) (append_assoc value code bytes),
          rest.1.1,
        ),
      )

  -- For every spelling of a text between two quotes, in plain characters and escapes, the lexer
  -- gives the bytes that it stands for, and stops behind the closing quote.
  pub consume_string-Closed :
      {text bytes : List ℕ} (k : Spells text bytes) (tail : List ℕ) (s : Source)
      → s.rest ≡ text ++ b'"' ∷ tail
      → (q : Source) × ((consume_string encode s ≡ done (read_char encode q, bytes))
          × ((q.current_char ≡ b'"') × (q.rest ≡ tail)))
  unfolding consume_string
  consume_string-Closed {text} {bytes} k tail s e =
      let m =
        string_loop-Closed (suc (suc (length s.rest))) [] tail s text bytes k
          (rw (e) (omega (arith, length-append text (b'"' ∷ tail)))) e in
      (m.0, (rw (m.1.0, consume_string) refl, m.1.1))
