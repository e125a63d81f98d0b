-- ===== src/Config/Lexer/Steps.antt =====
-- One character of `Token::tokenize`, by the class of the character.
use ngxora.Base.{
  ℕ, ◌+◌, Bool, true, false, not, ◌&&◌, Option, none, some, [], ◌∷◌, ◌++◌, ◌≡◌, refl, arith, ◌==◌,
  if◌then◌else◌, is_some, Text, ◌⊎◌, inl, inr, Bool-cases, Option-cases,
}
use ngxora.Config.Lexer.{
  TokenType, Token, len_utf8, is_whitespace, punct_token_type, flush, State, push_char, step_code,
  step,
}

-- A character that belongs to a word.
unfoldable pub is_word : ℕ → Bool
is_word c = not (is_whitespace c) && not (c == b'#') && not (is_some (punct_token_type c))

abbrev pub outside : Option Text → ℕ → State
outside w line = record { comment = false; word_start = w; line = line }

abbrev pub inside : ℕ → State
inside line = record { comment = true; word_start = none; line = line }

abbrev pub next_line : ℕ → ℕ → ℕ
next_line c line = if c == b'\n' then line + 1 else line

abbrev pub punct_token : TokenType → ℕ → ℕ → Token
punct_token kind c line = record {
  kind = kind;
  len = len_utf8 c;
  lexeme = c ∷ [];
  number_line = line;
}

newline_blank : (c : ℕ) → is_whitespace c ≡ false → (c == b'\n') ≡ false
unfolding is_whitespace
newline_blank c h = ground arith

punct_plain :
    (c : ℕ) (k : TokenType)
    → punct_token_type c ≡ some k
    → (is_whitespace c ≡ false) × ((c == b'#') ≡ false)
unfolding punct_token_type is_whitespace
punct_plain c k h = ground arith

step-outside :
    (w : Option Text) (line c : ℕ) → step (outside w line) c ≡ step_code (outside w line) c
unfolding step
step-outside w line c = refl

pub step_blank :
    (w : Option Text) (line c : ℕ)
    → is_whitespace c ≡ true
    → step (outside w line) c ≡ (outside none (next_line c line), flush w line)
unfolding step step_code
step_blank w line c h = elim (Bool-cases (c == b'\n')) [ inl e ↦ rw e | inr e ↦ rw (e, h) ]

pub step_hash :
    (w : Option Text) (line : ℕ) → step (outside w line) b'#' ≡ (inside line, flush w line)
unfolding step step_code is_whitespace
step_hash w line = refl

pub step_punct :
    (w : Option Text) (line c : ℕ) (k : TokenType)
    → punct_token_type c ≡ some k
    → step (outside w line) c ≡ (outside none line, flush w line ++ punct_token k c line ∷ [])
unfolding step step_code
step_punct w line c k h = let (b, p) = punct_plain c k h in rw (newline_blank c b, b, p, h)

pub step_word :
    (w : Option Text) (line c : ℕ)
    → is_word c ≡ true
    → step (outside w line) c ≡ (outside (push_char w c) line, [])
unfolding step step_code is_word
step_word w line c h = ground (arith, newline_blank c)

-- The classes cover all characters.
pub code_cases :
    (c : ℕ)
    → (is_whitespace c ≡ true)
      ⊎ (c ≡ b'#')
      ⊎ ((k : TokenType) × (punct_token_type c ≡ some k))
      ⊎ (is_word c ≡ true)
unfolding is_word
code_cases c = elim (Bool-cases (is_whitespace c)) [
  | inl b ↦ inl b
  | inr b ↦ elim (Bool-cases (c == b'#')) [
    | inl p ↦ inr (inl (ground arith))
    | inr p ↦ elim (Option-cases (punct_token_type c)) [
      | inl q ↦ inr (inr (inr (ground arith)))
      | inr q ↦ inr (inr (inl q))
    ]
  ]
]
