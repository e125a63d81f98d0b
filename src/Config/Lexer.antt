-- ===== src/Config/Lexer.antt =====
-- crates/ngxora-config/src/lexer.rs. The input is a list of code points. `word_start` is the
-- offset of the current word in the source; here it is the word read since that offset, which is
-- the slice that `flush` takes. The state's `comment` is the inner loop behind `#`.
pub mod Steps
pub mod Spelling
use ngxora.Base.{
  ℕ, ◌+◌, Bool, true, false, ◌&&◌, ◌||◌, Option, none, some, List, [], ◌∷◌, ◌++◌, leb, ltb, ◌==◌,
  if◌then◌else◌, Text,
}

pub data TokenType : Type 0 where
  l_brace r_brace semicolon ident : TokenType

pub record Token : Type 0 where
  pub kind : TokenType
  pub len : ℕ
  pub lexeme : Text
  pub number_line : ℕ

-- `char::len_utf8`
pub len_utf8 : ℕ → ℕ
len_utf8 c = if ltb c 0x80 then 1 else if ltb c 0x800 then 2 else if ltb c 0x10000 then 3 else 4

pub byte_len : Text → ℕ
byte_len [] = 0
byte_len (c ∷ cs) = len_utf8 c + byte_len cs

-- `char::is_whitespace`: the code points of Unicode's White_Space property
unfoldable pub is_whitespace : ℕ → Bool
is_whitespace c =
    (leb 9 c && leb c 13)
    || c == 0x20
    || c == 0x85
    || c == 0xa0
    || c == 0x1680
    || (leb 0x2000 c && leb c 0x200a)
    || c == 0x2028
    || c == 0x2029
    || c == 0x202f
    || c == 0x205f
    || c == 0x3000

unfoldable pub punct_token_type : ℕ → Option TokenType
punct_token_type c =
    if c == b'{'
    then some l_brace
    else if c == b'}'
    then some r_brace
    else if c == b';'
    then some semicolon
    else none

-- The tokens that `flush` pushes.
pub flush : Option Text → ℕ → List Token
flush none line = []
flush (some []) line = []
flush (some (c ∷ cs)) line =
    record { kind = ident; len = byte_len (c ∷ cs); lexeme = c ∷ cs; number_line = line } ∷ []

pub record State : Type 0 where
  pub comment : Bool
  pub word_start : Option Text
  pub line : ℕ

abbrev pub push_char : Option Text → ℕ → Option Text
push_char none c = some (c ∷ [])
push_char (some w) c = some (w ++ c ∷ [])

-- One character of the main loop: the next state and the tokens pushed.
pub step_code : State → ℕ → State × List Token
step_code s c =
    let flushed = flush s.word_start s.line in
    if c == b'\n'
    then (record { comment = false; word_start = none; line = s.line + 1 }, flushed)
    else if is_whitespace c
    then (record s { word_start = none }, flushed)
    else if c == b'#'
    then (record s { comment = true; word_start = none }, flushed)
    else elim (punct_token_type c) [
      | some kind ↦ (
        record s { word_start = none },
        flushed
            ++ record { kind = kind; len = len_utf8 c; lexeme = c ∷ []; number_line = s.line } ∷ [],
      )
      | none ↦ (record s { word_start = push_char s.word_start c }, [])
    ]

-- The loop that skips a comment up to the newline, or the main loop.
pub step : State → ℕ → State × List Token
step s c =
    if s.comment
    then (if c == b'\n' then record s { comment = false; line = s.line + 1 } else s, [])
    else step_code s c

pub scan : State → Text → List Token
scan s [] = flush s.word_start s.line
scan s (c ∷ cs) = let (s', pushed) = step s c in pushed ++ scan s' cs

abbrev pub initial : State
initial = record { comment = false; word_start = none; line = 1 }

unfoldable pub tokenize : Text → List Token
unfolding scan step step_code flush byte_len len_utf8 is_whitespace punct_token_type
tokenize input = scan initial input
