-- ===== src/Config/Lexer/Spelling.antt =====
-- `Token::tokenize` decides a declarative relation between texts and lexical items.
use mathlib.Core.List.{append-nil, append_assoc}
use ngxora.Base.{
  ℕ, ◌+◌, true, false, Option, none, some, List, [], ◌∷◌, ◌++◌, ◌≡◌, ◌≢◌, ◌↔◌, refl, arith, ◌==◌,
  if◌then◌else◌, Text, map, ap, sym, ◌∙◌, inl, inr, Bool-cases, All, All-append, subst,
}
use ngxora.Config.Grammar.{Lex, word, opening, closing, ending, lex}
use ngxora.Config.Lexer.Steps.{
  is_word, outside, inside, next_line, punct_token, step_blank, step_hash, step_punct, step_word,
  code_cases,
}
use ngxora.Config.Lexer.{
  TokenType, Token, l_brace, r_brace, punct_token_type, is_whitespace, flush, State, push_char,
  step, scan, tokenize,
}

abbrev pub kind_lex : TokenType → Lex
kind_lex l_brace = opening
kind_lex r_brace = closing
kind_lex _ = ending

abbrev pub IsWord : Text → Type 0
IsWord w = All (λ c. is_word c ≡ true) w × (w ≢ [])

-- A text that no character of a word begins.
abbrev pub Delimited : Text → Type 0
Delimited [] = Unit {0}
Delimited (c ∷ s) = is_word c ≡ false

abbrev pub IsComment : Text → Type 0
IsComment body = All (λ c. c ≢ b'\n') body

-- Blanks and comments stand between the items; a word ends where no character of a word follows.
pub data Spells : Text → List Lex → Type 0 where
  finish : Spells [] []
  blank :
      {s : Text} {ls : List Lex} (c : ℕ) → is_whitespace c ≡ true → Spells s ls → Spells (c ∷ s) ls
  comment :
      {s t : Text} {ls : List Lex} (body : Text)
      → IsComment body
      → t ≡ b'#' ∷ (body ++ (b'\n' ∷ s))
      → Spells s ls
      → Spells t ls
  last_comment : {s : Text} → IsComment s → Spells (b'#' ∷ s) []
  punct :
      {s : Text} {ls ls' : List Lex} (c : ℕ) (k : TokenType)
      → punct_token_type c ≡ some k
      → ls' ≡ kind_lex k ∷ ls
      → Spells s ls
      → Spells (c ∷ s) ls'
  a_word :
      {s t : Text} {ls : List Lex} (w : Text)
      → IsWord w
      → Delimited s
      → t ≡ w ++ s
      → Spells s ls
      → Spells t (word w ∷ ls)

abbrev lexes : State → Text → List Lex
lexes st s = map lex (scan st s)

scan-step :
    (st st' : State) (c : ℕ) (s : Text) (out : List Token)
    → step st c ≡ (st', out)
    → scan st (c ∷ s) ≡ out ++ scan st' s
unfolding scan
scan-step st st' c s out h = ground arith

lexes_blank :
    (line c : ℕ) (s : Text)
    → is_whitespace c ≡ true
    → lexes (outside none line) (c ∷ s) ≡ lexes (outside none (next_line c line)) s
unfolding flush
lexes_blank line c s h = ap (map lex) (
    scan-step (outside none line) (outside none (next_line c line)) c s []
      (step_blank none line c h))

lexes_hash : (line : ℕ) (s : Text) → lexes (outside none line) (b'#' ∷ s) ≡ lexes (inside line) s
unfolding flush
lexes_hash line s =
    ap (map lex) (scan-step (outside none line) (inside line) b'#' s [] (step_hash none line))

lex-punct_token :
    (line c : ℕ) (k : TokenType)
    → punct_token_type c ≡ some k
    → lex (punct_token k c line) ≡ kind_lex k
unfolding punct_token_type
lex-punct_token line c k h = ground arith

lexes_punct :
    (line c : ℕ) (k : TokenType) (s : Text)
    → punct_token_type c ≡ some k
    → lexes (outside none line) (c ∷ s) ≡ kind_lex k ∷ lexes (outside none line) s
unfolding flush
lexes_punct line c k s h =
    ap (map lex) (
      scan-step (outside none line) (outside none line) c s (punct_token k c line ∷ [])
        (step_punct none line c k h))
    ∙ ap (λ l. l ∷ lexes (outside none line) s) (lex-punct_token line c k h)

lexes_comment :
    (line c : ℕ) (s : Text)
    → lexes (inside line) (c ∷ s)
      ≡ (if c == b'\n' then lexes (outside none (line + 1)) s else lexes (inside line) s)
unfolding scan step
lexes_comment line c s = ground arith

lexes_word :
    (line c : ℕ) (w : Option Text) (s : Text)
    → is_word c ≡ true
    → lexes (outside w line) (c ∷ s) ≡ lexes (outside (push_char w c) line) s
lexes_word line c w s h =
    ap (map lex)
      (scan-step (outside w line) (outside (push_char w c) line) c s [] (step_word w line c h))

-- At the end of a word it becomes an item.
step-flush :
    (w : Option Text) (line c : ℕ)
    → is_word c ≡ false
    → step (outside w line) c
      ≡ ((step (outside none line) c).0, flush w line ++ (step (outside none line) c).1)
unfolding flush
step-flush w line c h = elim (code_cases c) [
  | inl b ↦ rw (step_blank w line c b, step_blank none line c b, append-nil)
  | inr (inl b) ↦ rw b (rw (step_hash w line, step_hash none line, append-nil))
  | inr (inr (inl (k, b))) ↦ rw (step_punct w line c k b, step_punct none line c k b)
  | inr (inr (inr b)) ↦ cc
]

lexes-Delimited :
    (line : ℕ) (w s : Text)
    → w ≢ []
    → Delimited s
    → lexes (outside (some w) line) s ≡ word w ∷ lexes (outside none line) s
unfolding flush scan
lexes-Delimited line [] s ne d = absurd (ne refl)
lexes-Delimited line (x ∷ w) [] ne d = refl
lexes-Delimited line (x ∷ w) (c ∷ s) ne d =
    ap (map lex)
      (scan-step (outside (some (x ∷ w)) line) _ c s _ (step-flush (some (x ∷ w)) line c d))

-- A whole word is read.
lexes_words :
    (line : ℕ) (v w s : Text)
    → All (λ c. is_word c ≡ true) w
    → lexes (outside (some v) line) (w ++ s) ≡ lexes (outside (some (v ++ w)) line) s
lexes_words line v [] s a = rw append-nil
lexes_words line v (c ∷ w) s (h, a) =
    lexes_word line c (some v) (w ++ s) h ∙ lexes_words line (v ++ c ∷ []) w s a ∙ rw append_assoc

lexes_first :
    (line : ℕ) (w s : Text)
    → IsWord w
    → Delimited s
    → lexes (outside none line) (w ++ s) ≡ word w ∷ lexes (outside none line) s
lexes_first line [] s (a, ne) d = absurd (ne refl)
lexes_first line (c ∷ w) s ((h, a), ne) d =
    lexes_word line c none (w ++ s) h
    ∙ lexes_words line (c ∷ []) w s a
    ∙ lexes-Delimited line (c ∷ w) s ne d

-- A comment ends with its line.
lexes_comments :
    (line : ℕ) (body s : Text)
    → IsComment body
    → lexes (inside line) (body ++ (b'\n' ∷ s)) ≡ lexes (outside none (line + 1)) s
lexes_comments line [] s a = lexes_comment line b'\n' s
lexes_comments line (c ∷ body) s (h, a) =
    lexes_comment line c (body ++ (b'\n' ∷ s)) ∙ ground (arith, lexes_comments line body s a)

lexes_last_comment : (line : ℕ) (body : Text) → IsComment body → lexes (inside line) body ≡ []
unfolding flush scan
lexes_last_comment line [] a = refl
lexes_last_comment line (c ∷ body) (h, a) =
    lexes_comment line c body ∙ ground (arith, lexes_last_comment line body a)

-- From any line, the lexer finds the items that the text spells.
Spells-lexes :
    {s : Text} {ls : List Lex} (line : ℕ) → Spells s ls → lexes (outside none line) s ≡ ls
unfolding scan flush
Spells-lexes line finish = refl
Spells-lexes line (blank {s} c h r) = lexes_blank line c s h ∙ Spells-lexes (next_line c line) r
Spells-lexes line (comment {s} body a e r) = rw e (
    lexes_hash line (body ++ (b'\n' ∷ s))
    ∙ lexes_comments line body s a
    ∙ Spells-lexes (line + 1) r)
Spells-lexes line (last_comment {s} a) = lexes_hash line s ∙ lexes_last_comment line s a
Spells-lexes line (punct {s} c k h e r) =
    lexes_punct line c k s h ∙ rw (Spells-lexes line r) (sym e)
Spells-lexes line (a_word {s} w v d e r) =
    rw e (lexes_first line w s v d ∙ ap (λ ls. word w ∷ ls) (Spells-lexes line r))

-- The lexer's three states, each with what it has read of an unfinished item.
abbrev FromOutside : Text → Type 0
FromOutside s = (line : ℕ) → Spells s (lexes (outside none line) s)

abbrev FromWord : Text → Type 0
FromWord s = (w : Text) (line : ℕ) → IsWord w → Spells (w ++ s) (lexes (outside (some w) line) s)

abbrev FromComment : Text → Type 0
FromComment s =
    (body : Text) (line : ℕ) → IsComment body → Spells (b'#' ∷ (body ++ s)) (lexes (inside line) s)

outside_cons : (c : ℕ) (s : Text) → FromOutside s → FromWord s → FromComment s → FromOutside (c ∷ s)
outside_cons c s o w k line = elim (code_cases c) [
  | inl b ↦ rw (lexes_blank line c s b) (blank c b (o (next_line c line)))
  | inr (inl b) ↦ rw b (rw (lexes_hash line s) (k [] line tt))
  | inr (inr (inl (kind, b))) ↦ rw (lexes_punct line c kind s b) (punct c kind b refl (o line))
  | inr (inr (inr b)) ↦ rw (lexes_word line c none s b) (w (c ∷ []) line ((b, tt), λ e. (cc)))
]

IsWord-push : (w : Text) (c : ℕ) → IsWord w → is_word c ≡ true → IsWord (w ++ c ∷ [])
IsWord-push [] c v h = absurd (v.1 refl)
IsWord-push (x ∷ w) c (a, ne) h =
    (All-append (λ c. is_word c ≡ true) (x ∷ w) (c ∷ []) a (h, tt), λ e. (cc))

word_cons : (c : ℕ) (s : Text) → FromOutside (c ∷ s) → FromWord s → FromWord (c ∷ s)
word_cons c s o w v line h = elim (Bool-cases (is_word c)) [
  | inl b ↦ rw (lexes_word line c (some v) s b) (
      subst (λ t. Spells t (lexes (outside (some (v ++ c ∷ [])) line) s))
        (append_assoc v (c ∷ []) s) (w (v ++ c ∷ []) line (IsWord-push v c h b)))
  | inr b ↦ rw (lexes-Delimited line v (c ∷ s) h.1 b) (a_word v h b refl (o line))
]

comment_cons : (c : ℕ) (s : Text) → FromOutside s → FromComment s → FromComment (c ∷ s)
comment_cons c s o k body line h = elim (Bool-cases (c == b'\n')) [
  | inl b ↦
      let e : c ≡ b'\n' = ground arith in
      rw (lexes_comment line c s, b) (comment body h (rw e) (o (line + 1)))
  | inr b ↦
      rw (lexes_comment line c s, b)
        (subst (λ t. Spells (b'#' ∷ t) (lexes (inside line) s)) (append_assoc body (c ∷ []) s)
          (k (body ++ c ∷ []) line
            (All-append (λ c. c ≢ b'\n') body (c ∷ []) h (ground arith, tt))))
]

from_all : (s : Text) → FromOutside s × FromWord s × FromComment s
unfolding scan flush
from_all [] = (
  λ line. finish,
  λ w line h. rw (lexes-Delimited line w [] h.1 tt) (a_word w h tt refl finish),
  λ body line h. rw append-nil (last_comment h),
)
from_all (c ∷ s) =
    let (o, w, k) = from_all s in
    let o' = outside_cons c s o w k in (o', word_cons c s o' w, comment_cons c s o k)

-- The lexemes of the tokens of a text are a list if and only if the text spells that list: words,
-- punctuation and, between them, white space and comments.
pub tokenize_iff : (s : Text) (ls : List Lex) → (map lex (tokenize s) ≡ ls) ↔ Spells s ls
unfolding tokenize
tokenize_iff s ls = (λ h. subst (Spells s) h ((from_all s).0 1), λ r. Spells-lexes 1 r)
