-- ===== src/Routing/Return/Expansion.antt =====
-- `expand_return` of a template that is written from its pieces.
use mathlib.Core.List.{append-nil, append_assoc}
use ngxora.Base.{
  ℕ, zero, suc, ◌<◌, ◌≡◌, refl, ◌∙◌, ap, arith, true, false, List, [], ◌∷◌, ◌++◌, Text, codes, ◌==◌,
  if◌then◌else◌, length, length-append, text_eq, Bool-cases, ==_iff, Option-cases, inl, inr,
}
use ngxora.Outcome.{Outcome, success}
use ngxora.Routing.Return.{
  ReturnErr, dollar, find_dollar, is_name_char, split_name, variable, expand_one, expand_next,
  expand, expand_return,
}

pub data Variable : Type 0 where
  host_variable request_uri_variable scheme_variable : Variable

pub data Piece : Type 0 where
  literal : Text → Piece
  reference : Variable → Piece

abbrev pub name_of : Variable → Text
name_of host_variable = codes "host"
name_of request_uri_variable = codes "request_uri"
name_of scheme_variable = codes "scheme"

-- A dollar sign is written twice.
abbrev pub escape : Text → Text → Text
escape [] rest = rest
escape (c ∷ text) rest =
    let rest' = escape text rest in if c == dollar then dollar ∷ (dollar ∷ rest') else c ∷ rest'

abbrev pub render : List Piece → Text
render [] = []
render (literal text ∷ pieces) = escape text (render pieces)
render (reference v ∷ pieces) = dollar ∷ (name_of v ++ render pieces)

-- No character that a name may have comes behind a reference.
abbrev pub Stops : Text → Type 0
Stops [] = Unit
Stops (c ∷ rest) = is_name_char c ≡ false

abbrev pub IsSeparated : List Piece → Type 0
IsSeparated [] = Unit
IsSeparated (literal text ∷ pieces) = IsSeparated pieces
IsSeparated (reference v ∷ pieces) = Stops (render pieces) × IsSeparated pieces

split_name-Stops : (rest : Text) → Stops rest → split_name rest ≡ ([], rest)
unfolding split_name
split_name-Stops [] s = refl
split_name-Stops (c ∷ rest) s = rw s refl

split_name-name_of :
    (rest : Text) (v : Variable) → Stops rest → split_name (name_of v ++ rest) ≡ (name_of v, rest)
unfolding split_name
split_name-name_of rest host_variable s =
    ap (λ (p : Text × Text). (name_of host_variable ++ p.0, p.1)) (split_name-Stops rest s)
split_name-name_of rest request_uri_variable s =
    ap (λ (p : Text × Text). (name_of request_uri_variable ++ p.0, p.1)) (split_name-Stops rest s)
split_name-name_of rest scheme_variable s =
    ap (λ (p : Text × Text). (name_of scheme_variable ++ p.0, p.1)) (split_name-Stops rest s)

module _ (host uri scheme : Text) where
  abbrev pub value_of : Variable → Text
  value_of host_variable = host
  value_of request_uri_variable = uri
  value_of scheme_variable = scheme

  abbrev pub meaning : List Piece → Text
  meaning [] = []
  meaning (literal text ∷ pieces) = text ++ meaning pieces
  meaning (reference v ∷ pieces) = value_of v ++ meaning pieces

  expand_char :
      (fuel : ℕ) (out : Text) (c : ℕ) (rest : Text)
      → (c == dollar) ≡ false
      → expand host uri scheme fuel out (c ∷ rest)
        ≡ expand host uri scheme fuel (out ++ (c ∷ [])) rest
  unfolding expand find_dollar
  expand_char zero out c rest h = refl
  expand_char (suc fuel) out c rest h = elim (Option-cases (find_dollar rest)) [
    | inl e ↦ rw (h, e, expand, find_dollar) (rw append_assoc refl)
    | inr ((b, a), e) ↦ rw (h, e, expand, find_dollar) (rw append_assoc refl)
  ]

  expand-dollar :
      (fuel : ℕ) (out rest : Text)
      → expand host uri scheme (suc fuel) out (dollar ∷ (dollar ∷ rest))
        ≡ expand host uri scheme fuel (out ++ (dollar ∷ [])) rest
  unfolding expand find_dollar expand_next
  expand-dollar fuel out rest = rw (append-nil out) refl

  expand_reference :
      (fuel : ℕ) (out rest : Text) (v : Variable)
      → Stops rest
      → expand host uri scheme (suc fuel) out (dollar ∷ (name_of v ++ rest))
        ≡ expand host uri scheme fuel (out ++ value_of v) rest
  unfolding expand find_dollar expand_next expand_one variable text_eq
  expand_reference fuel out rest host_variable s =
      rw (split_name-name_of rest host_variable s, append-nil out) refl
  expand_reference fuel out rest request_uri_variable s =
      rw (split_name-name_of rest request_uri_variable s, append-nil out) refl
  expand_reference fuel out rest scheme_variable s =
      rw (split_name-name_of rest scheme_variable s, append-nil out) refl

  expand_literal :
      (fuel : ℕ) (out text rest end : Text)
      → length (escape text rest) < fuel
      → ((fuel : ℕ) (out : Text)
          → length rest < fuel
          → expand host uri scheme fuel out rest ≡ success (out ++ end))
      → expand host uri scheme fuel out (escape text rest) ≡ success (out ++ (text ++ end))
  expand_literal fuel out [] rest end h k = k fuel out h
  expand_literal fuel out (c ∷ text) rest end h k = elim (Bool-cases (c == dollar)) [
    | inl q ↦
        doubled fuel ((==_iff c dollar).0 q) q (rw q at h)
          (λ fuel' out' h'. expand_literal fuel' out' text rest end h' k)
    | inr q ↦
        rw (q, expand_char fuel out c (escape text rest) q)
          (expand_literal fuel (out ++ (c ∷ [])) text rest end
              (let h' = rw q at h in omega (arith, h')) k
            ∙ moved)
  ]
    where
      moved :
          ◌≡◌ {A = Outcome ReturnErr Text}
            (success ((out ++ (c ∷ [])) ++ (text ++ end)))
            (success (out ++ (c ∷ (text ++ end))))
      moved = ap success (append_assoc out (c ∷ []) (text ++ end))

      doubled :
          (fuel : ℕ)
          → c ≡ dollar
          → (c == dollar) ≡ true
          → length (dollar ∷ (dollar ∷ escape text rest)) < fuel
          → ((fuel : ℕ) (out : Text)
              → length (escape text rest) < fuel
              → expand host uri scheme fuel out (escape text rest) ≡ success (out ++ (text ++ end)))
          → expand host uri scheme fuel out (escape (c ∷ text) rest)
            ≡ success (out ++ (c ∷ (text ++ end)))
      doubled zero e q h next = absurd (omega (arith, h))
      doubled (suc fuel) e q h next =
          rw (q, expand-dollar fuel out (escape text rest))
            (rw (← e) (next fuel (out ++ (c ∷ [])) (omega (arith, h)) ∙ moved))

  expand-render :
      (ps : List Piece) (fuel : ℕ) (out : Text)
      → IsSeparated ps
      → length (render ps) < fuel
      → expand host uri scheme fuel out (render ps) ≡ success (out ++ meaning ps)
  unfolding expand find_dollar
  expand-render [] zero out a h = absurd (omega (arith, h))
  expand-render [] (suc fuel) out a h = refl
  expand-render (literal text ∷ ps) fuel out a h =
      expand_literal fuel out text (render ps) (meaning ps) h
        (λ fuel' out' h'. expand-render ps fuel' out' a h')
  expand-render (reference v ∷ ps) zero out (s, a) h = absurd (omega (arith, h))
  expand-render (reference v ∷ ps) (suc fuel) out (s, a) h =
      expand_reference fuel out (render ps) v s
      ∙ expand-render ps fuel (out ++ value_of v) a
          (omega (arith, h, length-append (name_of v) (render ps)))
      ∙ ap success (append_assoc out (value_of v) (meaning ps))

  -- A template that is written from literal texts, with their dollar signs doubled, and references to
  -- the variables expands to the texts and the variables' values. The condition is that no character
  -- that a name may have comes directly behind a reference.
  pub expand_return-render :
      (ps : List Piece)
      → IsSeparated ps
      → expand_return host uri scheme (render ps) ≡ success (meaning ps)
  unfolding expand_return
  expand_return-render ps a = expand-render ps (suc (length (render ps))) [] a (omega arith)
