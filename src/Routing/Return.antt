-- ===== src/Routing/Return.antt =====
-- `expand_return` of crates/ngxora-runtime/src/upstreams/http_routes.rs.
pub mod Expansion
pub mod Loop
pub mod Anywhere
use ngxora.Base.{
  ℕ, zero, suc, ◌+◌, Bool, true, false, ◌||◌, List, [], ◌∷◌, ◌++◌, Option, none, some, Text, codes,
  ◌==◌, if◌then◌else◌, length, text_eq,
}
use ngxora.Outcome.{Outcome, success, failure, ◌>>=◌}
use ngxora.Routing.Http.{is_ascii_alphanumeric}

pub data ReturnErr : Type 0 where
  unsupported_variable : Text → ReturnErr
  out_of_fuel : ReturnErr

abbrev pub dollar : ℕ
dollar = b'$'

-- `rest.find('$')`, with the text before it and behind it.
unfoldable pub find_dollar : Text → Option (Text × Text)
find_dollar [] = none
find_dollar (c ∷ rest) =
    if c == dollar
    then some ([], rest)
    else elim (find_dollar rest) [ none ↦ none | some (before, behind) ↦ some (c ∷ before, behind) ]

abbrev pub is_name_char : ℕ → Bool
is_name_char c = is_ascii_alphanumeric c || c == b'_'

-- `rest[..len]` and `rest[len..]`
unfoldable pub split_name : Text → Text × Text
split_name [] = ([], [])
split_name (c ∷ rest) =
    let (name, rest') = split_name rest in
    if is_name_char c then (c ∷ name, rest') else ([], c ∷ rest)

module _ (host uri scheme : Text) where
  unfoldable pub variable : Text → Outcome ReturnErr Text
  variable name =
      if text_eq name (codes "host")
      then success host
      else (if text_eq name (codes "request_uri")
          then success uri
          else (if text_eq name (codes "scheme")
              then success scheme
              else failure (unsupported_variable name)))

  -- The body of the loop, behind a dollar sign.
  unfoldable pub expand_one : Text → Text → Outcome ReturnErr (Text × Text)
  expand_one out rest = do
    value ← variable (split_name rest).0
    success (out ++ value, (split_name rest).1)

  unfoldable pub expand_next : Text → Text → Outcome ReturnErr (Text × Text)
  expand_next out [] = expand_one out []
  expand_next out (c ∷ tail) = elim (c == dollar) [
    | true ↦ success (out ++ (dollar ∷ []), tail)
    | false ↦ expand_one out (c ∷ tail)
  ]

  -- The loop, on fuel.
  unfoldable pub expand : ℕ → Text → Text → Outcome ReturnErr Text
  expand zero out rest = failure out_of_fuel
  expand (suc fuel) out rest = elim (find_dollar rest) [
    | none ↦ success (out ++ rest)
    | some (before, behind) ↦ do
      (out', rest') ← expand_next (out ++ before) behind
      expand fuel out' rest'
  ]

  unfoldable pub expand_return : Text → Outcome ReturnErr Text
  expand_return template = expand (suc (length template)) [] template
