-- ===== src/Routing/Return/Anywhere.antt =====
-- Whether a template expands does not depend on the values of its variables.
use ngxora.Base.{
  ℕ, zero, suc, ◌≡◌, refl, ap, Bool, true, false, [], ◌∷◌, ◌++◌, Text, codes, ◌==◌, length, text_eq,
  Bool-cases, Option-cases, inl, inr,
}
use ngxora.Outcome.{Outcome, success, >>=-success, success_inj}
use ngxora.Routing.Return.{
  ReturnErr, dollar, find_dollar, split_name, variable, expand_one, expand_next, expand,
  expand_return,
}

-- The text behind a variable is the same too.
abbrev Goes : Outcome ReturnErr (Text × Text) → Text → Type 0
Goes o rest = (out : Text) × (o ≡ success (out, rest))

branch :
    (test : Bool) (x y x' y' : Outcome ReturnErr (Text × Text)) {end : Text × Text}
    → elim test [ true ↦ x | false ↦ y ] ≡ success end
    → (x ≡ success end → Goes x' end.1)
    → (y ≡ success end → Goes y' end.1)
    → Goes (elim test [ true ↦ x' | false ↦ y' ]) end.1
branch true x y x' y' h f g = f h
branch false x y x' y' h f g = g h

module _ (host uri scheme host' uri' scheme' : Text) where
  variable-anywhere :
      (name : Text) {value : Text}
      → variable host uri scheme name ≡ success value
      → (value' : Text) × (variable host' uri' scheme' name ≡ success value')
  unfolding variable
  variable-anywhere name h = elim (Bool-cases (text_eq name (codes "host"))) [
    | inl p ↦ (host', rw p)
    | inr p ↦ elim (Bool-cases (text_eq name (codes "request_uri"))) [
      | inl q ↦ (uri', rw (p, q))
      | inr q ↦ elim (Bool-cases (text_eq name (codes "scheme"))) [
        | inl r ↦ (scheme', rw (p, q, r))
        | inr r ↦
            absurd (let d = rw (p, variable) at h in let e = rw q at d in let f = rw r at e in cc)
      ]
    ]
  ]

  expand_one-anywhere :
      (out out' rest : Text) {end : Text × Text}
      → expand_one host uri scheme out rest ≡ success end
      → Goes (expand_one host' uri' scheme' out' rest) end.1
  unfolding expand_one
  expand_one-anywhere out out' rest {end} h =
      let (value, f, h1) = >>=-success (variable host uri scheme (split_name rest).0) _ h in
      let (value', g) = variable-anywhere (split_name rest).0 f in
      let this = success_inj (out ++ value, (split_name rest).1) end h1 in
      (out' ++ value', rw (g, expand_one) (rw (← this) refl))

  expand_next-anywhere :
      (out out' rest : Text) {end : Text × Text}
      → expand_next host uri scheme out rest ≡ success end
      → Goes (expand_next host' uri' scheme' out' rest) end.1
  unfolding expand_next
  expand_next-anywhere out out' [] h = expand_one-anywhere out out' [] h
  expand_next-anywhere out out' (c ∷ tail) {end} h =
      branch (c == dollar) (success (out ++ (dollar ∷ []), tail))
        (expand_one host uri scheme out (c ∷ tail)) (success (out' ++ (dollar ∷ []), tail))
        (expand_one host' uri' scheme' out' (c ∷ tail)) h
        (λ e. (
          out' ++ (dollar ∷ []),
          ap (λ (p : Text × Text). success (out' ++ (dollar ∷ []), p.1)) (success_inj _ end e),
        ))
        (λ e. expand_one-anywhere out out' (c ∷ tail) e)

  expand-anywhere :
      (fuel : ℕ) (out out' rest : Text) {text : Text}
      → expand host uri scheme fuel out rest ≡ success text
      → (text' : Text) × (expand host' uri' scheme' fuel out' rest ≡ success text')
  unfolding expand
  expand-anywhere zero out out' rest h = cc
  expand-anywhere (suc fuel) out out' rest h = elim (Option-cases (find_dollar rest)) [
    | inl e ↦ (out' ++ rest, rw (e, expand) refl)
    | inr ((before, behind), e) ↦
        let (end, f, h1) =
          >>=-success (expand_next host uri scheme (out ++ before) behind) _
            (rw (e, expand) at h) in
        let (o, g) = expand_next-anywhere (out ++ before) (out' ++ before) behind f in
        let (text', i) = expand-anywhere fuel end.0 o end.1 h1 in (text', rw (e, expand) (rw g i))
  ]

  pub expand_return-anywhere :
      (template : Text) {text : Text}
      → expand_return host uri scheme template ≡ success text
      → (text' : Text) × (expand_return host' uri' scheme' template ≡ success text')
  unfolding expand_return
  expand_return-anywhere template h = expand-anywhere (suc (length template)) [] [] template h
