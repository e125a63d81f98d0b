-- ===== src/Routing/Return/Loop.antt =====
-- The loop of `expand_return` ends.
use ngxora.Base.{
  ℕ, zero, suc, ◌<◌, ◌≤◌, ◌≡◌, ◌≢◌, arith, [], ◌∷◌, ◌++◌, some, Text, ◌==◌, length, Bool-cases,
  Option-cases, inl, inr,
}
use ngxora.Outcome.{success, failure, >>=-success, >>=-failure}
use ngxora.Routing.Return.{
  out_of_fuel, dollar, find_dollar, split_name, variable, expand_one, expand_next, expand,
  expand_return,
}

find_dollar_shrinks :
    (text before behind : Text)
    → find_dollar text ≡ some (before, behind)
    → length behind < length text
unfolding find_dollar
find_dollar_shrinks [] b a h = cc
find_dollar_shrinks (c ∷ text) b a h = elim (Option-cases (find_dollar text)) [
  | inl e ↦ let k = rw (e, find_dollar) at h in ground arith
  | inr ((before, behind), e) ↦
      let s = find_dollar_shrinks text before behind e in
      let k = rw (e, find_dollar) at h in ground arith
]

split_name_shrinks : (text : Text) → length (split_name text).1 ≤ length text
unfolding split_name
split_name_shrinks [] = omega arith
split_name_shrinks (c ∷ text) = ground (arith, split_name_shrinks text)

module _ (host uri scheme : Text) where
  expand_next_shrinks :
      (out rest out' rest' : Text)
      → expand_next host uri scheme out rest ≡ success (out', rest')
      → length rest' ≤ length rest
  unfolding expand_next expand_one
  expand_next_shrinks out [] out' rest' h =
      let (v, e, k) = >>=-success (variable host uri scheme (split_name []).0) _ h in
      let s = split_name_shrinks [] in ground arith
  expand_next_shrinks out (c ∷ tail) out' rest' h = elim (Bool-cases (c == dollar)) [
    | inl q ↦ let k = rw (q, expand_next) at h in ground arith
    | inr q ↦
        let (v, e, k) =
          >>=-success (variable host uri scheme (split_name (c ∷ tail)).0) _
            (rw (q, expand_next) at h) in
        let s = split_name_shrinks (c ∷ tail) in ground arith
  ]

  expand_one-ne-out_of_fuel :
      (out rest : Text) → expand_one host uri scheme out rest ≢ failure out_of_fuel
  unfolding expand_one variable
  expand_one-ne-out_of_fuel out rest h = ground arith

  expand_next-ne-out_of_fuel :
      (out rest : Text) → expand_next host uri scheme out rest ≢ failure out_of_fuel
  unfolding expand_next
  expand_next-ne-out_of_fuel out [] h = expand_one-ne-out_of_fuel out [] h
  expand_next-ne-out_of_fuel out (c ∷ tail) h = elim (Bool-cases (c == dollar)) [
    | inl q ↦ let k = rw (q, expand_next) at h in cc
    | inr q ↦ expand_one-ne-out_of_fuel out (c ∷ tail) (rw (q, expand_next) at h)
  ]

  expand-ne-out_of_fuel :
      (fuel : ℕ) (out rest : Text)
      → length rest < fuel
      → expand host uri scheme fuel out rest ≢ failure out_of_fuel
  unfolding expand
  expand-ne-out_of_fuel zero out rest l h = omega (arith, l)
  expand-ne-out_of_fuel (suc fuel) out rest l h = elim (Option-cases (find_dollar rest)) [
    | inl e ↦ let k = rw (e, expand) at h in cc
    | inr ((before, behind), e) ↦
        elim (>>=-failure (expand_next host uri scheme (out ++ before) behind) _
          (rw (e, expand) at h)) [
            | inl f ↦ expand_next-ne-out_of_fuel (out ++ before) behind f
            | inr ((out', rest'), f, g) ↦
                let s = expand_next_shrinks (out ++ before) behind out' rest' f in
                let t = find_dollar_shrinks rest before behind e in
                expand-ne-out_of_fuel fuel out' rest' (omega (arith, s, t, l)) g
          ]
  ]

  -- The loop of `expand_return` ends: it does not run out of fuel on any template.
  pub expand_return-ne-out_of_fuel :
      (template : Text) → expand_return host uri scheme template ≢ failure out_of_fuel
  unfolding expand_return
  expand_return-ne-out_of_fuel template =
      expand-ne-out_of_fuel (suc (length template)) [] template (omega arith)
