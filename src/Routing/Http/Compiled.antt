-- ===== src/Routing/Http/Compiled.antt =====
-- What compiling a match keeps of it.
use ngxora.Base.{
  ℕ, ◌≡◌, inl, inr, refl, sym, ◌∙◌, arith, Bool, List, [], ◌∷◌, Option, none, some, Text, ◌==◌,
  text_eq, false, if◌then◌else◌, text_eq_iff, text_eq_refl, trim_end_matches, Bool-cases, lookup,
  Unique, text_has_eq,
}
use ngxora.Outcome.{success, ok_or, success_inj, ok_or-success, >>=-success, >>-success, >>-both}
use ngxora.Compile.Ir.Matches.{HttpMatch, HttpPathMatch, exact, path_prefix}
use ngxora.Routing.Http.{
  invalid_method, invalid_header_name, invalid_header_value, slash, prefix_matches, has_seen,
  retain_first, compile_path, path_of, validate_path, compile_headers, is_valid_method,
  compile_match, path_matches,
}

trim_end_matches_goes_on :
    (c x : ℕ) (t : Text) (y : ℕ) (ys : Text)
    → trim_end_matches c t ≡ y ∷ ys
    → trim_end_matches c (x ∷ t) ≡ x ∷ (y ∷ ys)
unfolding trim_end_matches
trim_end_matches_goes_on c x t y ys h = rw (h, trim_end_matches) refl

trim_end_matches-trim_end_matches :
    (c : ℕ) (t : Text) → trim_end_matches c (trim_end_matches c t) ≡ trim_end_matches c t
unfolding trim_end_matches
trim_end_matches-trim_end_matches c [] = refl
trim_end_matches-trim_end_matches c (x ∷ t) =
    by_rest (trim_end_matches c t) (trim_end_matches-trim_end_matches c t)
  where
    step : Text → Text
    step [] = if x == c then [] else x ∷ []
    step (y ∷ ys) = x ∷ (y ∷ ys)

    by_rest : (r : Text) → trim_end_matches c r ≡ r → trim_end_matches c (step r) ≡ step r
    by_rest [] h = elim (Bool-cases (x == c)) [ inl q ↦ rw q refl | inr q ↦ rw q (rw q refl) ]
    by_rest (y ∷ ys) h = trim_end_matches_goes_on c x (y ∷ ys) y ys h

compile_path_lem :
    (p : HttpPathMatch) (path : Text) → path_matches (compile_path p) path ≡ path_matches p path
unfolding path_matches compile_path prefix_matches trim_end_matches
compile_path_lem (exact p) path = refl
compile_path_lem (path_prefix p) path = by_trimmed (trim_end_matches slash p) refl
  where
    by_trimmed :
        (t : Text)
        → trim_end_matches slash p ≡ t
        → path_matches (compile_path (path_prefix p)) path ≡ prefix_matches p path
    by_trimmed [] e = rw (e, compile_path, prefix_matches) refl
    by_trimmed (c ∷ t) e =
        let same : trim_end_matches slash (c ∷ t) ≡ c ∷ t =
          (let f = trim_end_matches-trim_end_matches slash p in cc) in
        rw (e, same, compile_path, prefix_matches) refl

-- The first value of each name stays.
lookup-retain_first :
    (seen : List Text) (k : Text) (m : List (Text × Text))
    → lookup k (retain_first seen m) ≡ (if has_seen seen k then none else lookup k m)
unfolding lookup retain_first
lookup-retain_first seen k [] = elim (Bool-cases (has_seen seen k)) [
  | inl q ↦ rw q refl
  | inr q ↦ rw q refl
]
lookup-retain_first seen k ((n, v) ∷ m) = ground (
  arith,
  lookup-retain_first seen k m,
  lookup-retain_first (n ∷ seen) k m,
  text_eq_iff k n,
  text_eq_iff n k,
)

retain_first-Unique : (seen : List Text) (m : List (Text × Text)) → Unique (retain_first seen m)
unfolding retain_first
retain_first-Unique seen [] = tt
retain_first-Unique seen ((n, v) ∷ m) = elim (Bool-cases (has_seen seen n)) [
  | inl q ↦ rw q (retain_first-Unique seen m)
  | inr q ↦ rw q (
    lookup-retain_first (n ∷ seen) n m ∙ rw (text_eq_refl n) refl,
    retain_first-Unique (n ∷ seen) m,
  )
]

-- Whether a header's name reads as a name, where `read` is that of the header.
abbrev reads : Option Text → Text → Bool
reads none name = false
reads (some read) name = text_eq read name

-- The value of the first header whose name reads as the name.
unfoldable pub first_value : (Text → Option Text) → Text → List (Text × Text) → Option Text
first_value header_name name [] = none
first_value header_name name ((written, value) ∷ headers) =
    if reads (header_name written) name then some value else first_value header_name name headers

lookup-first_value :
    (header_name : Text → Option Text) (written read value name : Text)
    (headers rest : List (Text × Text))
    → header_name written ≡ some read
    → lookup name rest ≡ first_value header_name name headers
    → lookup name ((read, value) ∷ rest) ≡ first_value header_name name ((written, value) ∷ headers)
unfolding lookup first_value
lookup-first_value header_name written read value name headers rest q ih =
    elim (Bool-cases (text_eq read name)) [
      | inl t ↦ rw (t, lookup) (rw (q, first_value) (rw t refl))
      | inr f ↦ rw (f, lookup) (rw (q, first_value) (rw f ih))
    ]

abbrev compiled : HttpMatch → List (Text × Text) → HttpMatch
compiled m headers = record {
  path = compile_path m.path;
  method = m.method;
  headers = retain_first [] headers;
  query_params = retain_first [] m.query_params;
}

module _ (is_path_and_query is_method is_header_value : Text → Bool)
    (header_name : Text → Option Text) where
  lookup-compile_headers :
      (headers headers' : List (Text × Text)) (name : Text)
      → compile_headers is_path_and_query is_method is_header_value header_name headers
        ≡ success headers'
      → lookup name headers' ≡ first_value header_name name headers
  unfolding compile_headers lookup first_value
  lookup-compile_headers [] headers' name h = let e = success_inj [] headers' h in rw (sym e) refl
  lookup-compile_headers ((written, value) ∷ headers) headers' name h =
      let (read, r, h1) = >>=-success (ok_or invalid_header_name (header_name written)) _ h in
      let (_, h2) = >>-success (is_header_value value) invalid_header_value _ h1 in
      let (rest, k, h3) =
        >>=-success
          (compile_headers is_path_and_query is_method is_header_value header_name headers) _ h2 in
      let q = ok_or-success invalid_header_name (header_name written) r in
      let e = success_inj ((read, value) ∷ rest) headers' h3 in
      rw (sym e) (
        lookup-first_value header_name written read value name headers rest q
          (lookup-compile_headers headers rest name k))

  -- A match that compiles keeps what it means: its path matches the same paths, its method is the
  -- same, under each name it has the value of the first header whose name reads as this name, and of
  -- the first query parameter with this name, and no header or parameter is named twice.
  pub compile_match_lem :
      (m m' : HttpMatch)
      → compile_match is_path_and_query is_method is_header_value header_name m ≡ success m'
      → ((path : Text) → path_matches m'.path path ≡ path_matches m.path path)
        × ((m'.method ≡ m.method)
            × (((name : Text) → lookup name m'.headers ≡ first_value header_name name m.headers)
                × (((name : Text) → lookup name m'.query_params ≡ lookup name m.query_params)
                    × (Unique m'.headers × Unique m'.query_params))))
  unfolding compile_match
  compile_match_lem m m' h =
      let (_, h1) =
        >>-both
          (validate_path is_path_and_query is_method is_header_value header_name (path_of m.path)) _
          h in
      let (_, h2) =
        >>-success
          (is_valid_method is_path_and_query is_method is_header_value header_name m.method)
          invalid_method _ h1 in
      let (headers, k, h3) =
        >>=-success
          (compile_headers is_path_and_query is_method is_header_value header_name m.headers) _
          h2 in
      let e : m' ≡ compiled m headers = (cc) in
      rw e (
        compile_path_lem m.path,
        (
          refl,
          (
            λ name.
                lookup-retain_first [] name headers
                ∙ lookup-compile_headers m.headers headers name k,
            (
              λ name. lookup-retain_first [] name m.query_params,
              (retain_first-Unique [] headers, retain_first-Unique [] m.query_params),
            ),
          ),
        ),
      )
