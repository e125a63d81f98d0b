-- ===== src/Routing/Resolve/Choice.antt =====
-- The choice of an HTTP route over the candidates of a request.
use ngxora.Base.{
  ◌≡◌, ◌⊎◌, inl, inr, refl, subst, arith, true, false, List, [], ◌∷◌, Option, none, some, All,
  Holds, here, there, Bool-cases, Option-cases,
}
use ngxora.Routing.Types.{CompiledLocation, ServerRoutes}
use ngxora.Routing.Hostname.{Score, score_lt}
use ngxora.Routing.Http.{RequestHeader, MatchScore}
use ngxora.Routing.Resolve.{
  has_http, http_score, best_location, http_route, insert_by_score, sort_by_score,
}
use ngxora.Routing.Resolve.Best.{
  IsBeaten, Matches, IsBest, best_location-IsBest, best_location-none,
}

abbrev pub Candidate : Type 0
Candidate = Score × ServerRoutes

-- The greatest scores first.
abbrev pub IsNotLess : Candidate → Candidate → Type 0
IsNotLess c d = score_lt c.0 d.0 ≡ false

abbrev pub IsSorted : List Candidate → Type 0
IsSorted [] = Unit
IsSorted (c ∷ cs) = All (IsNotLess c) cs × IsSorted cs

score_lt_asym : (a b : Score) → score_lt a b ≡ true → score_lt b a ≡ false
score_lt_asym (false, a) (true, b) h = refl
score_lt_asym (true, a) (false, b) h = cc
score_lt_asym (false, a) (false, b) h = ground arith
score_lt_asym (true, a) (true, b) h = ground arith

-- The order of the candidates is transitive.
score_lt_trans :
    (a b c : Score) → score_lt a b ≡ false → score_lt b c ≡ false → score_lt a c ≡ false
score_lt_trans (false, a) (false, b) (false, c) h k = ground arith
score_lt_trans (true, a) (true, b) (true, c) h k = ground arith
score_lt_trans (true, a) b (false, c) h k = refl
score_lt_trans (false, a) (true, b) c h k = cc
score_lt_trans (true, a) (false, b) (true, c) h k = cc
score_lt_trans (false, a) (false, b) (true, c) h k = cc

All-map :
    {P Q : Candidate → Type 0} (cs : List Candidate)
    → ((c : Candidate) → P c → Q c)
    → All P cs
    → All Q cs
All-map [] f a = tt
All-map (c ∷ cs) f (p, a) = (f c p, All-map cs f a)

insert_by_score-All :
    (P : Candidate → Type 0) (c : Candidate) (cs : List Candidate)
    → P c
    → All P cs
    → All P (insert_by_score c cs)
unfolding insert_by_score
insert_by_score-All P c [] p a = (p, tt)
insert_by_score-All P c (d ∷ cs) p (q, a) = elim (Bool-cases (score_lt c.0 d.0)) [
  | inl e ↦ rw e (q, insert_by_score-All P c cs p a)
  | inr e ↦ rw e (p, (q, a))
]

insert_by_score-IsSorted :
    (c : Candidate) (cs : List Candidate) → IsSorted cs → IsSorted (insert_by_score c cs)
unfolding insert_by_score
insert_by_score-IsSorted c [] a = (tt, tt)
insert_by_score-IsSorted c (d ∷ cs) (a, s) = elim (Bool-cases (score_lt c.0 d.0)) [
  | inl e ↦ rw e (
    insert_by_score-All (IsNotLess d) c cs (score_lt_asym c.0 d.0 e) a,
    insert_by_score-IsSorted c cs s,
  )
  | inr e ↦ rw e ((e, All-map cs (λ b h. score_lt_trans c.0 d.0 b.0 e h) a), (a, s))
]

pub sort_by_score-IsSorted : (cs : List Candidate) → IsSorted (sort_by_score cs)
unfolding sort_by_score
sort_by_score-IsSorted [] = tt
sort_by_score-IsSorted (c ∷ cs) =
    insert_by_score-IsSorted c (sort_by_score cs) (sort_by_score-IsSorted cs)

insert_by_score-All_iff :
    (P : Candidate → Type 0) (c : Candidate) (cs : List Candidate)
    → All P (insert_by_score c cs)
    → P c × All P cs
unfolding insert_by_score
insert_by_score-All_iff P c [] a = a
insert_by_score-All_iff P c (d ∷ cs) a = elim (Bool-cases (score_lt c.0 d.0)) [
  | inl e ↦
      let (q, a') = rw e at a in let (p, a'') = insert_by_score-All_iff P c cs a' in (p, (q, a''))
  | inr e ↦ rw e at a
]

-- The same candidates stand in the sorted list.
sort_by_score-All :
    (P : Candidate → Type 0) (cs : List Candidate) → All P cs → All P (sort_by_score cs)
unfolding sort_by_score
sort_by_score-All P [] a = tt
sort_by_score-All P (c ∷ cs) (p, a) =
    insert_by_score-All P c (sort_by_score cs) p (sort_by_score-All P cs a)

All-sort_by_score :
    (P : Candidate → Type 0) (cs : List Candidate) → All P (sort_by_score cs) → All P cs
unfolding sort_by_score
All-sort_by_score P [] a = tt
All-sort_by_score P (c ∷ cs) a =
    let (p, a') = insert_by_score-All_iff P c (sort_by_score cs) a in (p, All-sort_by_score P cs a')

All-Holds : (cs : List Candidate) → All (λ (c : Candidate). Holds c cs) cs
All-Holds [] = tt
All-Holds (c ∷ cs) = (here, All-map cs (λ d h. there h) (All-Holds cs))

Holds-All :
    (P : Candidate → Type 0) (c : Candidate) (cs : List Candidate) → Holds c cs → All P cs → P c
Holds-All P c [] h a = elim h [ ]
Holds-All P c (_ ∷ cs) here (p, a) = p
Holds-All P c (d ∷ cs) (there h) (p, a) = Holds-All P c cs h a

-- No location of a candidate matches the request.
abbrev pub IsMissed : RequestHeader → Candidate → Type 0
IsMissed request c =
    All (λ (l : CompiledLocation). http_score request l.matcher ≡ none) c.1.locations

abbrev pub IsPassed : RequestHeader → Score → Candidate → Type 0
IsPassed request score c = score_lt score c.0 ≡ true → IsMissed request c

-- The location is a best match of one of the candidates, and no candidate of a greater score has
-- any match.
pub record IsChosen (request : RequestHeader) (cs : List Candidate) (l : CompiledLocation)
    : Type 0 where
  pub candidate : Candidate
  pub score : MatchScore
  pub listed : Holds candidate cs
  pub located : Holds l candidate.1.locations
  pub matched : Matches request l score
  pub best : All (IsBeaten request score) candidate.1.locations
  pub passed : All (IsPassed request candidate.0) cs

chosen :
    (request : RequestHeader) (c : Candidate) (cs : List Candidate) (l : CompiledLocation)
    (t : MatchScore)
    → All (IsNotLess c) cs
    → IsBest request c.1.locations none t l
    → IsChosen request (c ∷ cs) l
chosen request c cs l t a b =
    let (h, m) = found b.found in
    record {
      candidate = c;
      score = t;
      listed = here;
      located = h;
      matched = m;
      best = b.beaten;
      passed = (
        λ k. absurd (let e = score_lt_asym c.0 c.0 k in cc),
        All-map cs (λ d n k. absurd (let e = n in cc)) a,
      );
    }
  where
    found :
        ◌≡◌ {A = Option (MatchScore × CompiledLocation)} none (some (t, l))
          ⊎ (Holds l c.1.locations × Matches request l t)
        → Holds l c.1.locations × Matches request l t
    found (inl e) = cc
    found (inr f) = f

http_route_lem :
    (request : RequestHeader) (cs : List Candidate) (l : CompiledLocation)
    → IsSorted cs
    → http_route request cs ≡ some l
    → IsChosen request cs l
unfolding http_route
http_route_lem request [] l s h = cc
http_route_lem request ((score, routes) ∷ cs) l (a, s) h =
    elim (Bool-cases (has_http routes.locations)) [
      | inr q ↦ let k = rw (q, http_route) at h in cc
      | inl q ↦ elim (Option-cases (best_location request routes.locations none)) [
        | inl e ↦
            let r = http_route_lem request cs l s (rw (q, e, http_route) at h) in
            record {
              candidate = r.candidate;
              score = r.score;
              listed = there r.listed;
              located = r.located;
              matched = r.matched;
              best = r.best;
              passed = (λ k. (best_location-none request routes.locations none e).1, r.passed);
            }
        | inr ((t, m), e) ↦
            let same : m ≡ l = (let k = rw (q, e, http_route) at h in cc) in
            subst (IsChosen request ((score, routes) ∷ cs)) same (
              chosen request (score, routes) cs m t a
                (best_location-IsBest request routes.locations none t m e))
      ]
    ]

-- A location that the HTTP rules choose stands in a candidate virtual server and matches the request,
-- no match of that server has a greater score, and in a candidate whose host name matches with a
-- greater score no location matches.
pub http_route-IsChosen :
    (request : RequestHeader) (cs : List Candidate) (l : CompiledLocation)
    → http_route request (sort_by_score cs) ≡ some l
    → IsChosen request cs l
http_route-IsChosen request cs l h =
    let r = http_route_lem request (sort_by_score cs) l (sort_by_score-IsSorted cs) h in
    record {
      candidate = r.candidate;
      score = r.score;
      listed =
          Holds-All (λ (c : Candidate). Holds c cs) r.candidate (sort_by_score cs) r.listed
            (sort_by_score-All (λ (c : Candidate). Holds c cs) cs (All-Holds cs));
      located = r.located;
      matched = r.matched;
      best = r.best;
      passed = All-sort_by_score (IsPassed request r.candidate.0) cs r.passed;
    }
