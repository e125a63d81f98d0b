-- ===== src/Tests/Profiles.antt =====
-- A group that routes find and profiles do not.
use ngxora.Base.{
  ◌≡◌, ◌≢◌, refl, [], ◌∷◌, some, codes, text_eq, text_eq_iff, true, text_has_eq, lookup, insert,
  remove, trim_end_matches,
}
use ngxora.ClientIp.{trim_start}
use ngxora.Config.Lexer.{is_whitespace}
use ngxora.Outcome.{success, failure}
use ngxora.Tests.Assembling.{crates, web, web_group}
use ngxora.Upstreams.Scp.{unknown_discovery, check_discoveries}
use ngxora.Upstreams.Compile.Groups.{
  normalize_upstream_name, compile_upstream_server, compile_upstream_servers, total_weight,
  check_upstream, compile_upstream, compile_upstreams_from, compile_upstreams,
}
use ngxora.Upstreams.Compile.Spelling.{check_discoveries-unnormalized}

groups : compile_upstreams crates (web ∷ []) ≡ success ((codes "web", web_group) ∷ [])
unfolding compile_upstreams compile_upstreams_from compile_upstream check_upstream total_weight
    compile_upstream_servers compile_upstream_server normalize_upstream_name trim_start
    is_whitespace lookup insert remove trim_end_matches
groups = refl

found : lookup (codes "web") ((codes "web", web_group) ∷ []) ≡ some web_group
unfolding lookup text_eq
found = refl

unnormalized : normalize_upstream_name (codes "Web") ≢ codes "Web"
unfolding normalize_upstream_name trim_end_matches text_eq
unnormalized e =
    let same : text_eq (normalize_upstream_name (codes "Web")) (codes "Web") ≡ true =
      (text_eq_iff (normalize_upstream_name (codes "Web")) (codes "Web")).1 e in
    cc

check_discoveries-unnormalized_example :
    (lookup (normalize_upstream_name (codes "Web")) ((codes "web", web_group) ∷ [])
      ≡ some web_group)
    × (check_discoveries ((codes "web", web_group) ∷ []) (codes "Web" ∷ []) []
        ≡ failure (unknown_discovery (codes "Web")))
check_discoveries-unnormalized_example =
    check_discoveries-unnormalized crates (web ∷ []) ((codes "web", web_group) ∷ []) (codes "web")
      web_group [] [] groups found unnormalized
