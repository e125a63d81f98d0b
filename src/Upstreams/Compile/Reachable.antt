-- ===== src/Upstreams/Compile/Reachable.antt =====
-- compile.rs: the locations that a compiled router reaches, and their numbers.
use ngxora.Base.{
  ℕ, ◌+◌, ◌<◌, ◌≤◌, ◌^◌, ◌≡◌, subst, arith, List, [], ◌∷◌, ◌++◌, length, length-append, text_has_eq,
  All, All-append, All-both, Holds_all, Holds, Holds-append_right,
}
use ngxora.Outcome.{success, >>=-success, success_inj}
use ngxora.Compile.Ir.{Server}
use ngxora.Routing.Resolve.{listen_key_has_eq}
use ngxora.Routing.Types.{CompiledLocation}
use ngxora.Upstreams.Crates.{Crates}
use ngxora.Upstreams.Compile.Servers.{Listeners}
use ngxora.Upstreams.Compile.Router.{Context, is_on, add_server, add_servers}
use ngxora.Upstreams.Compile.Parts.{add_server-IsAdded}
use ngxora.Upstreams.Compile.Naming.{AreNamed, IsResolved}
use ngxora.Upstreams.Compile.Resolving.{IsChecked, compile_locations-AreResolved}
use ngxora.Upstreams.Compile.Identity.{IsNumbered, IsNumbered-append, compile_locations-IsCounted}
use ngxora.Upstreams.Compile.Hosting.{check_profiles_lem}
use ngxora.Upstreams.Compile.Reaching.{AreListening, AreListening-mono, add_listens-AreListening}

-- The locations of the servers.
unfoldable pub location_count : List Server → ℕ
location_count [] = 0
location_count (server ∷ rest) = length server.locations + location_count rest

-- The compiled locations in their order, with what the listeners reach of them.
pub record IsBook (c : Context) (book : List CompiledLocation) (r : Listeners) (n : ℕ)
    : Type 0 where
  pub numbered : IsNumbered 1 book
  pub next : n ≡ 1 + length book
  pub resolved :
      All (λ (l : CompiledLocation). IsResolved c.upstreams l.target × IsChecked l.target) book
  pub listening : AreListening c.profiles (is_on c.http.h2c) book r

module _ (crates : Crates) where
  add_server-IsBook :
      (c : Context) (server : Server) (book : List CompiledLocation) (r : Listeners) (n : ℕ)
      {end : Listeners × ℕ}
      → AreNamed c.upstreams
      → n + length server.locations < 2 ^ 64
      → IsBook c book r n
      → add_server crates c server (r, n) ≡ success end
      → (more : List CompiledLocation) × IsBook c (book ++ more) end.0 end.1
        × (end.1 ≤ n + length server.locations)
  add_server-IsBook c server book r n {end} named small is h =
      let added = add_server-IsAdded crates c server r n h in
      let more = added.locations in
      let h2c = is_on c.http.h2c in
      let counted =
        compile_locations-IsCounted crates server.locations c.upstreams n added.compiled small in
      let servable = check_profiles_lem c.profiles h2c server.listens more added.checked in
      let listed =
        Holds_all (λ (l : CompiledLocation). Holds l (book ++ more)) more
          (λ l p. Holds-append_right book more p) in
      let new =
        add_listens-AreListening c.profiles h2c crates c.http.ssl_provider server
          (record { locations = more }) server.listens (book ++ more) r
          (All-both _ _ more listed servable)
          (AreListening-mono c.profiles h2c book more r is.listening) added.listened in
      (
        more,
        record {
          numbered =
              IsNumbered-append 1 book more is.numbered
                (subst (λ k. IsNumbered k more) is.next counted.numbered);
          next = omega (arith, counted.next_is, is.next, length-append book more);
          resolved = All-append _ book more is.resolved (
              compile_locations-AreResolved crates c.upstreams named server.locations n
                added.compiled);
          listening = new;
        },
        omega (arith, counted.next_is, counted.bounded),
      )

  pub add_servers-IsBook :
      (c : Context) (servers : List Server) (book : List CompiledLocation) (r : Listeners) (n : ℕ)
      {end : Listeners × ℕ}
      → AreNamed c.upstreams
      → n + location_count servers < 2 ^ 64
      → IsBook c book r n
      → add_servers crates c servers (r, n) ≡ success end
      → (book' : List CompiledLocation) × IsBook c book' end.0 end.1
  unfolding add_servers location_count
  add_servers-IsBook c [] book r n {end} named small is h =
      (book, subst (λ (p : Listeners × ℕ). IsBook c book p.0 p.1) (success_inj (r, n) end h) is)
  add_servers-IsBook c (server ∷ rest) book r n {end} named small is h =
      let (mid, f, h1) = >>=-success (add_server crates c server (r, n)) _ h in
      let (more, is', bound) = add_server-IsBook c server book r n named (omega arith) is f in
      add_servers-IsBook c rest (book ++ more) mid.0 mid.1 named (omega arith) is' h1
