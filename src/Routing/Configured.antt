-- ===== src/Routing/Configured.antt =====
-- routing.py: every configured repository has the route of its own upstream.
use Prim.Native.Char.{Char, code}
use Prim.Native.String
use Prim.Native.String.append
use text.Mathlib.TextBridge.{IsPrefix}
use text.Mathlib.TextEquality.{Char-path}
use text.Mathlib.TextPositions.{starts_with_of_prefix}
use repowatch.Prelude.{
  min, ltb, ◌≡◌, refl, ◌∙◌, sym, ap, subst, String, Bool, true, false, ◌&&◌, Option, none, some,
  List, [], ◌∷◌, ◌++◌, arith, ◌==◌, nat_keys, text_keys, nat_eq_iff, eq_iff, lookup, insert,
  lookup-insert, Result, err, ok, raise_if, ◌>>=◌, ◌>>◌, >>=-eq-ok, Bool-cases, inl, inr,
}
use repowatch.Routing.Characters.{rstrip}
use repowatch.Routing.Templates.{
  RepoConfig, reserved_root, nonpositive_ttl, conflicting_types, conflicting_upstreams,
}
use repowatch.Routing.{Url, Library, Config, ◌+◌, package_prefix, parsed}
use repowatch.Routing.Unique.{compute_routes-overlaps, find_route-compute_routes}
use repowatch.Routing.Routes.{
  Route, Routes, Computed, uri, check_upstream, local_prefix, remote_of, add_route, add_repo,
  add_repos, nothing, own_route, add_own, effective_check_interval, compute_routes, for_repo, Bound,
  key_prefix, after as after_route, conflicts, with_ttl, has_other_kind,
}

one_slash : (c : Char) → code c ≡ b'/' → String.◌∷◌ c String.[] ≡ "/"
one_slash c h = λ i. String.◌∷◌ (Char-path c "/" h i) String.[]

-- What is stripped off the end of a path are slashes.
rstrip-IsPrefix : (p : String) → IsPrefix (rstrip p + "/") (p + "/")
unfolding rstrip
rstrip-IsPrefix String.[] = (String.[], refl)
rstrip-IsPrefix (String.◌∷◌ c s) =
    let (r, e) = rstrip-IsPrefix s in
    elim (Bool-cases (code c == b'/' && rstrip s == "")) [
      | inl slash ↦
          let head : String.◌∷◌ c String.[] ≡ "/" =
            one_slash c (ground (arith, slash, nat_eq_iff (code c) b'/')) in
          rw slash (
            s + "/",
            ap (λ t. String.◌++◌ t (s + "/")) (append.nil "/" ∙ sym head)
                ∙ append.cons c String.[] (s + "/")
                ∙ ap (λ t. String.◌∷◌ c t) (append.nil (s + "/"))
                ∙ sym (append.cons c s "/"),
          )
      | inr other ↦ rw other (
        r,
        ap (λ t. String.◌++◌ t r) (append.cons c (rstrip s) "/")
            ∙ append.cons c (rstrip s + "/") r
            ∙ ap (λ t. String.◌∷◌ c t) e
            ∙ sym (append.cons c s "/"),
      )
    ]

uri-ok : (v w : String) → uri v ≡ ok w → w ≡ v
unfolding uri
uri-ok v w h = ground (arith, h)

raise_if-ok :
    {E A : Type 0} (test : Bool) (e : E) (next : Result E A) {a : A}
    → (raise_if test e >> next) ≡ ok a
    → (test ≡ false) × (next ≡ ok a)
raise_if-ok true e next h = cc
raise_if-ok false e next h = (refl, h)

parsed-ok : (o : Option Url) (u : Url) → parsed o ≡ ok u → o ≡ some u
parsed-ok none u h = cc
parsed-ok (some v) u h = cc

then-ok :
    {E A : Type 0} (test : Result E (Unit {0})) (next : Result E A) {a : A}
    → (test >> next) ≡ ok a
    → next ≡ ok a
then-ok (ok x) next h = h
then-ok (err e) next h = cc

-- The route of a repository is under its own path and goes to its own upstream.
own_route-ok :
    (l : Library) (c : Config) (repo : RepoConfig) (upstream : Url) (local : String) (route : Route)
    → own_route l c repo upstream ≡ ok (local, route)
    → (prefix : String) × (local_prefix l repo ≡ ok prefix)
      × (local ≡ rstrip prefix + "/")
      × (route.host ≡ upstream.netloc)
unfolding own_route
own_route-ok l c repo upstream local route h =
    let (base, e3, h3) = >>=-eq-ok (uri (rstrip upstream.path + "/")) _ h in
    let (prefix, under, h4) = >>=-eq-ok (local_prefix l repo) _ h3 in
    let (path, e5, h5) = >>=-eq-ok (uri (rstrip prefix + "/")) _ h4 in
    let (remote, e6, h6) = >>=-eq-ok (remote_of repo base) _ h5 in
    let h7 = then-ok (raise_if (path == "/") reserved_root) _ h6 in
    let ttl = min c.index_ttl (effective_check_interval c.check_interval repo) in
    let h8 = then-ok (raise_if (ltb ttl 1) nonpositive_ttl) _ h7 in
    (prefix, under, ground (arith, h8, uri-ok (rstrip prefix + "/") path e5), ground (arith, h8))

add_repo-ok :
    (l : Library) (c : Config) (repo : RepoConfig) (done next : Computed)
    → add_repo l c repo done ≡ ok next
    → (upstream : Url) × (local : String) × (route : Route) × (l.urlsplit repo.upstream
        ≡ some upstream)
      × (own_route l c repo upstream ≡ ok (local, route))
      × (add_route repo.type local route done ≡ ok next)
unfolding add_repo add_route add_own
add_repo-ok l c repo done next h =
    let (upstream, from, h1) = >>=-eq-ok (parsed (l.urlsplit repo.upstream)) _ h in
    let h2 =
      then-ok (check_upstream upstream) (own_route l c repo upstream >>= add_own repo.type done)
        h1 in
    let ((local, route), own, h3) =
      >>=-eq-ok (own_route l c repo upstream) (add_own repo.type done) h2 in
    (upstream, local, route, parsed-ok (l.urlsplit repo.upstream) upstream from, own, h3)

add_route-ok :
    (type local : String) (route : Route) (done next : Computed)
    → add_route type local route done ≡ ok next
    → (conflicts route (lookup local done.routes) ≡ false)
      × (next.routes ≡ insert local (with_ttl route (lookup local done.routes)) done.routes)
unfolding add_route
add_route-ok type local route done next h =
    let h1 =
      (raise_if-ok (has_other_kind type (lookup local done.kinds)) conflicting_types _ h).1 in
    let (calm, h2) =
      raise_if-ok (conflicts route (lookup local done.routes)) conflicting_upstreams _ h1 in
    (calm, ground (arith, h2))

host-with_ttl : (route : Route) (o : Option Route) → (with_ttl route o).host ≡ route.host
host-with_ttl route none = refl
host-with_ttl route (some previous) = refl

host-conflicts : (route t : Route) → conflicts route (some t) ≡ false → route.host ≡ t.host
host-conflicts route t h = ground (arith, h, eq_iff t.host route.host)

-- A route that is there keeps its host.
add_route-host :
    (type local k : String) (route t : Route) (done next : Computed)
    → add_route type local route done ≡ ok next
    → lookup k done.routes ≡ some t
    → (t' : Route) × (lookup k next.routes ≡ some t') × (t'.host ≡ t.host)
add_route-host type local k route t done next h at =
    let (calm, e) = add_route-ok type local route done next h in
    let new = with_ttl route (lookup local done.routes) in
    let stored = ap (lookup k) e ∙ lookup-insert local k new done.routes in
    elim (Bool-cases (local == k)) [
      | inl same ↦
          let key_eq : local ≡ k = (eq_iff local k).0 same in
          (
            new,
            ground (arith, stored, same),
            host-with_ttl route (lookup local done.routes)
                ∙ host-conflicts route t (ground (arith, calm, key_eq, at)),
          )
      | inr other ↦ (t, ground (arith, stored, other, at), refl)
    ]

add_route-own :
    (type local : String) (route : Route) (done next : Computed)
    → add_route type local route done ≡ ok next
    → (t : Route) × (lookup local next.routes ≡ some t) × (t.host ≡ route.host)
add_route-own type local route done next h =
    let (calm, e) = add_route-ok type local route done next h in
    let new = with_ttl route (lookup local done.routes) in
    (
      new,
      ground (arith, e, lookup-insert local local new done.routes, eq_iff local local),
      host-with_ttl route (lookup local done.routes),
    )

add_repos-host :
    (l : Library) (c : Config) (repos : List RepoConfig) (k : String) (t : Route)
    (done next : Computed)
    → add_repos l c repos done ≡ ok next
    → lookup k done.routes ≡ some t
    → (t' : Route) × (lookup k next.routes ≡ some t') × (t'.host ≡ t.host)
unfolding add_repos
add_repos-host l c [] k t done next h at = (t, ground (arith, h, at), refl)
add_repos-host l c (repo ∷ repos) k t done next h at =
    let (mid, e, rest) = >>=-eq-ok (add_repo l c repo done) (λ d. add_repos l c repos d) h in
    let (upstream, local, route, from, own, added) = add_repo-ok l c repo done mid e in
    let (t', at', host) = add_route-host repo.type local k route t done mid added at in
    let (t'', at'', host') = add_repos-host l c repos k t' mid next rest at' in
    (t'', at'', host' ∙ host)

-- What the routes hold for a repository: its path, its upstream and the route.
abbrev Held : Library → RepoConfig → Routes → Type 0
Held l repo routes =
    (prefix : String) × (upstream : Url) × (t : Route) × (package_prefix l repo ≡ ok prefix)
    × (l.urlsplit repo.upstream ≡ some upstream)
    × (lookup (rstrip prefix + "/") routes ≡ some t)
    × (t.host ≡ upstream.netloc)

local_prefix-package_prefix :
    (l : Library) (repo : RepoConfig) → package_prefix l repo ≡ local_prefix l repo
unfolding package_prefix local_prefix
local_prefix-package_prefix l repo = refl

add_repos-Held :
    (l : Library) (c : Config) (before after : List RepoConfig) (repo : RepoConfig)
    (done next : Computed)
    → add_repos l c (before ++ (repo ∷ after)) done ≡ ok next
    → Held l repo next.routes
unfolding add_repos
add_repos-Held l c [] after repo done next h =
    let (mid, e, rest) = >>=-eq-ok (add_repo l c repo done) (λ d. add_repos l c after d) h in
    let (upstream, local, route, from, own, added) = add_repo-ok l c repo done mid e in
    let (prefix, under, same, host) = own_route-ok l c repo upstream local route own in
    let (t, at, host') = add_route-own repo.type local route done mid added in
    let (t', at', host'') = add_repos-host l c after local t mid next rest at in
    (
      prefix,
      upstream,
      t',
      local_prefix-package_prefix l repo ∙ under,
      from,
      subst (λ k. lookup k next.routes ≡ some t') same at',
      host'' ∙ host' ∙ host,
    )
add_repos-Held l c (first ∷ before) after repo done next h =
    let (mid, e, rest) =
      >>=-eq-ok (add_repo l c first done) (λ d. add_repos l c (before ++ (repo ∷ after)) d) h in
    add_repos-Held l c before after repo mid next rest

-- When the routes of a configuration can be computed, the cache keys of each of its repositories
-- can be bound to them, and they begin with the host of that repository's own upstream.
pub for_repo-compute_routes :
    (l : Library) (c : Config) (before after : List RepoConfig) (repo : RepoConfig)
    (done : Computed)
    → c.repos ≡ before ++ (repo ∷ after)
    → compute_routes l c ≡ ok done
    → (b : Bound) × (upstream : Url) × (for_repo l c done.routes repo ≡ ok b)
      × (l.urlsplit repo.upstream ≡ some upstream)
      × (b.key_base ≡ key_prefix c + "http" + upstream.netloc)
unfolding for_repo
for_repo-compute_routes l c before after repo done listed h =
    let repos = (compute_routes-overlaps l c done h).0 in
    let (prefix, upstream, t, under, from, at, host) =
      add_repos-Held l c before after repo nothing done
        (subst (λ rs. add_repos l c rs nothing ≡ ok done) listed repos) in
    let route = rstrip prefix + "/" in
    let found =
      find_route-compute_routes l c done (prefix + "/") route t h at
        (starts_with_of_prefix route (prefix + "/") (rstrip-IsPrefix prefix)) in
    (
      record {
        key_base = key_prefix c + "http" + t.host;
        local = prefix + "/";
        remote = t.remote + after_route route (prefix + "/");
      },
      upstream,
      rw (under, found) refl,
      from,
      ap (λ host. key_prefix c + "http" + host) host,
    )
