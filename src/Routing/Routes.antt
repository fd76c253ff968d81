-- ===== src/Routing/Routes.antt =====
-- routing.py: the routes of a configuration, and the cache key of a file.
use Prim.Native.String
use text.Mathlib.Text.{starts_with}
use repowatch.Prelude.{
  ℕ, min, String, Bool, false, not, ◌&&◌, ◌||◌, Option, none, some, List, [], ◌∷◌, if◌then◌else◌,
  ltb, ◌==◌, nat_keys, text_keys, Assoc, lookup, insert, keys, sorted, Result, err, ok, raise_if,
  ◌>>=◌, ◌>>◌,
}
use repowatch.Routing.Characters.{matches, is_path_char, is_netloc, has_dots, split, rstrip}
use repowatch.Routing.Templates.{
  RepoConfig, RouteError, is_text, plain_upstream, invalid_port, invalid_path, reserved_root,
  nonpositive_ttl, conflicting_types, conflicting_upstreams, overlapping, no_route,
}
use repowatch.Routing.Sorted.{overlaps}
use repowatch.Routing.{
  Url, Library, Config, ◌+◌, apt_prefix, apt_rpm_prefix, repo_prefix, package_prefix, package_path,
  parsed, shown,
}

abbrev is_slash : ℕ → Bool
is_slash n = n == b'/'

-- `_uri`.
unfoldable pub uri : String → Result RouteError String
uri value =
    if not (matches is_slash is_path_char value) || has_dots (split value)
    then err invalid_path
    else ok value

pub record Route : Type 0 where
  pub scheme : String
  pub host : String
  pub remote : String
  pub ttl : ℕ

abbrev pub is_filled : Option String → Bool
is_filled none = false
is_filled (some s) = is_text s

abbrev pub is_plain : Url → Bool
is_plain u =
    (u.scheme == "http" || u.scheme == "https")
    && is_filled u.hostname
    && not (is_filled u.username || is_filled u.password || is_text u.query || is_text u.fragment)
    && is_netloc u.netloc

abbrev pub check_upstream : Url → Result RouteError (Unit {0})
check_upstream u = (do
  raise_if (not (is_plain u)) plain_upstream
  raise_if (not u.has_port) invalid_port)

unfoldable pub local_prefix : Library → RepoConfig → Result RouteError String
local_prefix l repo =
    if repo.type == "apt-rpm"
    then apt_rpm_prefix l repo
    else if repo.type == "apt"
    then apt_prefix l repo
    else repo_prefix l repo

-- Only the paths of apk go on below the upstream's.
unfoldable pub remote_of : RepoConfig → String → Result RouteError String
unfolding uri
remote_of repo remote =
    if repo.type == "apk" then uri (remote + shown repo.arch + "/") else ok remote

abbrev pub effective_check_interval : ℕ → RepoConfig → ℕ
effective_check_interval default repo = elim repo.check_interval [ none ↦ default | some n ↦ n ]

abbrev pub Routes : Type 0
Routes = Assoc String Route

pub record Computed : Type 0 where
  pub routes : Routes
  pub kinds : Assoc String String

abbrev pub has_other_kind : String → Option String → Bool
has_other_kind type none = false
has_other_kind type (some kind) = not (kind == type)

abbrev pub same_target : Route → Route → Bool
same_target a b = a.scheme == b.scheme && a.host == b.host && a.remote == b.remote

abbrev pub conflicts : Route → Option Route → Bool
conflicts route none = false
conflicts route (some previous) = not (same_target previous route)

abbrev pub with_ttl : Route → Option Route → Route
with_ttl route none = route
with_ttl route (some previous) = record route { ttl = min route.ttl previous.ttl }

-- The last steps of one repository: its route is checked against those before it.
unfoldable pub add_route : String → String → Route → Computed → Result RouteError Computed
add_route type local route done = (do
  raise_if (has_other_kind type (lookup local done.kinds)) conflicting_types
  raise_if (conflicts route (lookup local done.routes)) conflicting_upstreams
  ok (record {
    routes = insert local (with_ttl route (lookup local done.routes)) done.routes;
    kinds = insert local type done.kinds;
  }))

-- The local path of a repository, and its route.
unfoldable pub own_route : Library → Config → RepoConfig → Url → Result RouteError (String × Route)
unfolding uri apt_prefix apt_rpm_prefix repo_prefix
own_route l c repo upstream = uri (rstrip upstream.path + "/") >>= (λ base.
    local_prefix l repo >>= (λ prefix. uri (rstrip prefix + "/") >>= (λ local.
      remote_of repo base >>= (λ remote.
        raise_if (local == "/") reserved_root
        >> (let ttl = min c.index_ttl (effective_check_interval c.check_interval repo) in
            raise_if (ltb ttl 1) nonpositive_ttl
            >> ok (
              local,
              record {
                scheme = upstream.scheme;
                host = upstream.netloc;
                remote = remote;
                ttl = ttl;
              },
            ))))))

unfoldable pub add_own : String → Computed → String × Route → Result RouteError Computed
unfolding add_route
add_own type done (local, route) = add_route type local route done

unfoldable pub add_repo : Library → Config → RepoConfig → Computed → Result RouteError Computed
unfolding own_route
add_repo l c repo done = parsed (l.urlsplit repo.upstream) >>= (λ upstream.
    check_upstream upstream >> (own_route l c repo upstream >>= add_own repo.type done))

unfoldable pub add_repos :
    Library → Config → List RepoConfig → Computed → Result RouteError Computed
unfolding add_repo
add_repos l c [] done = ok done
add_repos l c (repo ∷ repos) done = add_repo l c repo done >>= (λ next. add_repos l c repos next)

abbrev pub nothing : Computed
nothing = record { routes = []; kinds = [] }

unfoldable pub compute_routes : Library → Config → Result RouteError Computed
unfolding add_repos overlaps
compute_routes l c =
    add_repos l c c.repos nothing
    >>= (λ done. if overlaps (sorted (keys done.routes)) then err overlapping else ok done)

abbrev pub key_prefix : Config → String
key_prefix c = if is_text c.cache_key_version then c.cache_key_version + ":" else ""

-- The first route that the path begins with.
unfoldable pub find_route : String → Routes → Option (String × Route)
find_route local [] = none
find_route local ((route, target) ∷ routes) =
    let rest = find_route local routes in
    if starts_with local route then some (route, target) else rest

-- `local[len(route):]`.
abbrev pub after : String → String → String
after route local = String.slice local (String.len route) (String.len local)

-- What `for_repo` binds: the beginning of a key, and the path with and without redirection.
pub record Bound : Type 0 where
  pub key_base : String
  pub local : String
  pub remote : String

abbrev pub bound : Config → String → Option (String × Route) → Result RouteError Bound
bound c local none = err no_route
bound c local (some (route, target)) = ok (record {
  key_base = key_prefix c + "http" + target.host;
  local = local;
  remote = target.remote + after route local;
})

unfoldable pub for_repo : Library → Config → Routes → RepoConfig → Result RouteError Bound
unfolding package_prefix find_route
for_repo l c routes repo =
    package_prefix l repo >>= (λ prefix. bound c (prefix + "/") (find_route (prefix + "/") routes))

abbrev pub or_default : Bool → Option Bool → Bool
or_default default none = default
or_default default (some dedup) = dedup

abbrev pub key : Config → Bound → String → Option Bool → String
key c b filename dedup =
    b.key_base + (if or_default c.enable_dedup dedup then b.remote else b.local) + filename

unfoldable pub compute_cache_key : Library → Config → RepoConfig → String → Result RouteError String
unfolding compute_routes for_repo
compute_cache_key l c repo filename =
    compute_routes l c
    >>= (λ done. for_repo l c done.routes repo >>= (λ b. ok (key c b filename none)))

unfoldable pub warm_url : Library → String → RepoConfig → String → Result RouteError String
unfolding package_path
warm_url l cache_base_url repo filename =
    package_path l repo filename >>= (λ path. ok (cache_base_url + path))

unfoldable pub purge_url : Library → String → RepoConfig → String → Result RouteError String
unfolding package_path
purge_url l cache_base_url repo filename =
    package_path l repo filename >>= (λ path. ok (cache_base_url + "/purge" + path))
