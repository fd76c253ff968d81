-- ===== src/Routing/Tests.antt =====
-- Routes of two repositories.
use repowatch.Prelude.{
  ◌≡◌, refl, String, true, false, none, some, Option, [], ◌∷◌, ◌==◌, text_keys, nat_keys, lookup,
  insert, keys, sorted, ok, insert_text, if◌then◌else◌,
}
use repowatch.Routing.Characters.{
  rstrip, split, matches, all_chars, is_netloc, is_host, is_port, has_dots,
}
use repowatch.Routing.Templates.{RepoConfig, expand, check_variables}
use repowatch.Routing.{Url, Library, Config, ◌+◌, apt_prefix, repo_prefix, typed_prefix}
use repowatch.Routing.Sorted.{overlaps, any_starts}
use repowatch.Routing.Routes.{
  Route, Computed, Bound, compute_routes, add_repos, add_repo, own_route, add_own, local_prefix,
  remote_of, add_route, uri, for_repo, key_prefix,
}
use repowatch.Routing.Configured.{for_repo-compute_routes}

abbrev debian : RepoConfig
debian = record {
  id = "debian";
  type = "apt";
  upstream = "http://deb.debian.org/debian";
  repo_name = none;
  arch = some "amd64";
  distribution = some "trixie";
  component = some "main";
  check_interval = none;
  url_template = none;
  url_variables = [];
}

abbrev void : RepoConfig
void = record debian { id = "void"; type = "xbps"; upstream = "http://repo.voidlinux.org/current" }

abbrev url : String → String → Url
url host path = record {
  scheme = "http";
  netloc = host;
  hostname = some host;
  username = none;
  password = none;
  path = path;
  query = "";
  fragment = "";
  has_port = true;
}

abbrev read : String → Option Url
read upstream =
    if upstream == "http://deb.debian.org/debian"
    then some (url "deb.debian.org" "/debian")
    else some (url "repo.voidlinux.org" "/current")

abbrev library : Library
library = record {
  parse = λ template. ([], true);
  urlsplit = read;
  urlparse = read;
  quote = λ text. text;
}

abbrev config : Config
config = record {
  repos = debian ∷ void ∷ [];
  check_interval = 600;
  index_ttl = 300;
  cache_key_version = "v2";
  enable_dedup = false;
}

abbrev to : String → String → Route
to host remote = record { scheme = "http"; host = host; remote = remote; ttl = 300 }

abbrev computed : Computed
computed = record {
  routes =
      ("/debian/", to "deb.debian.org" "/debian/")
      ∷ ("/xbps/void/", to "repo.voidlinux.org" "/current/")
      ∷ [];
  kinds = ("/debian/", "apt") ∷ ("/xbps/void/", "xbps") ∷ [];
}

are_computed : compute_routes library config ≡ ok computed
unfolding compute_routes add_repos add_repo own_route add_own local_prefix remote_of add_route uri
    apt_prefix repo_prefix typed_prefix expand check_variables rstrip split matches all_chars
    is_netloc is_host is_port has_dots overlaps any_starts sorted insert_text keys lookup insert
are_computed = refl

for_repo-compute_routes_example :
    (b : Bound) × (upstream : Url) × (for_repo library config computed.routes void ≡ ok b)
    × (read void.upstream ≡ some upstream)
    × (b.key_base ≡ key_prefix config + "http" + upstream.netloc)
for_repo-compute_routes_example =
    for_repo-compute_routes library config (debian ∷ []) [] void computed refl are_computed
