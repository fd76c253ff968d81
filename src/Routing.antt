-- ===== src/Routing.antt =====
-- routing.py: the local paths of the repositories, the routes of nginx and the cache keys.
pub mod Characters
pub mod Templates
pub mod Text
pub mod Sorted
pub mod Routes
pub mod Unique
pub mod Configured
pub mod Tests
use Prim.Native.String
use text.Mathlib.Text.{starts_with}
use repowatch.Prelude.{
  ℕ, min, String, Bool, true, false, not, ◌&&◌, ◌||◌, Option, none, some, List, [], ◌∷◌, ◌++◌,
  if◌then◌else◌, ltb, ◌==◌, nat_keys, text_keys, Assoc, lookup, insert, keys, sorted, contains,
  is_some, Result, err, ok, raise_if, ◌>>=◌, ◌>>◌,
}
use repowatch.Routing.Characters.{
  matches, all_chars, is_path_char, is_netloc, has_dots, split, rstrip, lstrip,
}
use repowatch.Routing.Templates.{
  RepoConfig, RouteError, Parse, expand, is_text, invalid_url, plain_upstream, invalid_port,
  invalid_path, reserved_root, nonpositive_ttl, conflicting_types, conflicting_upstreams,
  overlapping, unknown_type, no_route,
}
use repowatch.Routing.Sorted.{overlaps}

-- The parts of a URL; `has_port` says that the port is a number in range, or absent.
pub record Url : Type 0 where
  pub scheme : String
  pub netloc : String
  pub hostname : Option String
  pub username : Option String
  pub password : Option String
  pub path : String
  pub query : String
  pub fragment : String
  pub has_port : Bool

-- What the standard library does with URLs and templates; `none` is a ValueError.
pub record Library : Type 0 where
  pub parse : Parse
  pub urlsplit : String → Option Url
  pub urlparse : String → Option Url
  pub quote : String → String

pub record Config : Type 0 where
  pub repos : List RepoConfig
  pub check_interval : ℕ
  pub index_ttl : ℕ
  pub cache_key_version : String
  pub enable_dedup : Bool

infixl 65 ◌+◌
abbrev pub ◌+◌ : String → String → String
a + b = String.◌++◌ a b

abbrev pub is_host_named : String → Option String → Bool
is_host_named name none = false
is_host_named name (some host) = host == name

-- `/ppa-{parts[0]}-{parts[1]}`, where there are three parts of which the last is `ubuntu`.
abbrev pub ppa_path : List String → Option String
ppa_path (a ∷ b ∷ c ∷ []) = if c == "ubuntu" then some ("/ppa-" + a + "-" + b) else none
ppa_path _ = none

abbrev pub plain_apt : Url → String
plain_apt u =
    let path = rstrip u.path in
    if is_host_named "security.ubuntu.com" u.hostname && path == "/ubuntu"
    then "/ubuntu-security"
    else if is_host_named "ppa.launchpadcontent.net" u.hostname
    then (elim (ppa_path (split (lstrip path))) [ none ↦ path | some ppa ↦ ppa ])
    else path

abbrev pub parsed : Option Url → Result RouteError Url
parsed none = err invalid_url
parsed (some u) = ok u

unfoldable pub apt_prefix : Library → RepoConfig → Result RouteError String
unfolding expand
apt_prefix l repo = expand l.parse repo >>= (λ custom. elim custom [
  | some path ↦ ok path
  | none ↦ parsed (l.urlparse repo.upstream) >>= (λ u. ok (plain_apt u))
])

-- `a or b`.
abbrev pub or_text : Option String → String → String
or_text none other = other
or_text (some s) other = if is_text s then s else other

unfoldable pub apt_rpm_prefix : Library → RepoConfig → Result RouteError String
unfolding expand
apt_rpm_prefix l repo =
    expand l.parse repo >>= (λ custom. ok (or_text custom ("/apt-rpm/" + l.quote repo.id)))

-- A text in an f-string.
abbrev pub shown : Option String → String
shown none = "None"
shown (some s) = s

abbrev pub is_deb_or_rpm : String → Bool
is_deb_or_rpm type = type == "apt" || type == "apt-rpm"

unfoldable pub typed_prefix : Library → RepoConfig → Result RouteError String
unfolding apt_prefix apt_rpm_prefix
typed_prefix l repo =
    if repo.type == "pacman"
    then ok ("/arch/" + shown repo.repo_name + "/os/" + shown repo.arch)
    else if repo.type == "apt-rpm"
    then (apt_rpm_prefix l repo >>= (λ prefix. ok (prefix + "/RPMS." + shown repo.component)))
    else if repo.type == "dnf"
    then ok ("/rpm/" + l.quote repo.id)
    else if repo.type == "gentoo" || repo.type == "slackware"
    then ok ("/" + repo.type + "/" + l.quote repo.id)
    else if repo.type == "xbps"
    then ok ("/xbps/" + l.quote repo.id)
    else if repo.type == "apt"
    then (apt_prefix l repo >>= (λ prefix. ok (prefix + "/pool/" + shown repo.component)))
    else if repo.type == "nix"
    then ok ("/nix/" + repo.id)
    else if repo.type == "apk"
    then (parsed (l.urlparse repo.upstream) >>= (λ u. ok (rstrip u.path + "/" + shown repo.arch)))
    else err unknown_type

unfoldable pub repo_prefix : Library → RepoConfig → Result RouteError String
unfolding expand
repo_prefix l repo = expand l.parse repo >>= (λ custom. elim custom [
  | none ↦ typed_prefix l repo
  | some path ↦ if is_deb_or_rpm repo.type then typed_prefix l repo else ok path
])

unfoldable pub package_prefix : Library → RepoConfig → Result RouteError String
unfolding repo_prefix apt_prefix apt_rpm_prefix
package_prefix l repo =
    if repo.type == "apt-rpm"
    then apt_rpm_prefix l repo
    else if repo.type == "apt"
    then apt_prefix l repo
    else repo_prefix l repo

unfoldable pub package_path : Library → RepoConfig → String → Result RouteError String
unfolding package_prefix
package_path l repo filename = package_prefix l repo >>= (λ prefix. ok (prefix + "/" + filename))
