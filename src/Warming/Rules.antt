-- ===== src/Warming/Rules.antt =====
-- warming_policy.py: the names that a repository warms.
use repowatch.Prelude.{
  String, Bool, true, false, not, ◌&&◌, ◌||◌, Option, none, some, List, [], ◌∷◌, if◌then◌else◌,
  ◌==◌, text_keys, pair_keys, Assoc, lookup, contains,
}
use repowatch.Storage.Tables.{Package, Db}
use repowatch.Storage.Snapshots.{catalog}
use repowatch.Storage.Cache.Bans.{get_banned_packages}

pub record Repo : Type 0 where
  pub id : String
  pub prefetch : Bool
  pub identity : String
  pub prefetch_whitelist : List String
  pub prefetch_blacklist : List String

pub record WarmingPolicy : Type 0 where
  pub whitelist : List String
  pub blacklist : List String
  pub banned : List String
  pub names : Assoc String String

unfoldable pub named_in : Assoc String Package → Assoc String String
named_in [] = []
named_in ((key, p) ∷ m) =
    let rest = named_in m in elim p.package_name [ none ↦ rest | some name ↦ (key, name) ∷ rest ]

-- `get_names`.
unfoldable pub get_names : String → Db → Assoc String String
unfolding named_in
get_names r db = named_in (catalog r db.repo_packages)

abbrev pub is_any {ℓ} : {A : Type ℓ} → List A → Bool
is_any [] = false
is_any (x ∷ xs) = true

unfoldable pub is_filtered : List String → List String → List String → Bool
is_filtered whitelist blacklist banned = is_any whitelist || is_any blacklist || is_any banned

unfoldable pub policy_of : Repo → Db → WarmingPolicy
unfolding get_names is_filtered
policy_of repo db =
    let banned = get_banned_packages repo.id db in
    record {
      whitelist = repo.prefetch_whitelist;
      blacklist = repo.prefetch_blacklist;
      banned = banned;
      names =
          if is_filtered repo.prefetch_whitelist repo.prefetch_blacklist banned
          then get_names repo.id db
          else [];
    }

-- `fnmatch` decides whether a name matches a pattern.
unfoldable pub any_matches : (String → String → Bool) → List String → String → Bool
any_matches matches [] name = false
any_matches matches (p ∷ ps) name = matches p name || any_matches matches ps name

unfoldable pub allows_name : (String → String → Bool) → WarmingPolicy → Option String → Bool
unfolding any_matches
allows_name matches policy none = false
allows_name matches policy (some name) =
    not (name == "")
    && not (contains name policy.banned)
    && not (any_matches matches policy.blacklist name)
    && (not (is_any policy.whitelist) || any_matches matches policy.whitelist name)

unfoldable pub allows : (String → String → Bool) → WarmingPolicy → String → Bool
unfolding is_filtered allows_name
allows matches policy key =
    if is_filtered policy.whitelist policy.blacklist policy.banned
    then allows_name matches policy (lookup key policy.names)
    else true
