-- ===== src/Warming/Refresh.antt =====
-- operations/replacements.py: a replaced file is purged everywhere before it is warmed again.
pub mod Purged
use repowatch.Prelude.{
  ℕ, String, Bool, true, false, not, ◌&&◌, ◌||◌, Option, none, some, List, [], ◌∷◌, if◌then◌else◌,
  ◌==◌, text_keys, Assoc, lookup, contains, is_some,
}
use repowatch.Storage.Tables.{Db}
use repowatch.Storage.Cache.Replacements.{Pending, get_pending_replacements, finish_replacement}
use repowatch.Storage.Cache.Interest.{interested_keys}
use repowatch.Purge.{Outcome, is_gone}
use repowatch.Warming.Rules.{Repo, WarmingPolicy, policy_of, allows}
use repowatch.Warming

-- The settings of nginx, the configured repositories, and the outcome of a purge of one file of a
-- repository, for the package whose key it gets.
pub record Purging : Type 0 where
  pub enable_purge : Bool
  pub enable_dedup : Bool
  pub repos : List String
  pub purge : String → String → String → Outcome
  pub shown : Outcome → String

-- `none` where every target is purged, or the error that ends the loop.
unfoldable pub purge_targets : Purging → String → String → List (String × String) → Option String
purge_targets p r key [] = none
purge_targets p r key ((target, filename) ∷ targets) =
    let rest = purge_targets p r key targets in
    let outcome = p.purge target key filename in
    if (not (target == r) && not p.enable_dedup) || filename == ""
    then rest
    else if not (contains target p.repos)
    then some "replacement purge target is unavailable"
    else if is_gone outcome
    then rest
    else some (p.shown outcome)

unfoldable pub purge_error : Purging → String → Pending → Option String
unfolding purge_targets
purge_error p r item =
    if p.enable_purge
    then purge_targets p r item.package_key item.targets
    else some "replacement requires nginx.enable_purge; cache refresh is pending"

abbrev pub hashes_of : String → Option String → Assoc String String
hashes_of key none = []
hashes_of key (some hash) = if hash == "" then [] else (key, hash) ∷ []

abbrev pub is_warm : Option Bool → Bool
is_warm none = false
is_warm (some success) = success

-- `warmed and warmed.get(key)`.
abbrev pub warm_error : Option Bool → Option String
warm_error warmed =
    if is_warm warmed then none else some "replacement warm failed; retry on next check"

unfoldable pub warm_again :
    Warming.Env
    → Repo
    → WarmingPolicy
    → List String
    → Pending
    → Option String
    → Warming.State
    → Option String × Warming.State
warm_again env repo policy interested item none s = (none, s)
warm_again env repo policy interested item (some filename) s =
    let key = item.package_key in
    let (outcomes, s') =
      Warming.warm_packages env repo ((key, filename) ∷ []) false (hashes_of key item.content_hash)
        s in
    if not (filename == "")
      && repo.prefetch
      && contains key interested
      && allows env.matches policy key
    then (warm_error (lookup key outcomes), s')
    else (none, s)

unfoldable pub after_purge :
    Warming.Env
    → Repo
    → WarmingPolicy
    → List String
    → Pending
    → Option String
    → Warming.State
    → Option String × Warming.State
unfolding warm_again
after_purge env repo policy interested item none s =
    warm_again env repo policy interested item item.filename s
after_purge env repo policy interested item (some error) s = (some error, s)

unfoldable pub refresh_item :
    Warming.Env
    → Purging
    → Repo
    → WarmingPolicy
    → List String
    → Pending
    → Warming.State
    → Warming.State
unfolding purge_error after_purge
refresh_item env p repo policy interested item s =
    let (error, s') = after_purge env repo policy interested item (purge_error p repo.id item) s in
    record s' { db = finish_replacement repo.id item.package_key item.revision error s'.db }

unfoldable pub refresh_items :
    Warming.Env
    → Purging
    → Repo
    → WarmingPolicy
    → List String
    → List Pending
    → Warming.State
    → Warming.State
unfolding refresh_item
refresh_items env p repo policy interested [] s = s
refresh_items env p repo policy interested (item ∷ items) s =
    refresh_items env p repo policy interested items
      (refresh_item env p repo policy interested item s)

unfoldable pub refresh_replacements : Warming.Env → Purging → Repo → Warming.State → Warming.State
unfolding refresh_items
refresh_replacements env p repo s =
    refresh_items env p repo (policy_of repo s.db) (interested_keys repo.id repo.identity s.db)
      (get_pending_replacements repo.id s.db) s
