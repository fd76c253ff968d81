-- ===== src/Retention/Sweep.antt =====
-- operations/cleanup.py: the purge of what has expired or has left the catalogue.
pub mod Generations
use repowatch.Prelude.{
  ℕ, String, Bool, true, false, Option, none, some, List, [], ◌∷◌, if◌then◌else◌, ◌==◌, text_keys,
  pair_keys, Assoc, lookup, insert, keys,
}
use repowatch.Storage.Tables.{Warmed, Db}
use repowatch.Storage.Cache.Warmed.{Records, get_warmed_records, remove_purged_records}
use repowatch.Purge.{Outcome, purged, not_cached, retained_shared, http_error, request_error}
use repowatch.Purge.Items.{Repo, Nginx, purge_items}

-- What a pass needs: `others` is what the other tasks do to the database while a repository's purge
-- waits for nginx.
pub record Env : Type 0 where
  pub nginx : Nginx
  pub repos : List Repo
  pub now : ℕ
  pub others : String → Db → Db

unfoldable pub repo_by_id : String → List Repo → Option Repo
repo_by_id r [] = none
repo_by_id r (repo ∷ repos) = if repo.id == r then some repo else repo_by_id r repos

abbrev pub is_settled : Outcome → Bool
is_settled purged = true
is_settled not_cached = true
is_settled retained_shared = true
is_settled (http_error status) = false
is_settled (request_error detail) = false

unfoldable pub resolved_purge_keys : Assoc String Outcome → List String
resolved_purge_keys [] = []
resolved_purge_keys ((key, outcome) ∷ results) =
    let rest = resolved_purge_keys results in if is_settled outcome then key ∷ rest else rest

abbrev pub Groups : Type 0
Groups = Assoc String (Assoc String String)

abbrev pub items_of : Option (Assoc String String) → Assoc String String
items_of none = []
items_of (some items) = items

unfoldable pub note_item : String → String → String → Groups → Groups
note_item r key filename by_repo =
    insert r (insert key filename (items_of (lookup r by_repo))) by_repo

unfoldable pub group : Assoc (String × String) Warmed → Groups → Groups
unfolding note_item
group [] by_repo = by_repo
group (((r, key), w) ∷ stale) by_repo = group stale (note_item r key w.filename by_repo)

unfoldable pub files_in : Records → Assoc String String
files_in [] = []
files_in ((key, (filename, revision)) ∷ records) = (key, filename) ∷ files_in records

-- Nothing is captured, the repository is not configured, or its files are purged.
unfoldable pub unwarm : Env → String → Records → Assoc String String → Option Repo → Db → Db
unfolding resolved_purge_keys
unwarm env r records [] repo db = db
unwarm env r records (item ∷ items) none db =
    (remove_purged_records r records (keys (item ∷ items)) db).0
unwarm env r records (item ∷ items) (some repo) db =
    let results = purge_items env.nginx repo (item ∷ items) db in
    (remove_purged_records r records (resolved_purge_keys results) (env.others r db)).0

unfoldable pub unwarm_stale : Env → ℕ → String → Assoc String String → Db → Db
unfolding files_in unwarm
unwarm_stale env retention_days r items db =
    let records = get_warmed_records r (keys items) (some (env.now, retention_days)) db in
    unwarm env r records (files_in records) (repo_by_id r env.repos) db

unfoldable pub unwarm_groups : Env → ℕ → Groups → Db → Db
unwarm_groups env retention_days [] db = db
unwarm_groups env retention_days ((r, items) ∷ by_repo) db =
    unwarm_groups env retention_days by_repo (unwarm_stale env retention_days r items db)

unfoldable pub purge_and_unwarm_stale : Env → ℕ → Assoc (String × String) Warmed → Db → Db
unfolding group unwarm_groups
purge_and_unwarm_stale env retention_days stale db =
    unwarm_groups env retention_days (group stale []) db

-- The same for what has left the index, whatever its age; a repository that is not configured is left
-- to the removal of orphans.
abbrev pub Purged : Type 0
Purged = Db × Assoc String (Assoc String Outcome)

unfoldable pub purge_captured : Env → Repo → Records → Assoc String String → Purged → Purged
unfolding resolved_purge_keys
purge_captured env repo records [] done = done
purge_captured env repo records (item ∷ items) (db, all_results) =
    let results = purge_items env.nginx repo (item ∷ items) db in
    (
      (remove_purged_records repo.id records (resolved_purge_keys results)
          (env.others repo.id db)).0,
      insert repo.id results all_results,
    )

unfoldable pub purge_candidates : Env → List String → Option Repo → Purged → Purged
unfolding files_in purge_captured
purge_candidates env candidates none done = done
purge_candidates env candidates (some repo) (db, all_results) =
    let records = get_warmed_records repo.id candidates none db in
    purge_captured env repo records (files_in records) (db, all_results)

unfoldable pub purge_groups : Env → Groups → Purged → Purged
unfolding purge_candidates
purge_groups env [] done = done
purge_groups env ((r, items) ∷ by_repo) done =
    purge_groups env by_repo (purge_candidates env (keys items) (repo_by_id r env.repos) done)

unfoldable pub purge_removed_from_index : Env → Assoc (String × String) Warmed → Db → Purged
unfolding group purge_groups
purge_removed_from_index env items db = purge_groups env (group items []) (db, [])
