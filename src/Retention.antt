-- ===== src/Retention.antt =====
-- operations/cleanup.py: the retention pass, and the removal of what is stored for repositories that
-- are no longer configured.
pub mod Sweep
pub mod Pass
pub mod Orphans
pub mod Tests
use repowatch.Prelude.{
  ℕ, String, Bool, true, false, not, ◌&&◌, ◌||◌, Option, none, some, List, [], ◌∷◌, ◌++◌,
  if◌then◌else◌, ltb, ◌==◌, text_keys, Assoc, lookup, insert, keys, contains, select, sorted,
}
use repowatch.Notifications.{Table}
use repowatch.Notifications.Rows
use repowatch.Storage.Tables.{Db}
use repowatch.Storage.Repositories
use repowatch.Storage.Cache.Nix.{distinct}
use repowatch.Storage.Cache.Removal

-- The three stores that have rows of repositories.
pub record Stores : Type 0 where
  pub db : Db
  pub failures : Table

abbrev pub Counts : Type 0
Counts = Assoc String ℕ

-- `{**first, **second}` of counts whose tables differ, and the count of failures if there are any.
abbrev pub with_failures : ℕ → Counts → Counts
with_failures n rows = if ltb 0 n then rows ++ (("failure_state", n) ∷ []) else rows

unfoldable pub ids_with_data : Stores → List String
ids_with_data s =
    Repositories.get_repo_ids_with_data s.db
    ++ (Removal.get_repo_ids_with_data s.db ++ Rows.get_repo_ids_with_data s.failures)

abbrev pub count_rows : String → Stores → Counts
count_rows r s =
    with_failures (Rows.count_repo_rows r s.failures)
      (Repositories.count_repo_rows r s.db ++ Removal.count_repo_rows r s.db)

unfoldable pub counts_at : Stores → List String → Assoc String Counts
counts_at s [] = []
counts_at s (r ∷ rs) = (r, count_rows r s) ∷ counts_at s rs

unfoldable pub orphaned : List String → Stores → List String
unfolding ids_with_data distinct
orphaned active s = select (λ r. not (contains r active)) (distinct (ids_with_data s))

-- `active` are the ids of the configured repositories.
unfoldable pub find_orphaned_repos : List String → Stores → Assoc String Counts
unfolding counts_at orphaned
find_orphaned_repos active s = counts_at s (sorted (orphaned active s))

unfoldable pub delete_rows : String → Stores → Stores × Counts
delete_rows r s =
    let (db, a) = Repositories.delete_repo_rows r s.db in
    let (db', b) = Removal.delete_repo_rows r db in
    let (failures, n) = Rows.delete_repo_rows r s.failures in
    (record { db = db'; failures = failures }, with_failures n (a ++ b))

-- A repository that had no row is not reported; a later report of an id takes its place.
abbrev pub reported : String → Counts → Assoc String Counts → Assoc String Counts
reported r [] results = results
reported r (row ∷ rows) results = insert r (row ∷ rows) results

unfoldable pub purge_one :
    List String → String → Stores × Assoc String Counts → Stores × Assoc String Counts
unfolding delete_rows
purge_one active r (s, results) =
    if contains r active
    then (s, results)
    else (let (s', rows) = delete_rows r s in (s', reported r rows results))

unfoldable pub purge_all :
    List String → List String → Stores × Assoc String Counts → Stores × Assoc String Counts
unfolding purge_one
purge_all active [] done = done
purge_all active (r ∷ rs) done = purge_all active rs (purge_one active r done)

unfoldable pub purge_orphaned_repos :
    List String → List String → Stores → Stores × Assoc String Counts
unfolding purge_all
purge_orphaned_repos active rs s = purge_all active rs (s, [])
