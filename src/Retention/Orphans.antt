-- ===== src/Retention/Orphans.antt =====
-- operations/cleanup.py: after the removal of the repositories that are found, none is found.
use repowatch.Prelude.{
  ◌≡◌, refl, ◌∙◌, String, false, not, ◌&&◌, ◌||◌, List, [], ◌∷◌, ◌++◌, map, arith, ◌==◌, text_keys,
  pair_keys, Assoc, keys, contains, contains-append, contains-select, contains-sorted, eq_iff,
}
use repowatch.Storage.Tables.{Db}
use repowatch.Storage.Owned.{by_key}
use repowatch.Storage.Owned.Laws.{contains-delete_from}
use repowatch.Storage.Cache.Nix.{distinct}
use repowatch.Storage.Cache.Removal
use repowatch.Storage.Cache.Removal.Laws.{contains-delete_repo_rows}
use repowatch.Storage.Repositories
use repowatch.Storage.Repositories.Removal.{delete_repo_rows-count_repo_rows}
use repowatch.Notifications.Rows
use repowatch.Retention.{
  Stores, Counts, ids_with_data, counts_at, orphaned, find_orphaned_repos, delete_rows, purge_one,
  purge_all, purge_orphaned_repos,
}

contains-distinct : (k : String) (ks : List String) → contains k (distinct ks) ≡ contains k ks
unfolding distinct contains
contains-distinct k [] = refl
contains-distinct k (j ∷ ks) =
    ground (arith, contains-distinct k ks, contains-distinct j ks, eq_iff j k)

keys-counts_at : (s : Stores) (rs : List String) → keys (counts_at s rs) ≡ rs
unfolding counts_at keys
keys-counts_at s [] = refl
keys-counts_at s (r ∷ rs) = rw (keys-counts_at s rs) refl

contains-keys-find_orphaned_repos :
    (active : List String) (q : String) (s : Stores)
    → contains q (keys (find_orphaned_repos active s))
      ≡ (contains q (ids_with_data s) && not (contains q active))
unfolding find_orphaned_repos orphaned
contains-keys-find_orphaned_repos active q s = rw keys-counts_at (
    contains-sorted q (orphaned active s)
    ∙ contains-select (λ r. not (contains r active)) q (distinct (ids_with_data s))
    ∙ rw contains-distinct refl)

contains-ids_with_data :
    (q : String) (s : Stores)
    → contains q (ids_with_data s) ≡ (
        contains q (Repositories.get_repo_ids_with_data s.db)
        || (contains q (Removal.get_repo_ids_with_data s.db) || contains q (map by_key s.failures)))
unfolding ids_with_data Rows.get_repo_ids_with_data
contains-ids_with_data q s = ground (
  arith,
  contains-append q (Repositories.get_repo_ids_with_data s.db)
      (Removal.get_repo_ids_with_data s.db ++ Rows.get_repo_ids_with_data s.failures),
  contains-append q (Removal.get_repo_ids_with_data s.db) (Rows.get_repo_ids_with_data s.failures),
)

-- Neither store of the database touches the tables of the other.
ids_unmoved :
    (r : String) (db : Db)
    → Repositories.get_repo_ids_with_data (Removal.delete_repo_rows r db).0
      ≡ Repositories.get_repo_ids_with_data db
unfolding Repositories.get_repo_ids_with_data Removal.delete_repo_rows
ids_unmoved r db = refl

cached_ids_unmoved :
    (r : String) (db : Db)
    → Removal.get_repo_ids_with_data (Repositories.delete_repo_rows r db).0
      ≡ Removal.get_repo_ids_with_data db
unfolding Removal.get_repo_ids_with_data Repositories.delete_repo_rows
cached_ids_unmoved r db = refl

contains-delete_rows :
    (q r : String) (s : Stores)
    → contains q (ids_with_data (delete_rows r s).0)
      ≡ (contains q (ids_with_data s) && not (q == r))
unfolding delete_rows Rows.delete_repo_rows
contains-delete_rows q r s =
    let db = (Repositories.delete_repo_rows r s.db).0 in
    ground (
      arith,
      contains-ids_with_data q (delete_rows r s).0,
      contains-ids_with_data q s,
      (delete_repo_rows-count_repo_rows r q s.db).1,
      contains-delete_repo_rows r q db,
      contains-delete_from by_key r q s.failures,
      ids_unmoved r db,
      cached_ids_unmoved r s.db,
    )

contains-purge_one :
    (active : List String) (q r : String) (done : Stores × Assoc String Counts)
    → contains q (ids_with_data (purge_one active r done).0)
      ≡ (contains q (ids_with_data done.0) && (contains r active || not (q == r)))
unfolding purge_one
contains-purge_one active q r (s, results) = ground (arith, contains-delete_rows q r s)

contains-purge_all :
    (active : List String) (q : String) (rs : List String) (done : Stores × Assoc String Counts)
    → contains q (ids_with_data (purge_all active rs done).0)
      ≡ (contains q (ids_with_data done.0) && (contains q active || not (contains q rs)))
unfolding purge_all contains
contains-purge_all active q [] done = ground arith
contains-purge_all active q (r ∷ rs) done = ground (
  arith,
  contains-purge_all active q rs (purge_one active r done),
  contains-purge_one active q r done,
  eq_iff r q,
  eq_iff q r,
)

-- After the removal of the repositories that are found to be orphaned none is found, and the
-- repositories with data are those from before that are configured.
pub purge_orphaned_repos-find_orphaned_repos :
    (active : List String) (q : String) (s : Stores)
    → let after = (purge_orphaned_repos active (keys (find_orphaned_repos active s)) s).0 in
      (contains q (keys (find_orphaned_repos active after)) ≡ false)
      × (contains q (ids_with_data after) ≡ (contains q (ids_with_data s) && contains q active))
unfolding purge_orphaned_repos
purge_orphaned_repos-find_orphaned_repos active q s =
    let found = keys (find_orphaned_repos active s) in
    let after = (purge_orphaned_repos active found s).0 in
    let left = contains-purge_all active q found (s, []) in
    let seen = contains-keys-find_orphaned_repos active q s in
    (
      ground (arith, contains-keys-find_orphaned_repos active q after, left, seen),
      ground (arith, left, seen),
    )
