-- ===== src/Storage/Cache/Removal/Laws.antt =====
-- storage/cache.py: after the removal of a repository no table of the store has a row of it.
use repowatch.Prelude.{
  ◌≡◌, refl, String, not, ◌&&◌, ◌||◌, ◌++◌, map, arith, ◌==◌, text_keys, contains, contains-append,
}
use repowatch.Storage.Tables.{Db}
use repowatch.Storage.Owned.{by_repo, by_key, by_file}
use repowatch.Storage.Owned.Laws.{delete_from-count_in, contains-delete_from}
use repowatch.Storage.Cache.Removal.{count_repo_rows, delete_repo_rows, get_repo_ids_with_data}

contains-ids :
    (q : String) (db : Db)
    → contains q (get_repo_ids_with_data db) ≡ (
        contains q (map by_key db.warmed_packages)
        || (contains q (map by_key db.prefetch_bans)
            || (contains q (map by_file db.nix_artifacts)
                || (contains q (map by_repo db.nix_trust)
                    || contains q (map by_file db.package_interest)))))
unfolding get_repo_ids_with_data
contains-ids q db = ground (
  arith,
  contains-append q (map by_key db.warmed_packages) (
      map by_key db.prefetch_bans
      ++ (map by_file db.nix_artifacts
          ++ (map by_repo db.nix_trust ++ map by_file db.package_interest))),
  contains-append q (map by_key db.prefetch_bans) (
      map by_file db.nix_artifacts
      ++ (map by_repo db.nix_trust ++ map by_file db.package_interest)),
  contains-append q (map by_file db.nix_artifacts)
      (map by_repo db.nix_trust ++ map by_file db.package_interest),
  contains-append q (map by_repo db.nix_trust) (map by_file db.package_interest),
)

pub delete_repo_rows-counts :
    (r : String) (db : Db) → (delete_repo_rows r db).1 ≡ count_repo_rows r db
unfolding delete_repo_rows count_repo_rows
delete_repo_rows-counts r db =
    rw
      (
        delete_from-count_in by_key r db.warmed_packages,
        delete_from-count_in by_key r db.prefetch_bans,
        delete_from-count_in by_file r db.nix_artifacts,
        delete_from-count_in by_repo r db.nix_trust,
        delete_from-count_in by_file r db.package_interest,
      )
      refl

pub contains-delete_repo_rows :
    (r q : String) (db : Db)
    → contains q (get_repo_ids_with_data (delete_repo_rows r db).0)
      ≡ (contains q (get_repo_ids_with_data db) && not (q == r))
unfolding delete_repo_rows
contains-delete_repo_rows r q db = ground (
  arith,
  contains-ids q db,
  contains-ids q (delete_repo_rows r db).0,
  contains-delete_from by_key r q db.warmed_packages,
  contains-delete_from by_key r q db.prefetch_bans,
  contains-delete_from by_file r q db.nix_artifacts,
  contains-delete_from by_repo r q db.nix_trust,
  contains-delete_from by_file r q db.package_interest,
)
