-- ===== src/Storage/Repositories/Removal.antt =====
-- storage/repositories.py: what `delete_repo_rows` removes is what `count_repo_rows` shows first.
use repowatch.Prelude.{
  ◌≡◌, refl, String, not, ◌&&◌, ◌||◌, ◌++◌, map, arith, ◌==◌, text_keys, contains, contains-append,
}
use repowatch.Storage.Tables.{Db}
use repowatch.Storage.Owned.{by_repo, by_key}
use repowatch.Storage.Owned.Laws.{delete_from-count_in, contains-delete_from}
use repowatch.Storage.Repositories.{
  by_event, count_repo_rows, delete_repo_rows, get_repo_ids_with_data,
}

pub contains-ids :
    (q : String) (db : Db)
    → contains q (get_repo_ids_with_data db) ≡ (
        contains q (map by_repo db.repo_state)
        || (contains q (map by_key db.repo_packages)
            || (contains q (map by_event db.repo_events)
                || contains q (map by_key db.pending_replacements))))
unfolding get_repo_ids_with_data
contains-ids q db = ground (
  arith,
  contains-append q (map by_repo db.repo_state) (
      map by_key db.repo_packages
      ++ (map by_event db.repo_events ++ map by_key db.pending_replacements)),
  contains-append q (map by_key db.repo_packages)
      (map by_event db.repo_events ++ map by_key db.pending_replacements),
  contains-append q (map by_event db.repo_events) (map by_key db.pending_replacements),
)

-- The removal of a repository answers the counts that count_repo_rows shows before it, and
-- afterwards the repositories with data are those from before, without the removed one.
pub delete_repo_rows-count_repo_rows :
    (r q : String) (db : Db)
    → ((delete_repo_rows r db).1 ≡ count_repo_rows r db)
      × (contains q (get_repo_ids_with_data (delete_repo_rows r db).0)
          ≡ (contains q (get_repo_ids_with_data db) && not (q == r)))
unfolding delete_repo_rows count_repo_rows
delete_repo_rows-count_repo_rows r q db = (
  rw
      (
        delete_from-count_in by_repo r db.repo_state,
        delete_from-count_in by_key r db.repo_packages,
        delete_from-count_in by_event r db.repo_events,
        delete_from-count_in by_key r db.pending_replacements,
      )
      refl,
  ground (
    arith,
    contains-ids q db,
    contains-ids q (delete_repo_rows r db).0,
    contains-delete_from by_repo r q db.repo_state,
    contains-delete_from by_key r q db.repo_packages,
    contains-delete_from by_event r q db.repo_events,
    contains-delete_from by_key r q db.pending_replacements,
  ),
)
