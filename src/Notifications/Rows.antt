-- ===== src/Notifications/Rows.antt =====
-- storage/notifications.py: the rows of one repository, and the streaks for the metrics.
use repowatch.Prelude.{ℕ, String, List, [], ◌∷◌, map, Assoc}
use repowatch.Storage.Owned.{delete_from, count_in, by_key}
use repowatch.Notifications.{Table}

unfoldable pub get_repo_ids_with_data : Table → List String
get_repo_ids_with_data t = map by_key t

unfoldable pub count_repo_rows : String → Table → ℕ
unfolding count_in
count_repo_rows r t = count_in by_key r t

unfoldable pub delete_repo_rows : String → Table → Table × ℕ
unfolding delete_from
delete_repo_rows r t = delete_from by_key r t

unfoldable pub get_failure_counts : Table → Assoc (String × String) ℕ
get_failure_counts [] = []
get_failure_counts ((key, f) ∷ t) = (key, f.consecutive_failures) ∷ get_failure_counts t
