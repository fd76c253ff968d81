-- ===== src/Retention/Pass.antt =====
-- operations/cleanup.py: `prune_all`, the retention pass. The retention of requests is left out.
pub mod Safety
use repowatch.Prelude.{
  ℕ, String, Bool, Option, none, some, if◌then◌else◌, pair_keys, Assoc, List, [], ◌∷◌,
}
use repowatch.Storage.Tables.{Warmed, Db}
use repowatch.Storage.Cache.Warmed.{
  find_all_stale_warmed, get_stale_warmed_packages, prune_warmed_packages,
}
use repowatch.Storage.Repositories.Events.{prune_events, prune_events_by_size}
use repowatch.Retention.Sweep.{Env, purge_removed_from_index, purge_and_unwarm_stale}

pub record Config : Type 0 where
  pub event_retention_days : ℕ
  pub warmed_retention_days : ℕ
  pub event_max_rows_per_repo : Option ℕ
  pub syslog_enabled : Bool

-- `if removed:`.
abbrev pub purge_removed_rows : Env → Assoc (String × String) Warmed → Db → Db
purge_removed_rows env [] db = db
purge_removed_rows env (row ∷ rows) db = (purge_removed_from_index env (row ∷ rows) db).0

abbrev pub purge_expired_rows : Env → ℕ → Assoc (String × String) Warmed → Db → Db
purge_expired_rows env days [] db = db
purge_expired_rows env days (row ∷ rows) db = purge_and_unwarm_stale env days (row ∷ rows) db

-- The second step: what has left the index.
unfoldable pub prune_removed : Env → Db → Db
prune_removed env db =
    if env.nginx.enable_purge then purge_removed_rows env (find_all_stale_warmed db) db else db

-- The third step: what has expired.
unfoldable pub prune_expired : Config → Env → Db → Db
prune_expired c env db =
    if c.syslog_enabled
    then (if env.nginx.enable_purge
        then purge_expired_rows env c.warmed_retention_days
            (get_stale_warmed_packages env.now c.warmed_retention_days db) db
        else (prune_warmed_packages env.now c.warmed_retention_days db).0)
    else db

abbrev pub prune_sized : Option ℕ → Db → Db
prune_sized none db = db
prune_sized (some max_rows) db = (prune_events_by_size max_rows db).0

unfoldable pub prune_all : Config → Env → Db → Db
unfolding prune_removed prune_expired
prune_all c env db =
    let db' = (prune_events env.now c.event_retention_days db).0 in
    prune_sized c.event_max_rows_per_repo (prune_expired c env (prune_removed env db'))
