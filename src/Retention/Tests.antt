-- ===== src/Retention/Tests.antt =====
-- Retention passes over a small database.
use repowatch.Prelude.{
  ◌≡◌, refl, true, false, some, [], ◌∷◌, ◌&&◌, lookup, contains, keys, ◌==◌, text_keys, pair_keys,
  remove, insert,
}
use repowatch.Storage.Cache.Tests.{db, warmed}
use repowatch.Storage.Cache.Warmed.{is_expired, get_warmed_records, remove_purged_records}
use repowatch.Purge.{answered, purge_batch}
use repowatch.Purge.Items.{Repo, Nginx, purge_items}
use repowatch.Retention.{Stores, find_orphaned_repos, purge_orphaned_repos, ids_with_data}
use repowatch.Retention.Orphans.{purge_orphaned_repos-find_orphaned_repos}
use repowatch.Retention.Sweep.{Env, repo_by_id, unwarm, unwarm_stale, files_in, resolved_purge_keys}
use repowatch.Retention.Sweep.Generations.{unwarm_stale_forgets}
use repowatch.Retention.Pass.{Config, prune_all}
use repowatch.Retention.Pass.Safety.{is_kept, is_kept-prune_all}

abbrev stores : Stores
stores = record { db = db; failures = [] }

-- No repository is configured any more.
purge_orphaned_repos-find_orphaned_repos_example :
    let after = (purge_orphaned_repos [] (keys (find_orphaned_repos [] stores)) stores).0 in
    (contains "core" (keys (find_orphaned_repos [] after)) ≡ false)
    × (contains "core" (ids_with_data after) ≡ (contains "core" (ids_with_data stores) && false))
unfolding contains
purge_orphaned_repos-find_orphaned_repos_example =
    purge_orphaned_repos-find_orphaned_repos [] "core" stores

abbrev nginx : Nginx
nginx = record {
  enable_purge = true;
  enable_cache_probe = false;
  enable_dedup = false;
  purge_url = λ r filename. filename;
  cache_key = λ r dedup filename. filename;
  uri = λ r filename. filename;
  redirects = λ d. [];
  reply = λ key url. answered 200;
}

abbrev core : Repo
core = record { id = "core"; is_nix = false }

abbrev env : Env
env = record { nginx = nginx; repos = core ∷ []; now = 604800; others = λ r d. d }

unwarm_stale_forgets_example :
    (is_expired 604800 3 warmed
      && (warmed.revision == warmed.revision
          && contains "vim-0" (
              resolved_purge_keys (
                purge_items nginx core
                  (files_in (get_warmed_records "core" ("vim-0" ∷ []) (some (604800, 3)) db))
                  db))))
    ≡ true
unfolding lookup repo_by_id keys unwarm_stale unwarm get_warmed_records files_in
    remove_purged_records resolved_purge_keys purge_items purge_batch remove insert
unwarm_stale_forgets_example =
    unwarm_stale_forgets env 3 core "core" "vim-0" (("vim-0", "vim-0.zst") ∷ []) db warmed warmed
      refl refl refl refl

abbrev config : Config
config = record {
  event_retention_days = 30;
  warmed_retention_days = 3;
  event_max_rows_per_repo = some 100;
  syslog_enabled = false;
}

is_kept-prune_all_example : is_kept "core" "vim-1" (prune_all config env db) ≡ true
unfolding lookup
is_kept-prune_all_example = is_kept-prune_all config env "core" "vim-1" db refl (λ r d h. h) refl
