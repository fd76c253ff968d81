-- ===== src/Warming/Tests.antt =====
-- Warming runs of a small repository.
use repowatch.Prelude.{
  ◌≡◌, refl, String, true, false, none, some, [], ◌∷◌, ◌||◌, Assoc, lookup, insert, contains,
  is_some, sorted, ◌==◌, text_keys, pair_keys,
}
use repowatch.Storage.Snapshots.{catalog}
use repowatch.Storage.Tables.{Replacement}
use repowatch.Storage.Cache.Tests.{db}
use repowatch.Storage.Cache.Replacements.{Pending}
use repowatch.Storage.Cache.Bans.{get_banned_packages, names_of}
use repowatch.Purge.{http_error}
use repowatch.Warming.Rules.{
  Repo, policy_of, is_filtered, allows, allows_name, any_matches, get_names, named_in,
}
use repowatch.Warming.{Env, State, warm_packages, tasks_of, run_all, run_tasks, run_task}
use repowatch.Warming.Attempts.{success_of, warm_packages-allows}
use repowatch.Warming.Refresh.{Purging, refresh_item}
use repowatch.Warming.Refresh.Purged.{error_of, any_left, refresh_item-keeps}

abbrev env : Env
env = record {
  matches = λ pattern name. pattern == name;
  url = λ filename. filename;
  download = λ key url digest. (true, some 200);
  admits = λ key. true;
  now = 70;
  new_id = λ key. key;
  settings = record { notify_webhook_url = none; notify_events = []; notify_after_failures = 3 };
  message = λ failed all first. "";
  delivered = false;
}

abbrev core : Repo
core = record {
  id = "core";
  prefetch = true;
  identity = "arch";
  prefetch_whitelist = "vim" ∷ [];
  prefetch_blacklist = [];
}

abbrev state : State
state = record { db = db; notices = record { table = []; sent = [] } }

abbrev vim : Assoc String String
vim = ("vim-1", "vim-1.zst") ∷ []

warm_packages-allows_example :
    (allows env.matches (policy_of core db) "vim-1" ≡ true)
    × ((false || core.prefetch) ≡ true)
    × (success_of (
          lookup ("core", "vim-1") (warm_packages env core vim false [] state).1.db.warmed_packages)
        ≡ some true)
unfolding lookup insert contains policy_of is_filtered allows allows_name any_matches get_names
    named_in get_banned_packages names_of warm_packages tasks_of run_all run_tasks run_task catalog
    sorted
warm_packages-allows_example = warm_packages-allows env core vim false [] state "vim-1" true refl

abbrev replaced : Replacement
replaced = record {
  targets = ("core", "vim-1.zst") ∷ [];
  expected_hash = none;
  revision = "r2";
  last_error = none;
}

abbrev pending : State
pending = record state {
  db = record db { pending_replacements = (("core", "vim-1"), replaced) ∷ [] };
}

abbrev item : Pending
item = record {
  package_key = "vim-1";
  targets = ("core", "vim-1.zst") ∷ [];
  revision = "r2";
  filename = some "vim-1.zst";
  last_error = none;
  content_hash = none;
}

-- nginx cannot remove the old file.
abbrev purging : Purging
purging = record {
  enable_purge = true;
  enable_dedup = false;
  repos = "core" ∷ [];
  purge = λ r key filename. http_error 500;
  shown = λ outcome. "error (HTTP 500)";
}

refresh_item-keeps_example :
    let after =
      (refresh_item env purging core (policy_of core db) ("vim-1" ∷ []) item pending).db in
    (after.warmed_packages ≡ db.warmed_packages)
    × (is_some (error_of (lookup ("core", "vim-1") after.pending_replacements)) ≡ true)
unfolding lookup any_left contains
refresh_item-keeps_example =
    refresh_item-keeps env purging core (policy_of core db) ("vim-1" ∷ []) item pending replaced
      refl refl refl
