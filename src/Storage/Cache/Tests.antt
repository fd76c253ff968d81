-- ===== src/Storage/Cache/Tests.antt =====
-- A small cache, for storage/cache.py.
use repowatch.Prelude.{
  ◌≡◌, refl, true, false, none, some, [], ◌∷◌, lookup, contains, text_keys, pair_keys,
}
use repowatch.Storage.Tables.{RepoState, Package, Warmed, Db}
use repowatch.Storage.Snapshots.{RepoSnapshot, Env, Meta, record_snapshot}
use repowatch.Storage.Cache.Warmed.Expiry.{Pruned, lookup-prune_warmed_packages}
use repowatch.Storage.Cache.Interest.{record_interest, interested_keys}
use repowatch.Storage.Cache.Demand.{interested_keys-record_snapshot}

abbrev env : Env
env = record { now = 50; new_id = λ k. k }

abbrev meta : Meta
meta = record { etag = none; last_modified = none; source = some "arch" }

abbrev state : RepoState
state = record {
  last_check = some 10;
  changed_at = some 10;
  index_etag = none;
  index_last_modified = none;
  package_count = some 1;
  source_identity = some "arch";
  snapshot_revision = 1;
  key_expires_at = none;
  key_expiry_known = false;
}

abbrev vim_1 : Package
vim_1 = record { package_name = some "vim"; filename = "vim-1.zst"; content_hash = none }

abbrev pub warmed : Warmed
warmed = record {
  filename = "vim-1.zst";
  warmed_at = 5;
  succeeded = true;
  http_status = some 200;
  source = "prefetch";
  revision = "r1";
}

-- The record of vim-0 has left the catalogue, with a file that nothing else needs.
abbrev pub db : Db
db = record {
  repo_state = ("core", state) ∷ [];
  repo_packages = (("core", "vim-1"), vim_1) ∷ [];
  pending_replacements = [];
  warmed_packages = (("core", "vim-1"), warmed) ∷ (("core", "vim-0"), warmed) ∷ [];
  repo_events = [];
  prefetch_bans = [];
  nix_artifacts = (("core", ("vim-0", "a.nar")), record { content_hash = none; size = none }) ∷ [];
  nix_trust = [];
  package_interest = [];
}

abbrev upgraded : RepoSnapshot
upgraded = record {
  repo_id = "core";
  packages = ("vim-2", "vim-2.zst") ∷ [];
  names = ("vim-2", "vim") ∷ [];
  content_hashes = [];
}

-- A week later, rows of three days are old.
lookup-prune_warmed_packages_example : Pruned 604800 3 "core" "vim-0" "a.nar" db
lookup-prune_warmed_packages_example =
    lookup-prune_warmed_packages 604800 3 "core" "vim-0" "a.nar" db

interested_keys-record_snapshot_example :
    contains "vim-2" (
      interested_keys "core" "arch"
        (record_snapshot env upgraded meta (record_interest "core" ("vim-1" ∷ []) "arch" db)).0)
    ≡ true
unfolding lookup contains
interested_keys-record_snapshot_example =
    interested_keys-record_snapshot env upgraded meta "arch" ("vim-1" ∷ []) "vim-1" "vim-2" "vim"
      "vim-2.zst" db refl refl refl (refl, tt) refl refl refl
