-- ===== src/Storage/Tests.antt =====
-- Snapshots of a small repository, for storage/repositories.py.
use repowatch.Prelude.{
  sorted, text_keys, pair_keys, ◌≡◌, refl, false, none, some, [], ◌∷◌, lookup, insert, keys, select,
}
use repowatch.Storage.Tables.{RepoState, Package, Db}
use repowatch.Storage.Snapshots.{RepoSnapshot, Env, Meta, record_snapshot, differs}
use repowatch.Storage.Snapshots.Catalog.{lookup-record_snapshot}
use repowatch.Storage.Snapshots.Diff.{Reports, record_snapshot-Reports}
use repowatch.Storage.Snapshots.Revision.{
  revision_of, file_of, record_snapshot_again, revision_sound,
}
use repowatch.Storage.Snapshots.Replaced.{IsStaged, record_snapshot-IsStaged, record_snapshot_ne}

abbrev env : Env
env = record { now = 50; new_id = λ k. k }

abbrev meta : Meta
meta = record { etag = some "e2"; last_modified = none; source = some "debian" }

abbrev curl_1 : Package
curl_1 = record {
  package_name = some "curl";
  filename = "pool/curl_1.deb";
  content_hash = some "aa";
}

abbrev state : RepoState
state = record {
  last_check = some 10;
  changed_at = some 10;
  index_etag = some "e1";
  index_last_modified = none;
  package_count = some 2;
  source_identity = some "debian";
  snapshot_revision = 4;
  key_expires_at = none;
  key_expiry_known = false;
}

abbrev db : Db
db = record {
  repo_state = ("main", state) ∷ [];
  repo_packages =
      (("main", "curl"), curl_1)
      ∷ (("main", "vim"), record { package_name = none; filename = "vim_1"; content_hash = none })
      ∷ (("other", "curl"), curl_1)
      ∷ [];
  pending_replacements = [];
  warmed_packages = [];
  repo_events = [];
  prefetch_bans = [];
  nix_artifacts = [];
  nix_trust = [];
  package_interest = [];
}

-- curl is rebuilt under its old name, vim goes, and git is new.
abbrev rebuilt : RepoSnapshot
rebuilt = record {
  repo_id = "main";
  packages = ("curl", "pool/curl_1.deb") ∷ ("git", "pool/git_1.deb") ∷ [];
  names = [];
  content_hashes = ("curl", "bb") ∷ [];
}

-- The same catalogue as is stored.
abbrev unmoved : RepoSnapshot
unmoved = record {
  repo_id = "main";
  packages = ("curl", "pool/curl_1.deb") ∷ ("vim", "vim_1") ∷ [];
  names = [];
  content_hashes = ("curl", "aa") ∷ [];
}

lookup-record_snapshot_example :
    lookup ("main", "vim") (record_snapshot env rebuilt meta db).0.repo_packages ≡ none
unfolding lookup
lookup-record_snapshot_example =
    lookup-record_snapshot env rebuilt meta db "main" "vim" (refl, (refl, tt))

record_snapshot-Reports_example : Reports (record_snapshot env rebuilt meta db).1 rebuilt db "git"
record_snapshot-Reports_example = record_snapshot-Reports env rebuilt meta db "git"

record_snapshot-IsStaged_example :
    IsStaged rebuilt "curl" "pool/curl_1.deb" "pool/curl_1.deb"
      (record_snapshot env rebuilt meta db).0
unfolding lookup differs
record_snapshot-IsStaged_example =
    record_snapshot-IsStaged env rebuilt meta db "curl" "pool/curl_1.deb" curl_1 refl refl refl

record_snapshot_ne_example :
    (lookup ("other", "curl") (record_snapshot env rebuilt meta db).0.pending_replacements
      ≡ lookup ("other", "curl") db.pending_replacements)
    × (lookup ("other", "curl") (record_snapshot env rebuilt meta db).0.warmed_packages
        ≡ lookup ("other", "curl") db.warmed_packages)
record_snapshot_ne_example = record_snapshot_ne env rebuilt meta db "other" "curl" refl

record_snapshot_again_example :
    ((record_snapshot env rebuilt meta (record_snapshot env rebuilt meta db).0).1.changed ≡ false)
    × (revision_of (
          lookup "main"
            (record_snapshot env rebuilt meta (record_snapshot env rebuilt meta db).0).0.repo_state)
        ≡ revision_of (lookup "main" (record_snapshot env rebuilt meta db).0.repo_state))
unfolding lookup
record_snapshot_again_example =
    record_snapshot_again env env rebuilt meta meta db (refl, (refl, tt))

revision_sound_example :
    file_of (lookup ("main", "vim") (record_snapshot env unmoved meta db).0.repo_packages)
    ≡ file_of (lookup ("main", "vim") db.repo_packages)
unfolding lookup record_snapshot insert sorted select keys differs
revision_sound_example = revision_sound env unmoved meta db state "vim" (refl, (refl, tt)) refl refl
