-- ===== src/Purge/Tests.antt =====
-- Purges of a small cache.
use repowatch.Prelude.{
  ◌≡◌, refl, String, Bool, true, false, none, [], ◌∷◌, lookup, contains, keys, if◌then◌else◌, ◌==◌,
  text_keys,
}
use repowatch.Storage.Tables.{Db}
use repowatch.Storage.Repositories.{has_snapshot}
use repowatch.Storage.Cache.Nix.{nix_has_unknown_owners}
use repowatch.Storage.Cache.Tests.{db}
use repowatch.Purge.{Reply, answered, purge_selected_raw}
use repowatch.Purge.Nix.{selected_files, files_of}
use repowatch.Purge.Outcomes.{is_resolved, all_confirmed, purge_selected_raw-is_resolved}
use repowatch.Purge.Kept.{is_needed, contains-selected_files}

-- The copy under the key without dedup is gone, the other one cannot be removed.
abbrev server : String → String → Reply
server name url = if url == "new/a.deb" then answered 500 else answered 404

abbrev cache_key : Bool → String → String
cache_key dedup filename = if dedup then "new/a.deb" else "old/a.deb"

purge_selected_raw-is_resolved_example :
    is_resolved (lookup "a" (purge_selected_raw server cache_key true [] (("a", "a.deb") ∷ [])))
    ≡ false
unfolding lookup all_confirmed
purge_selected_raw-is_resolved_example =
    purge_selected_raw-is_resolved server cache_key true [] (("a", "a.deb") ∷ []) "a" "a.deb" refl

-- The catalogue names the file for vim-1, which is not selected and has one artifact, another file.
abbrev shared_db : Db
shared_db = record db {
  nix_artifacts =
      (("core", ("vim-0", "vim-1.zst")), record { content_hash = none; size = none })
      ∷ (("core", ("vim-1", "a.nar")), record { content_hash = none; size = none })
      ∷ [];
}

contains-selected_files_example :
    contains "vim-1.zst" (files_of (selected_files "core" (("vim-0", "b.narinfo") ∷ []) shared_db))
    ≡ false
unfolding is_needed has_snapshot lookup contains keys nix_has_unknown_owners
contains-selected_files_example =
    contains-selected_files "core" (("vim-0", "b.narinfo") ∷ []) "vim-1" "vim-1.zst" shared_db refl
