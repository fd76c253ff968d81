-- ===== src/Storage/Cache/Removal.antt =====
-- storage/cache.py: the count and removal of everything that is stored for a repository.
pub mod Laws
use repowatch.Prelude.{ℕ, String, List, [], ◌++◌, map, Assoc}
use repowatch.Storage.Tables.{Db}
use repowatch.Storage.Owned.{delete_from, count_in, by_repo, by_key, by_file, with_count}

abbrev pub counts_of : ℕ → ℕ → ℕ → ℕ → ℕ → Assoc String ℕ
counts_of warmed bans artifacts trust interest = with_count "warmed_packages" warmed (
    with_count "prefetch_bans" bans (
      with_count "nix_artifacts" artifacts
        (with_count "nix_trust" trust (with_count "package_interest" interest []))))

unfoldable pub count_repo_rows : String → Db → Assoc String ℕ
unfolding count_in
count_repo_rows r db =
    counts_of (count_in by_key r db.warmed_packages) (count_in by_key r db.prefetch_bans)
      (count_in by_file r db.nix_artifacts) (count_in by_repo r db.nix_trust)
      (count_in by_file r db.package_interest)

unfoldable pub delete_repo_rows : String → Db → Db × Assoc String ℕ
unfolding delete_from
delete_repo_rows r db =
    let (warmed, a) = delete_from by_key r db.warmed_packages in
    let (bans, b) = delete_from by_key r db.prefetch_bans in
    let (artifacts, c) = delete_from by_file r db.nix_artifacts in
    let (trust, d) = delete_from by_repo r db.nix_trust in
    let (interest, e) = delete_from by_file r db.package_interest in
    (
      record db {
        warmed_packages = warmed;
        prefetch_bans = bans;
        nix_artifacts = artifacts;
        nix_trust = trust;
        package_interest = interest;
      },
      counts_of a b c d e,
    )

-- The repositories that have a row in any of the five tables.
unfoldable pub get_repo_ids_with_data : Db → List String
get_repo_ids_with_data db =
    map by_key db.warmed_packages
    ++ (map by_key db.prefetch_bans
        ++ (map by_file db.nix_artifacts
            ++ (map by_repo db.nix_trust ++ map by_file db.package_interest)))
