-- ===== src/Storage/Cache/Warmed/Expiry.antt =====
-- storage/cache.py: the retention of warm-up records, by the age of each row.
use repowatch.Prelude.{
  ℕ, ◌+◌, ◌-◌, ◌*◌, ◌≡◌, String, Bool, false, not, ◌&&◌, ◌||◌, Option, none, some, arith, ltb,
  if◌then◌else◌, text_keys, pair_keys, lookup, is_some, keep_where, lookup-keep_where,
  count_where-keep_where,
}
use repowatch.Storage.Tables.{Warmed, Db}
use repowatch.Storage.Cache.Warmed.{is_owned, get_stale_warmed_packages, prune_warmed_packages}

-- The row was warmed more than so many days ago.
abbrev pub is_aged : ℕ → ℕ → Option Warmed → Bool
is_aged now days none = false
is_aged now days (some w) = ltb (w.warmed_at + days * 86400) now

-- What the pruning does to one record and to one file of its package, by what was there before.
pub record Pruned (now days : ℕ) (r key filename : String) (db : Db) : Type 0 where
  pub listed :
      is_some (lookup (r, key) (get_stale_warmed_packages now days db))
      ≡ is_aged now days (lookup (r, key) db.warmed_packages)
  pub left : lookup (r, key) (prune_warmed_packages now days db).0.warmed_packages ≡ (
      if is_aged now days (lookup (r, key) db.warmed_packages)
      then none
      else lookup (r, key) db.warmed_packages)
  pub file : lookup (r, (key, filename)) (prune_warmed_packages now days db).0.nix_artifacts ≡ (
      if is_some (lookup (r, key) db.repo_packages)
        || (is_some (lookup (r, key) db.warmed_packages)
            && not (is_aged now days (lookup (r, key) db.warmed_packages)))
      then lookup (r, (key, filename)) db.nix_artifacts
      else none)
  pub nothing_more : (prune_warmed_packages now days (prune_warmed_packages now days db).0).1 ≡ 0

-- A warm-up record is listed as stale, and deleted by the pruning, exactly if it is more than
-- the given days old at that time; a file of a package is kept exactly if the package is in the
-- catalogue or has a record of that age or less; a second pruning at the same time deletes no
-- record.
pub lookup-prune_warmed_packages :
    (now days : ℕ) (r key filename : String) (db : Db) → Pruned now days r key filename db
unfolding prune_warmed_packages get_stale_warmed_packages
lookup-prune_warmed_packages now days r key filename db =
    let limit = now - days * 86400 in
    let left = keep_where (λ k w. not (ltb w.warmed_at limit)) db.warmed_packages in
    let row = lookup-keep_where (λ k w. not (ltb w.warmed_at limit)) (r, key) db.warmed_packages in
    record {
      listed =
          ground
            (arith, lookup-keep_where (λ k w. ltb w.warmed_at limit) (r, key) db.warmed_packages);
      left = ground (arith, row);
      file = ground (
        arith,
        row,
        lookup-keep_where (is_owned db.repo_packages left) (r, (key, filename)) db.nix_artifacts,
      );
      nothing_more = count_where-keep_where (λ k w. ltb w.warmed_at limit) db.warmed_packages;
    }
