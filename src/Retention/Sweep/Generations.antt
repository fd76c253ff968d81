-- ===== src/Retention/Sweep/Generations.antt =====
-- operations/cleanup.py: when a purge of expired rows forgets one.
use repowatch.Prelude.{
  ℕ, ◌≡◌, String, true, ◌&&◌, none, some, List, [], ◌∷◌, arith, ◌==◌, text_keys, pair_keys, Assoc,
  lookup, keys, contains, subst,
}
use repowatch.Storage.Tables.{Warmed, Db}
use repowatch.Storage.Cache.Warmed.{is_expired, get_warmed_records}
use repowatch.Storage.Cache.Warmed.Generations.{lookup-remove_purged_records-get_warmed_records}
use repowatch.Purge.Items.{Repo, purge_items}
use repowatch.Retention.Sweep.{Env, repo_by_id, resolved_purge_keys, files_in, unwarm, unwarm_stale}

unwarm_forgets :
    (env : Env) (days : ℕ) (repo : Repo) (r j : String) (ks : List String)
    (files : Assoc String String) (before : Db) (w0 w : Warmed)
    → lookup (r, j) before.warmed_packages ≡ some w0
    → lookup (r, j) (env.others r before).warmed_packages ≡ some w
    → let records = get_warmed_records r ks (some (env.now, days)) before in
      lookup (r, j) (unwarm env r records files (some repo) before).warmed_packages ≡ none
      → (is_expired env.now days w0
          && (w.revision == w0.revision
              && contains j (resolved_purge_keys (purge_items env.nginx repo files before))))
        ≡ true
unfolding unwarm
unwarm_forgets env days repo r j ks [] before w0 w h0 h gone = ground arith
unwarm_forgets env days repo r j ks (f ∷ fs) before w0 w h0 h gone =
    let results = purge_items env.nginx repo (f ∷ fs) before in
    ground (
      arith,
      h0,
      h,
      gone,
      lookup-remove_purged_records-get_warmed_records r r j ks (resolved_purge_keys results)
          (some (env.now, days)) before (env.others r before),
    )

-- When a warm-up record of a configured repository that was there before the purge, and still
-- there while nginx was asked, is gone after it, then it was expired, its revision did not
-- change in between, and its package is among the resolved ones.
pub unwarm_stale_forgets :
    (env : Env) (days : ℕ) (repo : Repo) (r j : String) (items : Assoc String String) (before : Db)
    (w0 w : Warmed)
    → repo_by_id r env.repos ≡ some repo
    → lookup (r, j) before.warmed_packages ≡ some w0
    → lookup (r, j) (env.others r before).warmed_packages ≡ some w
    → lookup (r, j) (unwarm_stale env days r items before).warmed_packages ≡ none
    → let files = files_in (get_warmed_records r (keys items) (some (env.now, days)) before) in
      (is_expired env.now days w0
        && (w.revision == w0.revision
            && contains j (resolved_purge_keys (purge_items env.nginx repo files before))))
      ≡ true
unfolding unwarm_stale
unwarm_stale_forgets env days repo r j items before w0 w known h0 h gone =
    let records = get_warmed_records r (keys items) (some (env.now, days)) before in
    unwarm_forgets env days repo r j (keys items) (files_in records) before w0 w h0 h (
      subst
        (λ o.
          lookup (r, j) (unwarm env r records (files_in records) o before).warmed_packages ≡ none)
        known gone)
