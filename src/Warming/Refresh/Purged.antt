-- ===== src/Warming/Refresh/Purged.antt =====
-- operations/replacements.py: nothing is warmed over a file that nginx may still have.
use repowatch.Prelude.{
  ◌≡◌, refl, ap, String, Bool, true, false, not, ◌&&◌, ◌||◌, Option, none, some, List, [], ◌∷◌,
  arith, ◌==◌, text_keys, pair_keys, lookup, contains, is_some, lookup-insert, eq_iff, Option-cases,
  inl, inr, beq_refl,
}
use repowatch.Storage.Tables.{Replacement, Db}
use repowatch.Storage.Cache.Replacements.{Pending, finish_replacement}
use repowatch.Purge.{is_gone}
use repowatch.Warming.Rules.{Repo, WarmingPolicy}
use repowatch.Warming
use repowatch.Warming.Refresh.{Purging, purge_targets, purge_error, after_purge, refresh_item}

-- A target that has to be purged, and that is not.
abbrev pub is_left : Purging → String → String → String → String → Bool
is_left p r key target filename =
    (target == r || p.enable_dedup)
    && (not (filename == "")
        && not (contains target p.repos && is_gone (p.purge target key filename)))

unfoldable pub any_left : Purging → String → String → List (String × String) → Bool
any_left p r key [] = false
any_left p r key ((target, filename) ∷ targets) =
    is_left p r key target filename || any_left p r key targets

is_some-purge_targets :
    (p : Purging) (r key : String) (targets : List (String × String))
    → is_some (purge_targets p r key targets) ≡ any_left p r key targets
unfolding purge_targets any_left
is_some-purge_targets p r key [] = refl
is_some-purge_targets p r key ((target, filename) ∷ targets) =
    ground (arith, is_some-purge_targets p r key targets)

is_some-purge_error :
    (p : Purging) (r : String) (item : Pending)
    → is_some (purge_error p r item)
      ≡ (not p.enable_purge || any_left p r item.package_key item.targets)
unfolding purge_error
is_some-purge_error p r item =
    ground (arith, is_some-purge_targets p r item.package_key item.targets)

finish_replacement_error :
    (r key revision error : String) (q : Replacement) (db : Db)
    → lookup (r, key) db.pending_replacements ≡ some q
    → q.revision ≡ revision
    → lookup (r, key) (finish_replacement r key revision (some error) db).pending_replacements
      ≡ some (record q { last_error = some error })
unfolding finish_replacement
finish_replacement_error r key revision error q db at same = ground (
  arith,
  at,
  same,
  eq_iff q.revision revision,
  lookup-insert (r, key) (r, key) (record q { last_error = some error }) db.pending_replacements,
  beq_refl r,
  beq_refl key,
)

warmed-finish_replacement :
    (r key revision : String) (error : Option String) (db : Db)
    → (finish_replacement r key revision error db).warmed_packages ≡ db.warmed_packages
unfolding finish_replacement
warmed-finish_replacement r key revision error db = ground arith

abbrev pub error_of : Option Replacement → Option String
error_of none = none
error_of (some q) = q.last_error

-- While purging is off, or a target of a pending replacement has to be purged and is not
-- configured or not confirmed as gone, a refresh changes no warm-up record and leaves the
-- replacement pending with an error.
pub refresh_item-keeps :
    (env : Warming.Env) (p : Purging) (repo : Repo) (policy : WarmingPolicy)
    (interested : List String) (item : Pending) (s : Warming.State) (q : Replacement)
    → (not p.enable_purge || any_left p repo.id item.package_key item.targets) ≡ true
    → lookup (repo.id, item.package_key) s.db.pending_replacements ≡ some q
    → q.revision ≡ item.revision
    → let after = (refresh_item env p repo policy interested item s).db in
      (after.warmed_packages ≡ s.db.warmed_packages)
      × (is_some (error_of (lookup (repo.id, item.package_key) after.pending_replacements)) ≡ true)
unfolding refresh_item after_purge
refresh_item-keeps env p repo policy interested item s q left at same =
    elim (Option-cases (purge_error p repo.id item)) [
      | inl e ↦ ground (arith, e, left, is_some-purge_error p repo.id item)
      | inr (error, e) ↦
          let key = item.package_key in
          rw e (
            warmed-finish_replacement repo.id key item.revision (some error) s.db,
            ap (λ o. is_some (error_of o))
                (finish_replacement_error repo.id key item.revision error q s.db at same),
          )
    ]
