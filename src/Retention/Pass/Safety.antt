-- ===== src/Retention/Pass/Safety.antt =====
-- operations/cleanup.py: without the clients' requests, a retention pass keeps the warm-up record of
-- every package of the catalogue.
use repowatch.Prelude.{
  ℕ, ◌≡◌, refl, ◌∙◌, String, Bool, true, false, ◌&&◌, ◌||◌, Option, none, some, List, [], ◌∷◌,
  arith, ◌==◌, text_keys, pair_keys, Assoc, lookup, insert, is_some, keys, contains, eq_iff,
  contains-keys, lookup-insert, lookup-keep_where, Bool-cases, inl, inr,
}
use repowatch.Storage.Tables.{Warmed, Db}
use repowatch.Storage.Cache.Warmed.{
  Records, is_stale, find_all_stale_warmed, get_warmed_records, remove_purged_records,
  remove_revision,
}
use repowatch.Storage.Cache.Warmed.Generations.{lookup-remove_purged_records-get_warmed_records}
use repowatch.Storage.Repositories.Events.{prune_events, prune_events_by_size}
use repowatch.Purge.Items.{Repo, purge_items}
use repowatch.Retention.Sweep.{
  Env, Groups, Purged, repo_by_id, resolved_purge_keys, files_in, items_of, note_item, group,
  purge_captured, purge_candidates, purge_groups, purge_removed_from_index,
}
use repowatch.Retention.Pass.{
  Config, prune_removed, prune_expired, prune_sized, prune_all, purge_removed_rows,
}

-- Some group of this repository has this key.
unfoldable targets : String → String → Groups → Bool
targets q j [] = false
targets q j ((r, items) ∷ m) = (r == q && contains j (keys items)) || targets q j m

targets-lookup :
    (q j : String) (m : Groups)
    → targets q j m ≡ false
    → contains j (keys (items_of (lookup q m))) ≡ false
unfolding targets lookup contains keys
targets-lookup q j [] h = refl
targets-lookup q j ((r, items) ∷ m) h = ground (arith, targets-lookup q j m)

targets-insert :
    (q j r : String) (items : Assoc String String) (m : Groups)
    → targets q j m ≡ false
    → (r == q && contains j (keys items)) ≡ false
    → targets q j (insert r items m) ≡ false
unfolding targets insert
targets-insert q j r items [] h i = ground arith
targets-insert q j r items ((p, old) ∷ m) h i =
    ground (arith, targets-insert q j r items m, eq_iff p r)

contains-keys-insert :
    (j key filename : String) (items : Assoc String String)
    → contains j (keys (insert key filename items)) ≡ (key == j || contains j (keys items))
contains-keys-insert j key filename items = ground (
  arith,
  contains-keys j (insert key filename items),
  contains-keys j items,
  lookup-insert key j filename items,
)

targets-note_item :
    (q j r key filename : String) (m : Groups)
    → (r == q && key == j) ≡ false
    → targets q j m ≡ false
    → targets q j (note_item r key filename m) ≡ false
unfolding note_item
targets-note_item q j r key filename m ne h =
    targets-insert q j r (insert key filename (items_of (lookup r m))) m h (
      ground (
        arith,
        contains-keys-insert j key filename (items_of (lookup r m)),
        targets-lookup q j m h,
        eq_iff r q,
      ))

targets-group :
    (q j : String) (stale : Assoc (String × String) Warmed) (m : Groups)
    → lookup (q, j) stale ≡ none
    → targets q j m ≡ false
    → targets q j (group stale m) ≡ false
unfolding group lookup
targets-group q j [] m l h = h
targets-group q j (((r, key), w) ∷ stale) m l h =
    targets-group q j stale (note_item r key w.filename m) (ground arith)
      (targets-note_item q j r key w.filename m (ground arith) h)

-- The package is in the catalogue and its warm-up record is this one.
abbrev pub is_kept : String → String → Db → Bool
is_kept q j db =
    is_some (lookup (q, j) db.repo_packages) && is_some (lookup (q, j) db.warmed_packages)

packages-remove_revision :
    (r k : String) (found : Option (String × String)) (db : Db)
    → (remove_revision r k found db).0.repo_packages ≡ db.repo_packages
packages-remove_revision r k none db = refl
packages-remove_revision r k (some (f, revision)) db = ground arith

packages-remove_purged_records :
    (r : String) (records : Records) (ks : List String) (db : Db)
    → (remove_purged_records r records ks db).0.repo_packages ≡ db.repo_packages
unfolding remove_purged_records
packages-remove_purged_records r records [] db = refl
packages-remove_purged_records r records (k ∷ ks) db =
    packages-remove_purged_records r records ks (remove_revision r k (lookup k records) db).0
    ∙ packages-remove_revision r k (lookup k records) db

is_kept-remove_purged_records :
    (q j r : String) (ks resolved : List String) (before db : Db)
    → (r == q && contains j ks) ≡ false
    → is_kept q j db ≡ true
    → is_kept q j (remove_purged_records r (get_warmed_records r ks none before) resolved db).0
      ≡ true
is_kept-remove_purged_records q j r ks resolved before db other h = ground (
  arith,
  lookup-remove_purged_records-get_warmed_records r q j ks resolved none before db,
  packages-remove_purged_records r (get_warmed_records r ks none before) resolved db,
  eq_iff q r,
  eq_iff r q,
)

repo_by_id-id :
    (r : String) (repos : List Repo) (repo : Repo) → repo_by_id r repos ≡ some repo → repo.id ≡ r
unfolding repo_by_id
repo_by_id-id r [] repo h = cc
repo_by_id-id r (first ∷ repos) repo h = elim (Bool-cases (first.id == r)) [
  | inl same ↦ ground (arith, eq_iff first.id r)
  | inr other ↦ repo_by_id-id r repos repo (ground arith)
]

-- Other tasks keep what is kept.
module _ (env : Env) (q j : String)
    (others_keep : (r : String) (d : Db)
      → is_kept q j d ≡ true
      → is_kept q j (env.others r d) ≡ true) where
  is_kept-purge_captured :
      (repo : Repo) (ks : List String) (files : Assoc String String) (done : Purged)
      → (repo.id == q && contains j ks) ≡ false
      → is_kept q j done.0 ≡ true
      → is_kept q j
          (purge_captured env repo (get_warmed_records repo.id ks none done.0) files done).0
        ≡ true
  unfolding purge_captured
  is_kept-purge_captured repo ks [] done other h = h
  is_kept-purge_captured repo ks (f ∷ fs) (db, results) other h =
      is_kept-remove_purged_records q j repo.id ks
        (resolved_purge_keys (purge_items env.nginx repo (f ∷ fs) db)) db (env.others repo.id db)
        other (others_keep repo.id db h)

  is_kept-purge_candidates :
      (r : String) (ks : List String) (o : Option Repo) (done : Purged)
      → repo_by_id r env.repos ≡ o
      → (r == q && contains j ks) ≡ false
      → is_kept q j done.0 ≡ true
      → is_kept q j (purge_candidates env ks o done).0 ≡ true
  unfolding purge_candidates
  is_kept-purge_candidates r ks none done e other h = h
  is_kept-purge_candidates r ks (some repo) (db, results) e other h =
      is_kept-purge_captured repo ks (files_in (get_warmed_records repo.id ks none db))
        (db, results) (rw (repo_by_id-id r env.repos repo e) other) h

  is_kept-purge_groups :
      (groups : Groups) (done : Purged)
      → targets q j groups ≡ false
      → is_kept q j done.0 ≡ true
      → is_kept q j (purge_groups env groups done).0 ≡ true
  unfolding purge_groups targets
  is_kept-purge_groups [] done t h = h
  is_kept-purge_groups ((r, items) ∷ groups) done t h =
      is_kept-purge_groups groups (purge_candidates env (keys items) (repo_by_id r env.repos) done)
        (ground arith)
        (is_kept-purge_candidates r (keys items) (repo_by_id r env.repos) done refl (ground arith)
          h)

  is_kept-purge_removed_rows :
      (rows : Assoc (String × String) Warmed) (db : Db)
      → lookup (q, j) rows ≡ none
      → is_kept q j db ≡ true
      → is_kept q j (purge_removed_rows env rows db) ≡ true
  unfolding purge_removed_from_index targets
  is_kept-purge_removed_rows [] db none_of h = h
  is_kept-purge_removed_rows (row ∷ rows) db none_of h =
      is_kept-purge_groups (group (row ∷ rows) []) (db, [])
        (targets-group q j (row ∷ rows) [] none_of refl) h

  is_kept-prune_removed :
      (db : Db) → is_kept q j db ≡ true → is_kept q j (prune_removed env db) ≡ true
  unfolding prune_removed find_all_stale_warmed
  is_kept-prune_removed db h =
      let gone : lookup (q, j) (find_all_stale_warmed db) ≡ none =
        ground
          (arith, h, lookup-keep_where (is_stale db.repo_packages) (q, j) db.warmed_packages) in
      ground (arith, h, is_kept-purge_removed_rows (find_all_stale_warmed db) db gone h)

-- Neither pruning of events reads or writes another table.
is_kept-prune_events :
    (q j : String) (now days : ℕ) (db : Db)
    → is_kept q j (prune_events now days db).0 ≡ is_kept q j db
unfolding prune_events
is_kept-prune_events q j now days db = refl

is_kept-prune_sized :
    (q j : String) (limit : Option ℕ) (db : Db)
    → is_kept q j (prune_sized limit db) ≡ is_kept q j db
unfolding prune_events_by_size
is_kept-prune_sized q j none db = refl
is_kept-prune_sized q j (some n) db = refl

-- While the listener of client requests is off, a retention pass keeps the warm-up record of a
-- package that is in the catalogue, if the tasks that run during the pass keep package and
-- record.
pub is_kept-prune_all :
    (c : Config) (env : Env) (q j : String) (db : Db)
    → c.syslog_enabled ≡ false
    → ((r : String) (d : Db) → is_kept q j d ≡ true → is_kept q j (env.others r d) ≡ true)
    → is_kept q j db ≡ true
    → is_kept q j (prune_all c env db) ≡ true
unfolding prune_all prune_expired
is_kept-prune_all c env q j db off others_keep h =
    let first = (prune_events env.now c.event_retention_days db).0 in
    rw (is_kept-prune_sized, off)
      (is_kept-prune_removed env q j others_keep first (rw is_kept-prune_events h))
