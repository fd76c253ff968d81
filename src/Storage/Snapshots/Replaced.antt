-- ===== src/Storage/Snapshots/Replaced.antt =====
-- What storage/repositories.py's `record_snapshot` leaves to do for a package whose file was
-- replaced, and that it forgets the warm-up of the old file.
use repowatch.Prelude.{
  least, ◌≡◌, refl, ◌∙◌, String, true, false, ◌&&◌, Option, none, some, List, [], ◌∷◌, arith, ◌==◌,
  text_keys, pair_keys, Assoc, lookup, contains, lookup-insert, lookup-remove, Option-cases,
  Bool-cases, inl, inr, eq_iff, beq_refl, ◌≢◌, ◌⊎◌, subst, sym,
}
use repowatch.Storage.Tables.{Package, Replacement, Db}
use repowatch.Storage.Snapshots.{
  RepoSnapshot, Env, Meta, catalog, stage, stage_all, replacement, add_target, shared_target,
  owners, known_targets, differs, record_snapshot, diff_of,
}
use repowatch.Storage.Snapshots.Catalog.{lookup-catalog}
use repowatch.Storage.Snapshots.Diff.{contains-modified_packages, changed_file}

contains-add_target :
    (t u : String × String) (ts : List (String × String))
    → contains u ts ≡ true
    → contains u (add_target t ts) ≡ true
unfolding contains
contains-add_target t u ts h = ground arith

contains-add_target_self :
    (t : String × String) (ts : List (String × String)) → contains t (add_target t ts) ≡ true
contains-add_target_self t ts = elim (Bool-cases (contains t ts)) [
  | inl old ↦ rw old old
  | inr new ↦ rw new (unfold contains in rw (beq_refl t) refl)
]

contains-shared_target :
    (env : Env) (filename : String) (hash : Option String) (rows : Assoc (String × String) Package)
    (ts : List (String × String)) (t : String × String)
    → contains t ts ≡ true
    → contains t (shared_target env filename hash rows ts) ≡ true
contains-shared_target env filename none rows ts t h = h
contains-shared_target env filename (some hash) rows ts t h =
    elim (Option-cases (least (owners filename hash rows))) [
      | inl e ↦ ground arith
      | inr (shared, e) ↦ ground (arith, contains-add_target (shared, filename) t ts)
    ]

-- Both the old and the new file of the package are to be purged, with no error yet, and the
-- package no longer counts as warmed.
pub record IsStaged (s : RepoSnapshot) (k old_file new_file : String) (db : Db) : Type 0 where
  pub pending : Replacement
  pub there : lookup (s.repo_id, k) db.pending_replacements ≡ some pending
  pub purges_old : contains (s.repo_id, old_file) pending.targets ≡ true
  pub purges_new : contains (s.repo_id, new_file) pending.targets ≡ true
  pub no_error : pending.last_error ≡ none
  pub expects : pending.expected_hash ≡ lookup k s.content_hashes
  pub not_warmed : lookup (s.repo_id, k) db.warmed_packages ≡ none

module _ (env : Env) (previous : Assoc String Package) (s : RepoSnapshot) where
  stage-IsStaged_self :
      (k filename : String) (old : Package) (db : Db)
      → lookup k previous ≡ some old
      → lookup k s.packages ≡ some filename
      → IsStaged s k old.filename filename (stage env previous s k db)
  unfolding stage
  stage-IsStaged_self k filename old db e f =
      let known = known_targets (lookup (s.repo_id, k) db.pending_replacements) in
      let first = add_target (s.repo_id, old.filename) known in
      let both = add_target (s.repo_id, filename) first in
      let r = replacement env s k filename old db in
      record {
        pending = r;
        there = ground (
          arith,
          e,
          f,
          lookup-insert (s.repo_id, k) (s.repo_id, k) r db.pending_replacements,
          eq_iff k k,
          eq_iff s.repo_id s.repo_id,
        );
        purges_old =
            contains-shared_target env old.filename old.content_hash db.repo_packages both _
              (contains-add_target _ _ first (contains-add_target_self _ known));
        purges_new =
            contains-shared_target env old.filename old.content_hash db.repo_packages both _
              (contains-add_target_self _ first);
        no_error = refl;
        expects = refl;
        not_warmed = ground (
          arith,
          e,
          f,
          lookup-remove (s.repo_id, k) (s.repo_id, k) db.warmed_packages,
          eq_iff k k,
          eq_iff s.repo_id s.repo_id,
        );
      }

  -- Staging one package leaves the rows of every other as they are.
  stage_ne :
      (j k : String) (db : Db) (q : String)
      → (s.repo_id == q && j == k) ≡ false
      → (lookup (q, k) (stage env previous s j db).pending_replacements
          ≡ lookup (q, k) db.pending_replacements)
        × (lookup (q, k) (stage env previous s j db).warmed_packages
            ≡ lookup (q, k) db.warmed_packages)
  unfolding stage
  stage_ne j k db q ne = elim (Option-cases (lookup j previous)) [
    | inl e ↦ ground arith
    | inr (old, e) ↦ elim (Option-cases (lookup j s.packages)) [
      | inl f ↦ ground arith
      | inr (filename, f) ↦ ground (
        arith,
        lookup-insert (s.repo_id, j) (q, k) (replacement env s j filename old db)
            db.pending_replacements,
        lookup-remove (s.repo_id, j) (q, k) db.warmed_packages,
      )
    ]
  ]

  stage-IsStaged :
      (j k old_file new_file : String) (db : Db)
      → j ≢ k
      → IsStaged s k old_file new_file db
      → IsStaged s k old_file new_file (stage env previous s j db)
  stage-IsStaged j k old_file new_file db ne t =
      let same = stage_ne j k db s.repo_id (ground (arith, eq_iff j k)) in
      record {
        pending = t.pending;
        there = same.0 ∙ t.there;
        purges_old = t.purges_old;
        purges_new = t.purges_new;
        no_error = t.no_error;
        expects = t.expects;
        not_warmed = same.1 ∙ t.not_warmed;
      }

  stage_all-IsStaged :
      (ks : List String) (k filename : String) (old : Package) (db : Db)
      → lookup k previous ≡ some old
      → lookup k s.packages ≡ some filename
      → (contains k ks ≡ true) ⊎ IsStaged s k old.filename filename db
      → IsStaged s k old.filename filename (stage_all env previous s ks db)
  unfolding stage_all contains
  stage_all-IsStaged [] k filename old db e f (inl m) = cc
  stage_all-IsStaged [] k filename old db e f (inr t) = t
  stage_all-IsStaged (j ∷ ks) k filename old db e f h = elim (Bool-cases (j == k)) [
    | inl same ↦ stage_all-IsStaged ks k filename old (stage env previous s j db) e f (
        inr (
          subst (λ x. IsStaged s k old.filename filename (stage env previous s x db))
            (sym ((eq_iff j k).0 same)) (stage-IsStaged_self k filename old db e f)))
    | inr other ↦
        stage_all-IsStaged ks k filename old (stage env previous s j db) e f
          (either_after j k ks db other h)
  ]
    where
      either_after :
          (j k : String) (ks : List String) (db : Db)
          → (j == k) ≡ false
          → (contains k (j ∷ ks) ≡ true) ⊎ IsStaged s k old.filename filename db
          → (contains k ks ≡ true) ⊎ IsStaged s k old.filename filename (stage env previous s j db)
      either_after j k ks db other (inl m) = inl (ground arith)
      either_after j k ks db other (inr t) =
          inr (stage-IsStaged j k old.filename filename db (ground (arith, eq_iff j k)) t)

  stage_all_ne :
      (ks : List String) (k : String) (db : Db) (q : String)
      → (s.repo_id == q && contains k ks) ≡ false
      → (lookup (q, k) (stage_all env previous s ks db).pending_replacements
          ≡ lookup (q, k) db.pending_replacements)
        × (lookup (q, k) (stage_all env previous s ks db).warmed_packages
            ≡ lookup (q, k) db.warmed_packages)
  unfolding stage_all contains
  stage_all_ne [] k db q ne = (refl, refl)
  stage_all_ne (j ∷ ks) k db q ne =
      let later = stage_all_ne ks k (stage env previous s j db) q (ground arith) in
      let here = stage_ne j k db q (ground arith) in (later.0 ∙ here.0, later.1 ∙ here.1)

-- A package whose file name changes, or whose known hash does, is left with a pending
-- replacement that targets the old and the new file, expects the new hash and has no error, and
-- with no warm-up record.
pub record_snapshot-IsStaged :
    (env : Env) (s : RepoSnapshot) (meta : Meta) (db : Db) (k filename : String) (old : Package)
    → lookup (s.repo_id, k) db.repo_packages ≡ some old
    → lookup k s.packages ≡ some filename
    → differs old filename (lookup k s.content_hashes) ≡ true
    → IsStaged s k old.filename filename (record_snapshot env s meta db).0
record_snapshot-IsStaged env s meta db k filename old e f h =
    let previous = catalog s.repo_id db.repo_packages in
    let d = diff_of env previous s in
    let modified = contains-modified_packages env s meta db k in
    let t =
      stage_all-IsStaged env previous s d.modified_packages k filename old db
        (lookup-catalog s.repo_id k db.repo_packages ∙ e) f
        (inl (unfold record_snapshot in modified ∙ rw (e, f) h)) in
    unfold record_snapshot in
    record {
      pending = t.pending;
      there = t.there;
      purges_old = t.purges_old;
      purges_new = t.purges_new;
      no_error = t.no_error;
      expects = t.expects;
      not_warmed = t.not_warmed;
    }

-- The pending replacement and the warm-up record of every package that is not a replaced one of
-- the snapshot are as they were.
pub record_snapshot_ne :
    (env : Env) (s : RepoSnapshot) (meta : Meta) (db : Db) (q k : String)
    → (s.repo_id == q
        && changed_file s k (lookup (s.repo_id, k) db.repo_packages) (lookup k s.packages))
      ≡ false
    → (lookup (q, k) (record_snapshot env s meta db).0.pending_replacements
        ≡ lookup (q, k) db.pending_replacements)
      × (lookup (q, k) (record_snapshot env s meta db).0.warmed_packages
          ≡ lookup (q, k) db.warmed_packages)
unfolding record_snapshot
record_snapshot_ne env s meta db q k ne =
    let previous = catalog s.repo_id db.repo_packages in
    let modified = contains-modified_packages env s meta db k in
    stage_all_ne env previous s (diff_of env previous s).modified_packages k db q
      (ground (arith, modified, ne))
