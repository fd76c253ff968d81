-- ===== src/Check/Errors.antt =====
-- operations/check.py: a check that fails, or that skips the download, leaves the catalogue and the
-- cache records alone.
use repowatch.Prelude.{
  ◌≡◌, refl, ◌∙◌, String, Bool, true, false, Option, none, some, List, [], ◌∷◌, arith, text_keys,
  Bool-cases, inl, inr,
}
use repowatch.Storage.Tables.{Db}
use repowatch.Storage.Repositories.{record_key_expiry, touch_last_check, get_index_meta}
use repowatch.Storage.Cache.Replacements.{Pending, get_pending_replacements}
use repowatch.Check.{
  Repo, Head, Env, State, Fetched, fetched, signature_error, fetch_error, CacheWork,
  check_key_expiry, is_skipped, head_of, finish_fetch, check_index, work_for,
}

-- The tables of packages, replacements, warm-up records and events are the same.
abbrev pub SameCatalog : Db → Db → Type 0
SameCatalog a b =
    (a.repo_packages ≡ b.repo_packages)
    × (a.pending_replacements ≡ b.pending_replacements)
    × (a.warmed_packages ≡ b.warmed_packages)
    × (a.repo_events ≡ b.repo_events)

-- The index was not read, whatever the reason.
unfoldable pub is_unread : Fetched → Bool
is_unread (fetched snapshot signers) = false
is_unread (signature_error detail) = true
is_unread fetch_error = true

SameCatalog-check_key_expiry :
    (env : Env) (repo : Repo) (signers : List (String × String)) (s : State)
    → SameCatalog (check_key_expiry env repo signers s).db s.db
unfolding check_key_expiry record_key_expiry
SameCatalog-check_key_expiry env repo signers s = (refl, refl, refl, refl)

SameCatalog-touch_last_check :
    (env : Env) (repo : Repo) (db : Db) → SameCatalog (touch_last_check env.now repo.id db) db
unfolding touch_last_check
SameCatalog-touch_last_check env repo db = (ground arith, ground arith, ground arith, ground arith)

SameCatalog-trans : (a b c : Db) → SameCatalog a b → SameCatalog b c → SameCatalog a c
SameCatalog-trans a b c p q = (p.0 ∙ q.0, p.1 ∙ q.1, p.2 ∙ q.2, p.3 ∙ q.3)

finish_fetch-none :
    (env : Env) (repo : Repo) (head : Head) (f : Fetched) (s : State)
    → is_unread f ≡ true
    → ((finish_fetch env repo head f s).0 ≡ none) × ((finish_fetch env repo head f s).1.db ≡ s.db)
unfolding finish_fetch is_unread
finish_fetch-none env repo head (fetched snapshot signers) s h = cc
finish_fetch-none env repo head (signature_error detail) s h = (refl, refl)
finish_fetch-none env repo head fetch_error s h = (refl, refl)

-- The work warms nothing and names no removed file.
abbrev pub WarmsNone : Option CacheWork → Type 0
WarmsNone none = Unit
WarmsNone (some work) = (work.warm ≡ []) × (work.removed_filenames ≡ [])

WarmsNone-work_for : (items : List Pending) → WarmsNone (work_for items)
WarmsNone-work_for [] = tt
WarmsNone-work_for (item ∷ items) = (refl, refl)

-- When the index cannot be read, for an error of the signature or any other, a check leaves the
-- packages, the pending replacements, the warm-up records and the events as they were, and asks
-- to warm nothing and to purge nothing of a removed file, also where it skips the download.
pub check_index-SameCatalog :
    (env : Env) (repo : Repo) (s : State)
    → is_unread env.fetch ≡ true
    → SameCatalog (check_index env repo s).1.db s.db × WarmsNone (check_index env repo s).0
unfolding check_index
check_index-SameCatalog env repo s unread =
    let s' = check_key_expiry env repo [] s in
    let same = SameCatalog-check_key_expiry env repo [] s in
    let previous = get_index_meta repo.id (some repo.identity) s'.db in
    let head = head_of (env.check_head previous) in
    elim (Bool-cases (is_skipped repo head previous s'.db)) [
      | inl skipped ↦ rw skipped (
        SameCatalog-trans (touch_last_check env.now repo.id s'.db) s'.db s.db
            (SameCatalog-touch_last_check env repo s'.db) same,
        WarmsNone-work_for (get_pending_replacements repo.id s'.db),
      )
      | inr on ↦
          let (idle, kept) = finish_fetch-none env repo head env.fetch s' unread in
          rw (on, idle, kept) (same, tt)
    ]
