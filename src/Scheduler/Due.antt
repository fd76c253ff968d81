-- ===== src/Scheduler/Due.antt =====
-- runtime/scheduler.py: which repositories are due.
use repowatch.Prelude.{
  ℕ, ◌+◌, String, Bool, true, false, Option, none, some, List, [], ◌∷◌, if◌then◌else◌, leb, ◌==◌,
  text_keys, Assoc, lookup,
}

pub record RepoConfig : Type 0 where
  pub id : String
  pub check_interval : Option ℕ

unfoldable pub ids_of : List RepoConfig → List String
ids_of [] = []
ids_of (repo ∷ repos) = repo.id ∷ ids_of repos

abbrev pub effective_check_interval : ℕ → RepoConfig → ℕ
effective_check_interval default repo = elim repo.check_interval [ none ↦ default | some n ↦ n ]

-- The time, the column `last_check` of the repositories, and how a text is read as a time.
pub record Clock : Type 0 where
  pub now : ℕ
  pub summaries : Assoc String String
  pub fromisoformat : String → Option ℕ

-- `none` where the text is no time.
abbrev pub reached : ℕ → ℕ → Option ℕ → Option Bool
reached now interval none = none
reached now interval (some last_check) = some (leb (last_check + interval) now)

unfoldable pub is_due : ℕ → Clock → RepoConfig → Option Bool
is_due default clock repo = elim (lookup repo.id clock.summaries) [
  | none ↦ some true
  | some text ↦
      if text == ""
      then some true
      else reached clock.now (effective_check_interval default repo) (clock.fromisoformat text)
]

abbrev pub sort_out : String → Option Bool → List String × List String → List String × List String
sort_out r none (due, failed) = (due, r ∷ failed)
sort_out r (some true) (due, failed) = (r ∷ due, failed)
sort_out r (some false) (due, failed) = (due, failed)

-- The due repositories, and those whose time could not be read.
unfoldable pub due_repositories : ℕ → Clock → List RepoConfig → List String × List String
unfolding is_due
due_repositories default clock [] = ([], [])
due_repositories default clock (repo ∷ repos) =
    sort_out repo.id (is_due default clock repo) (due_repositories default clock repos)
