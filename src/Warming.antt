-- ===== src/Warming.antt =====
-- operations/warm.py and warming_policy.py: which packages are warmed, and what is recorded of them.
-- The downloads of a run stand in the order in which they end.
pub mod Rules
pub mod Attempts
pub mod Refresh
pub mod Tests
use repowatch.Prelude.{
  ℕ, String, Bool, true, false, not, ◌&&◌, ◌||◌, Option, none, some, List, [], ◌∷◌, if◌then◌else◌,
  ◌==◌, text_keys, Assoc, lookup, insert, keys, contains, sorted, select, is_some, length,
}
use repowatch.Notifications
use repowatch.Notifications.{World}
use repowatch.Storage.Tables.{Db}
use repowatch.Storage.Repositories.{get_packages_by_keys}
use repowatch.Storage.Cache.Warmed.{Outcome, record_warmed_package}
use repowatch.Storage.Cache.Interest.{record_interest}
use repowatch.Warming.Rules.{Repo, WarmingPolicy, policy_of, allows}

-- `download` answers for a package key, an address and the hash to expect; `admits` is
-- `automatic_warm_enabled` when the turn of a package comes.
pub record Env : Type 0 where
  pub matches : String → String → Bool
  pub url : String → String
  pub download : String → String → Option String → Bool × Option ℕ
  pub admits : String → Bool
  pub now : ℕ
  pub new_id : String → String
  pub settings : Notifications.Config
  pub message : ℕ → ℕ → Option String → String
  pub delivered : Bool

pub record State : Type 0 where
  pub db : Db
  pub notices : World

abbrev pub is_wanted : Env → WarmingPolicy → String → String → Bool
is_wanted env policy key filename = not (filename == "") && allows env.matches policy key

unfoldable pub tasks_of : Env → WarmingPolicy → Assoc String String → Assoc String String
tasks_of env policy [] = []
tasks_of env policy ((key, filename) ∷ packages) =
    let rest = tasks_of env policy packages in
    if is_wanted env policy key filename then (key, filename) ∷ rest else rest

-- An empty hash is not checked.
abbrev pub digest_of : Option String → Option String
digest_of none = none
digest_of (some hash) = if hash == "" then none else some hash

abbrev pub recorded : Env → String → String → String → Bool × Option ℕ → Db → Db
recorded env r key filename (success, status) db =
    record_warmed_package r key
      (record {
        filename = filename;
        now = env.now;
        succeeded = success;
        http_status = status;
        source = "prefetch";
        revision = env.new_id key;
      })
      db

abbrev pub Run : Type 0
Run = Assoc String Bool × Db

-- Automatic warming can be switched off while a package waits for its turn.
unfoldable pub run_task : Env → String → Bool → Assoc String String → String → String → Run → Run
run_task env r force hashes key filename (outcomes, db) =
    let reply = env.download key (env.url filename) (digest_of (lookup key hashes)) in
    if force || env.admits key
    then (insert key reply.0 outcomes, recorded env r key filename reply db)
    else (outcomes, db)

unfoldable pub run_tasks :
    Env → String → Bool → Assoc String String → Assoc String String → Run → Run
unfolding run_task
run_tasks env r force hashes [] done = done
run_tasks env r force hashes ((key, filename) ∷ tasks) done =
    run_tasks env r force hashes tasks (run_task env r force hashes key filename done)

unfoldable pub failed_keys : Assoc String Bool → List String
failed_keys [] = []
failed_keys ((key, success) ∷ outcomes) =
    let rest = failed_keys outcomes in if success then rest else key ∷ rest

abbrev pub first_of : List String → Option String
first_of [] = none
first_of (k ∷ ks) = some k

-- A run with a failure counts once in the streak, one without ends it.
abbrev pub noted : Env → String → ℕ → List String → World → World
noted env r n [] w = Notifications.record_success env.settings (r, "prefetch") env.delivered w
noted env r n (k ∷ ks) w =
    Notifications.record_failure env.settings env.now (r, "prefetch")
      (env.message (length (k ∷ ks)) n (first_of (k ∷ ks))) env.delivered w

unfoldable pub reported : Env → String → ℕ → Assoc String Bool → World → World
unfolding failed_keys
reported env r n [] w = w
reported env r n (outcome ∷ outcomes) w = noted env r n (failed_keys (outcome ∷ outcomes)) w

-- A manual selection is demand.
abbrev pub demanded : Repo → Bool → Assoc String String → Db → Db
demanded repo force tasks db =
    if force then record_interest repo.id (keys tasks) repo.identity db else db

unfoldable pub run_all :
    Env
    → Repo
    → Bool
    → Assoc String String
    → Assoc String String
    → State
    → Assoc String Bool × State
unfolding run_tasks reported
run_all env repo force hashes [] s = ([], s)
run_all env repo force hashes (task ∷ tasks) s =
    let db = demanded repo force (task ∷ tasks) s.db in
    let (outcomes, db') = run_tasks env repo.id force hashes (task ∷ tasks) ([], db) in
    (
      outcomes,
      record {
        db = db';
        notices = reported env repo.id (length (task ∷ tasks)) outcomes s.notices;
      },
    )

-- `_warm_cache` of a repository that is not a Nix one.
unfoldable pub warm_packages :
    Env
    → Repo
    → Assoc String String
    → Bool
    → Assoc String String
    → State
    → Assoc String Bool × State
unfolding tasks_of run_all
warm_packages env repo packages force hashes s =
    if force || repo.prefetch
    then run_all env repo force hashes (tasks_of env (policy_of repo s.db) packages) s
    else ([], s)

pub record Report : Type 0 where
  pub warmed : List String
  pub failed : List String
  pub skipped : List String
  pub not_found : List String

unfoldable pub with_result : Bool → Assoc String Bool → List String
with_result wanted [] = []
with_result wanted ((key, success) ∷ outcomes) =
    let rest = with_result wanted outcomes in
    if (if wanted then success else not success) then key ∷ rest else rest

abbrev pub or_none : Option (Assoc String String) → Assoc String String
or_none none = []
or_none (some files) = files

unfoldable pub found : Assoc String String → List String → Assoc String String
found known [] = []
found known (key ∷ ks) =
    let rest = found known ks in
    elim (lookup key known) [ none ↦ rest | some filename ↦ insert key filename rest ]

unfoldable pub report_of : Assoc String String → List String → Assoc String Bool → Report
unfolding found with_result
report_of known requested outcomes = record {
  warmed = sorted (with_result true outcomes);
  failed = sorted (with_result false outcomes);
  skipped =
      sorted (select (λ key. not (is_some (lookup key outcomes))) (keys (found known requested)));
  not_found = select (λ key. not (is_some (lookup key known))) requested;
}

unfoldable pub warm_selected : Env → Repo → List String → State → Report × State
unfolding warm_packages report_of
warm_selected env repo requested s =
    let known = or_none (get_packages_by_keys repo.id requested s.db) in
    let (outcomes, s') = warm_packages env repo (found known requested) true [] s in
    (report_of known requested outcomes, s')
