-- ===== src/Notifications/Tests.antt =====
-- Histories of notifications.py.
use repowatch.Prelude.{
  ℕ, ◌+◌, ◌≡◌, refl, String, true, false, none, some, List, [], ◌∷◌, arith, lookup, contains, zero,
  suc,
}
use repowatch.Notifications.{Config, World, record_failure, enabled}
use repowatch.Notifications.Streaks.{
  Event, failure, success, run, run-streak, run_quiet, failure-alerts, count_of, flag_of, row,
  streak, alerts,
}
use repowatch.Notifications.Delivery.{Reply, answered, failed, send, IsBounded, send-IsBounded}

abbrev config : Config
config = record {
  notify_webhook_url = some "https://example.org/hook";
  notify_events = "repository.failing" ∷ "repository.recovered" ∷ [];
  notify_after_failures = 3;
}

abbrev quiet : World
quiet = record { table = []; sent = [] }

abbrev main_check : String × String
main_check = ("main", "check")

-- Two failures are stored, and not reported.
abbrev two_failures : World
two_failures = record {
  table =
      (
        main_check,
        record {
          consecutive_failures = 2;
          last_error = "timeout";
          last_failure_at = 7;
          notified = false;
        },
      )
      ∷ [];
  sent = [];
}

abbrev reported : World
reported = record {
  table =
      (
        main_check,
        record {
          consecutive_failures = 3;
          last_error = "timeout";
          last_failure_at = 8;
          notified = true;
        },
      )
      ∷ [];
  sent = [];
}

abbrev history : List Event
history =
    failure 1 main_check "timeout" true
    ∷ success ("other", "check") true
    ∷ failure 2 ("other", "check") "refused" false
    ∷ failure 3 main_check "timeout" true
    ∷ []

run-streak_example :
    count_of (row main_check (run config quiet history)) ≡ streak main_check 0 history
unfolding lookup
run-streak_example = run-streak config history main_check quiet

run_quiet_example :
    (alerts main_check (run config reported history).sent ≡ 0)
    × (flag_of (row main_check (run config reported history)) ≡ true)
unfolding lookup
run_quiet_example = run_quiet config history main_check reported refl (ground arith)

failure-alerts_example :
    (alerts main_check (record_failure config 9 main_check "timeout" false two_failures).sent
      ≡ 0 + 1)
    × (flag_of (row main_check (record_failure config 9 main_check "timeout" false two_failures))
        ≡ false)
unfolding enabled lookup contains
failure-alerts_example =
    failure-alerts config 9 main_check "timeout" false two_failures refl refl (ground arith)

-- Busy, then gone for a while, then well.
abbrev server : ℕ → Reply
server zero = answered 503 (some 10)
server (suc zero) = failed
server _ = answered 204 none

send-IsBounded_example : IsBounded server (send server)
send-IsBounded_example = send-IsBounded server
