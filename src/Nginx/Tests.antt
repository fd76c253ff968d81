-- ===== src/Nginx/Tests.antt =====
-- Runs of nginx/apply.py on small machines.
use repowatch.Prelude.{
  ℕ, ◌≡◌, refl, String, Bool, true, false, not, ◌||◌, none, some, List, [], ◌∷◌, nat_eq, Assoc,
  lookup, insert, remove,
}
use repowatch.Nginx.Files.{
  Output, active, purge, dedup, probe_conf, probe_js, File, current, Machine, content,
}
use repowatch.Nginx.Apply.{Plan, transaction, apply, unchanged, publish, rollback_failed}
use repowatch.Nginx.Apply.Rollback.{transaction_restored}
use repowatch.Nginx.Apply.Publish.{IsPublished, apply-IsPublished, apply-apply}

abbrev candidate : Output → String
candidate active = "server { listen 81; }"
candidate purge = "purge"
candidate dedup = "dedup"
candidate probe_conf = "probe"
candidate probe_js = "js"

abbrev first_of : List String → String
first_of [] = ""
first_of (t ∷ ts) = t

abbrev plan : Plan
plan = record {
  enabled = true;
  policy_agrees = true;
  force = false;
  candidate = candidate;
  inputs = some "v1";
  inputs_after = some "v1";
  hash = first_of;
}

abbrev texts : Assoc File String
texts = (current active, "server { listen 80; }") ∷ (current purge, "old purge") ∷ []

abbrev machine : (ℕ → Bool) → Machine
machine works = record { texts = texts; status = none; works = works; tick = 0 }

-- nginx refuses the new configuration: the sixth action is `nginx -t`.
abbrev refused : Machine
refused = machine (λ n. not (nat_eq n 5))

transaction_restored_example :
    content (transaction plan refused).0 (current purge) ≡ content refused (current purge)
unfolding transaction publish content lookup
transaction_restored_example = transaction_restored plan refused (current purge) refl

-- The file that was not there is removed again.
dedup_removed : content (transaction plan refused).0 (current dedup) ≡ none
unfolding transaction content lookup publish insert remove
dedup_removed = refl

-- A removal that fails too is not called restored.
rollback_fails :
    (transaction plan (machine (λ n. not (nat_eq n 5 || nat_eq n 8)))).1 ≡ rollback_failed
unfolding transaction publish content lookup
rollback_fails = refl

abbrev healthy : Machine
healthy = machine (λ n. true)

apply-IsPublished_example : IsPublished plan healthy (apply plan healthy).0 active
unfolding apply content lookup publish insert
apply-IsPublished_example = apply-IsPublished plan healthy active refl

apply-apply_example : apply plan (apply plan healthy).0 ≡ ((apply plan healthy).0, unchanged)
unfolding apply content lookup publish insert
apply-apply_example = apply-apply plan healthy "v1" refl refl refl refl
