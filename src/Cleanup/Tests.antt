-- ===== src/Cleanup/Tests.antt =====
-- A plan of operations/dedup_cleanup.py on a small catalogue.
use repowatch.Prelude.{
  if◌then◌else◌, ◌==◌, sorted, keys, contains, insert, ◌≡◌, refl, String, true, false, none, some,
  List, [], ◌∷◌, Assoc, All, ok, lookup, text_keys,
}
use repowatch.Cleanup.{Row, Request, Routes, CatalogRow, evidence}
use repowatch.Cleanup.Plan.{CleanupPlan, make_plan}
use repowatch.Cleanup.Safety.{Allows, make_plan-Allows}

-- Two mirrors of one archive, and the other one leads.
abbrev direct : String → String → String
direct repo_id filename = if repo_id == "a" then "a/curl" else "b/curl"

abbrev other : String → String → String
other repo_id filename = if repo_id == "a" then "up/a/curl" else "up/b/curl"

abbrev routes : Routes
routes = record { direct = direct; other = other; lower_path = direct }

abbrev redirects : Assoc String String
redirects = ("a/curl", "b/curl") ∷ []

abbrev owner : String → CatalogRow
owner repo_id = record {
  repo_id = repo_id;
  filename = "curl";
  is_nix = false;
  has_state = true;
  same_identity = true;
  pending = false;
  warmed = true;
  artifact = false;
}

abbrev rows : List CatalogRow
rows = owner "a" ∷ owner "b" ∷ []

abbrev request : Request
request = record { limit = some 1; after = ""; priority_after = ""; selected = none; excluded = [] }

abbrev copy : Row
copy = record { repo_id = "a"; filename = "curl"; canonical_key = "b/curl" }

abbrev plan : CleanupPlan
plan = record {
  candidates = ("a/curl", copy) ∷ [];
  fair_cursor = "a/curl";
  priority_cursor = "";
  scanned = 2;
}

made : make_plan request routes redirects rows true ≡ ok plan
unfolding make_plan sorted keys evidence lookup contains insert
made = refl

make_plan-Allows_example : All (Allows "a/curl" "b/curl") (evidence routes redirects rows)
unfolding lookup
make_plan-Allows_example =
    make_plan-Allows request routes redirects rows true plan "a/curl" copy made refl
