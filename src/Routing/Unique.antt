-- ===== src/Routing/Unique.antt =====
-- routing.py: every configured repository has the route of its own upstream, and no path has two.
use text.Mathlib.Text.{starts_with}
use repowatch.Prelude.{
  ◌≡◌, ◌∙◌, ap, String, true, false, some, [], ◌∷◌, arith, nat_keys, text_keys, eq_iff, lookup,
  keys, contains, contains-keys, is_some, sorted, ok, >>=-eq-ok, Bool-cases, inl, inr,
}
use repowatch.Routing.Sorted.{overlaps, starts_with_unique}
use repowatch.Routing.{Library, Config}
use repowatch.Routing.Routes.{
  Route, Routes, Computed, add_repos, nothing, compute_routes, find_route,
}

find_route-lookup :
    (local route : String) (target : Route) (routes : Routes)
    → ((r : String) → contains r (keys routes) ≡ true → starts_with local r ≡ true → r ≡ route)
    → starts_with local route ≡ true
    → lookup route routes ≡ some target
    → find_route local routes ≡ some (route, target)
unfolding find_route lookup keys contains
find_route-lookup local route target [] only begins at = cc
find_route-lookup local route target ((r, t) ∷ routes) only begins at =
    elim (Bool-cases (starts_with local r)) [
      | inl found ↦
          let same : r ≡ route = only r (ground (arith, eq_iff r r)) found in
          ground (arith, found, same, at, eq_iff r route)
      | inr other ↦ ground (
        arith,
        other,
        find_route-lookup local route target routes (λ q c. only q (ground (arith, c))) begins
            (ground (arith, at, other, begins, eq_iff r route)),
      )
    ]

pub compute_routes-overlaps :
    (l : Library) (c : Config) (done : Computed)
    → compute_routes l c ≡ ok done
    → (add_repos l c c.repos nothing ≡ ok done) × (overlaps (sorted (keys done.routes)) ≡ false)
unfolding compute_routes
compute_routes-overlaps l c done h =
    let (found, e, k) = >>=-eq-ok (add_repos l c c.repos nothing) _ h in
    elim (Bool-cases (overlaps (sorted (keys found.routes)))) [
      | inl bad ↦ ground (arith, bad, k)
      | inr good ↦ ground (arith, good, k, e)
    ]

-- When the routes of a configuration can be computed, a path that begins with one of them is
-- given that route, wherever it stands in the list.
pub find_route-compute_routes :
    (l : Library) (c : Config) (done : Computed) (local route : String) (target : Route)
    → compute_routes l c ≡ ok done
    → lookup route done.routes ≡ some target
    → starts_with local route ≡ true
    → find_route local done.routes ≡ some (route, target)
find_route-compute_routes l c done local route target h at begins =
    find_route-lookup local route target done.routes
      (λ r there starts.
        starts_with_unique (keys done.routes) local r route (compute_routes-overlaps l c done h).1
          there (contains-keys route done.routes ∙ ap is_some at) starts begins)
      begins at
