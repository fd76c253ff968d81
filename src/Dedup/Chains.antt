-- ===== src/Dedup/Chains.antt =====
-- cache/dedup.py: `dedup_keys`, which follows the redirects from each path to the key of the file that
-- nginx serves in the end.
pub mod Resolved
use repowatch.Prelude.{
  ℕ, zero, suc, String, Bool, true, false, not, ◌&&◌, Option, none, some, List, [], ◌∷◌,
  if◌then◌else◌, ◌==◌, text_keys, Assoc, lookup, insert, contains, is_some, length,
}

-- A row of the duplicate files, of which the canonical repository and the file name are used.
pub record FileRow : Type 0 where
  pub canonical : String
  pub filename : String

-- The text in lower case, the path of a file in a repository and its cache key, and which repositories
-- are configured.
pub record Names : Type 0 where
  pub lower : String → String
  pub package_path : String → String → String
  pub key : String → String → String
  pub repos : List String

abbrev pub Paths : Type 0
Paths = Assoc String String

-- A later pair of the same source takes the place of an earlier one.
unfoldable pub rewrites_from : (String → String) → List (String × String) → Paths → Paths
rewrites_from lower [] rewrites = rewrites
rewrites_from lower ((source, target) ∷ pairs) rewrites =
    rewrites_from lower pairs (insert (lower source) target rewrites)

unfoldable pub targets_from : Names → List FileRow → Paths → Paths
targets_from n [] targets = targets
targets_from n (row ∷ rows) targets =
    let path = n.package_path row.canonical row.filename in
    let next = insert path (n.key row.canonical row.filename) targets in
    targets_from n rows (if contains row.canonical n.repos then next else targets)

-- The condition of the loop.
abbrev pub goes_on : (String → String) → Paths → List String → String → Bool
goes_on lower rewrites seen target =
    is_some (lookup (lower target) rewrites) && not (contains (lower target) seen)

abbrev pub or_self : Option String → String → String
or_self none target = target
or_self (some next) target = next

-- The loop, with the number of turns that it may take: `none` where they do not suffice.
unfoldable pub chase :
    (String → String) → Paths → ℕ → List String → String → Option (String × List String)
chase lower rewrites zero seen target =
    if goes_on lower rewrites seen target then none else some (target, seen)
chase lower rewrites (suc turns) seen target =
    let next = or_self (lookup (lower target) rewrites) target in
    let rest = chase lower rewrites turns (lower target ∷ seen) next in
    if goes_on lower rewrites seen target then rest else some (target, seen)

abbrev pub or_empty : Option String → String
or_empty none = ""
or_empty (some key) = key

-- An empty key where the chain is a cycle.
abbrev pub key_of : (String → String) → Paths → Option (String × List String) → String
key_of lower targets none = ""
key_of lower targets (some (target, seen)) =
    if contains (lower target) seen then "" else or_empty (lookup target targets)

unfoldable pub resolve : (String → String) → Paths → Paths → String → String → String
unfolding chase
resolve lower rewrites targets source target =
    key_of lower targets (chase lower rewrites (length rewrites) (source ∷ []) target)

unfoldable pub resolve_all : (String → String) → Paths → Paths → Paths → Paths
unfolding resolve
resolve_all lower rewrites targets [] = []
resolve_all lower rewrites targets ((source, target) ∷ rest) =
    (source, resolve lower rewrites targets source target) ∷ resolve_all lower rewrites targets rest

unfoldable pub dedup_keys : Bool → Names → List FileRow → List (String × String) → Paths
unfolding rewrites_from targets_from resolve_all
dedup_keys enable_dedup n rows pairs =
    let rewrites = rewrites_from n.lower pairs [] in
    if enable_dedup then resolve_all n.lower rewrites (targets_from n rows []) rewrites else []
