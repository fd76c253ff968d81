-- ===== src/Cleanup.antt =====
-- operations/dedup_cleanup.py: `_evidence`, `_Window` and `make_plan`, which decide which cache keys
-- are copies that may be removed. A set is a list; the routes of a repository are an interface.
pub mod Tests
pub mod Notes
pub mod Plan
pub mod Safety
use Prim.Native.Char.{code}
use Prim.Native.String
use repowatch.Prelude.{
  text_lt, ℕ, ◌-◌, ◌/◌, max, String, Bool, true, false, not, ◌&&◌, ◌||◌, Option, none, some, List,
  [], ◌∷◌, ◌++◌, if◌then◌else◌, leb, ltb, nat_eq, ◌==◌, text_keys, Assoc, lookup, insert, remove,
  contains, keys, is_some, length,
}

-- One row of `cleanup_rows`, with what the configuration says of its repository.
pub record CatalogRow : Type 0 where
  pub repo_id : String
  pub filename : String
  pub is_nix : Bool
  pub has_state : Bool
  pub same_identity : Bool
  pub pending : Bool
  pub warmed : Bool
  pub artifact : Bool

-- The cache keys of a file under the current basis and under the other one, and its local path in
-- lower case.
pub record Routes : Type 0 where
  pub direct : String → String → String
  pub other : String → String → String
  pub lower_path : String → String → String

pub record Evidence : Type 0 where
  pub repo_id : String
  pub filename : String
  pub keys : List String
  pub target : String
  pub blocked : Bool
  pub eligible : Bool
  pub warmed : Bool

abbrev get_or : String → Option String → String
get_or d none = d
get_or d (some s) = s

abbrev pub evidence_row : Routes → Assoc String String → CatalogRow → Option Evidence
evidence_row routes redirects r =
    let direct = routes.direct r.repo_id r.filename in
    let other = routes.other r.repo_id r.filename in
    let target = get_or direct (lookup (routes.lower_path r.repo_id r.filename) redirects) in
    if r.artifact
    then if r.is_nix
      then some (record {
        repo_id = r.repo_id;
        filename = r.filename;
        keys = [];
        target = direct;
        blocked = false;
        eligible = false;
        warmed = false;
      })
      else none
    else some (record {
      repo_id = r.repo_id;
      filename = r.filename;
      keys = direct ∷ other ∷ [];
      target = target;
      blocked = not r.has_state || not r.same_identity || r.pending || target == "";
      eligible = not r.is_nix;
      warmed = r.warmed;
    })

unfoldable pub evidence : Routes → Assoc String String → List CatalogRow → List Evidence
evidence routes redirects [] = []
evidence routes redirects (r ∷ rs) =
    let rest = evidence routes redirects rs in
    elim (evidence_row routes redirects r) [ none ↦ rest | some e ↦ e ∷ rest ]

pub record Row : Type 0 where
  pub repo_id : String
  pub filename : String
  pub canonical_key : String

-- (key <= after, key): false comes before true.
abbrev pub Rank : Type 0
Rank = Bool × String

abbrev pub rank_of : String → String → Rank
rank_of after key = (not (text_lt after key), key)

abbrev pub rank_lt : Rank → Rank → Bool
rank_lt (false, a) (true, b) = true
rank_lt (true, a) (false, b) = false
rank_lt (false, a) (false, b) = text_lt a b
rank_lt (true, a) (true, b) = text_lt a b

pub record Window : Type 0 where
  pub limit : Option ℕ
  pub after : String
  pub ranks : List Rank
  pub rows : Assoc String Row

abbrev pub window : Option ℕ → String → Window
window limit after = record { limit = limit; after = after; ranks = []; rows = [] }

unfoldable pub insort : Rank → List Rank → List Rank
insort r [] = r ∷ []
insort r (s ∷ ss) = if rank_lt r s then r ∷ s ∷ ss else s ∷ insort r ss

abbrev pub last_rank : List Rank → Option Rank
last_rank [] = none
last_rank (r ∷ []) = some r
last_rank (r ∷ s ∷ ss) = last_rank (s ∷ ss)

abbrev pub drop_last : List Rank → List Rank
drop_last [] = []
drop_last (r ∷ []) = []
drop_last (r ∷ s ∷ ss) = r ∷ drop_last (s ∷ ss)

abbrev place : String → Row → Window → Window
place key row w = record w {
  ranks = insort (rank_of w.after key) w.ranks;
  rows = insert key row w.rows;
}

-- The window is full: the new key takes the place of the last one if it comes before it.
abbrev displace : String → Row → Window → Option Rank → Window
displace key row w none = w
displace key row w (some r) =
    if not (rank_lt (rank_of w.after key) r)
    then w
    else place key row (record w { ranks = drop_last w.ranks; rows = remove r.1 w.rows })

unfoldable pub add : String → Row → Window → Window
unfolding insort
add key row w = elim w.limit [
  | none ↦ if is_some (lookup key w.rows) then w else record w { rows = insert key row w.rows }
  | some n ↦
      if nat_eq n 0 || is_some (lookup key w.rows)
      then w
      else if leb n (length w.rows)
      then displace key row w (last_rank w.ranks)
      else place key row w
]

-- `_Window.cursor`.
abbrev pub cursor : Window → String
cursor w = elim (last_rank w.ranks) [ none ↦ w.after | some r ↦ r.1 ]

abbrev is_plain_code : ℕ → Bool
is_plain_code c =
    (leb b'A' c && leb c b'Z')
    || (leb b'a' c && leb c b'z')
    || (leb b'0' c && leb c b'9')
    || nat_eq c b'_'
    || nat_eq c b'.'
    || nat_eq c b'/'
    || nat_eq c b':'
    || nat_eq c b'+'
    || nat_eq c b'~'
    || nat_eq c b'-'

abbrev all_plain : String → Bool
all_plain String.[] = true
all_plain (String.◌∷◌ c s) = is_plain_code (code c) && all_plain s

-- `re.fullmatch(r'[A-Za-z0-9_./:+~-]+', key)`.
abbrev pub is_plain : String → Bool
is_plain key = not (key == "") && all_plain key

pub record Request : Type 0 where
  pub limit : Option ℕ
  pub after : String
  pub priority_after : String
  pub selected : Option (List String)
  pub excluded : List String

abbrev is_wanted : Request → Evidence → String → Bool
is_wanted q e key =
    not (key == e.target)
    && (elim q.selected [ none ↦ true | some ks ↦ contains key ks ])
    && not (contains key q.excluded)
    && is_plain key

abbrev offer_key : Request → Evidence → String → Window × Window → Window × Window
offer_key q e key (fair, priority) =
    let row : Row = record {
      repo_id = e.repo_id;
      filename = e.filename;
      canonical_key = e.target;
    } in
    if is_wanted q e key
    then (add key row fair, if e.warmed then add key row priority else priority)
    else (fair, priority)

abbrev offer_keys : Request → Evidence → List String → Window × Window → Window × Window
offer_keys q e [] ws = ws
offer_keys q e (k ∷ ks) ws = offer_keys q e ks (offer_key q e k ws)

-- The first pass.
unfoldable pub offer_all : Request → List Evidence → Window × Window → Window × Window
unfolding add
offer_all q [] ws = ws
offer_all q (e ∷ es) ws =
    offer_all q es (if e.blocked || not e.eligible then ws else offer_keys q e e.keys ws)

abbrev priority_limit : Option ℕ → ℕ
priority_limit none = 0
priority_limit (some n) = n - max 1 (n / 2)

abbrev is_full : Option ℕ → Assoc String Row → Bool
is_full none possible = false
is_full (some n) possible = leb n (length possible)

abbrev set_default : String → Option Row → Assoc String Row → Assoc String Row
set_default key none possible = possible
set_default key (some row) possible =
    if is_some (lookup key possible) then possible else insert key row possible

-- What the fair window adds to the priority window, and the last key it added.
unfoldable pub fill :
    Option ℕ
    → List String
    → Assoc String Row
    → Assoc String Row × String
    → Assoc String Row × String
fill limit [] rows (possible, at) = (possible, at)
fill limit (k ∷ ks) rows (possible, at) =
    let rest = fill limit ks rows (set_default k (lookup k rows) possible, k) in
    if is_full limit possible then (possible, at) else rest

abbrev rank_keys : List Rank → List String
rank_keys [] = []
rank_keys (r ∷ rs) = r.1 ∷ rank_keys rs

abbrev fair_keys : Window → List String
fair_keys w = elim w.limit [ none ↦ keys w.rows | some _ ↦ rank_keys w.ranks ]

-- The two windows, filled.
unfoldable pub windows : Request → List Evidence → Window × Window
unfolding offer_all
windows q es =
    offer_all q es (window q.limit q.after, window (some (priority_limit q.limit)) q.priority_after)

unfoldable pub choose : Request → List Evidence → Assoc String Row × String
unfolding windows fill
choose q es =
    let (fair, priority) = windows q es in
    fill q.limit (fair_keys fair) fair.rows (priority.rows, q.after)
