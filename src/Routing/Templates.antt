-- ===== src/Routing/Templates.antt =====
-- url_templates.py: the local path of a repository from its template. What only a value of another
-- type than the declared one reaches is left out.
use Prim.Native.Char.{code}
use Prim.Native.String
use repowatch.Prelude.{
  ℕ, String, Bool, true, false, not, ◌&&◌, ◌||◌, Option, none, some, List, [], ◌∷◌, if◌then◌else◌,
  ltb, ◌==◌, nat_keys, text_keys, Assoc, lookup, contains, is_some, Result, err, ok, raise_if,
  ◌>>=◌, ◌>>◌,
}
use repowatch.Routing.Characters.{
  matches, is_name_char, is_segment_char, is_path_char, between, is_dots, has_dots,
  has_double_slash, split, rstrip,
}

-- ConfigError by its message, and the ValueErrors that reach the caller.
pub data RouteError : Type 0 where
  variable_name variable_value template_missing template_size unknown_variable invalid_field :
      RouteError
  invalid_braces template_path invalid_url plain_upstream invalid_port invalid_path : RouteError
  reserved_root nonpositive_ttl conflicting_types conflicting_upstreams overlapping : RouteError
  unknown_type no_route : RouteError

pub record RepoConfig : Type 0 where
  pub id : String
  pub type : String
  pub upstream : String
  pub repo_name : Option String
  pub arch : Option String
  pub distribution : Option String
  pub component : Option String
  pub check_interval : Option ℕ
  pub url_template : Option String
  pub url_variables : Assoc String String

abbrev pub fields : List String
fields = "id" ∷ "type" ∷ "repo_name" ∷ "arch" ∷ "distribution" ∷ "component" ∷ []

-- A piece of a template is literal text, then a field with its format and conversion, if one follows.
-- The flag says that unbalanced braces follow the pieces: the ValueError.
pub record Field : Type 0 where
  pub name : String
  pub spec : String
  pub conversion : Option String

abbrev pub Parse : Type 0
Parse = String → List (String × Option Field) × Bool

abbrev pub is_name : String → Bool
is_name name = matches (between b'a' b'z') is_name_char name

-- A text that is a single segment of a path.
abbrev pub is_segment : String → Bool
is_segment value = matches is_segment_char is_segment_char value && not (is_dots value)

unfoldable pub check_variables : Assoc String String → Result RouteError (Unit {0})
check_variables [] = ok tt
check_variables ((name, value) ∷ variables) =
    let rest = check_variables variables in
    (do
      raise_if (not (is_name name) || contains name fields) variable_name
      raise_if (not (is_segment value)) variable_value
      rest)

-- The value of a standard field: `none` where the attribute is no text.
abbrev pub standard : RepoConfig → Assoc String (Option String)
standard repo =
    ("id", some repo.id)
    ∷ ("type", some repo.type)
    ∷ ("repo_name", repo.repo_name)
    ∷ ("arch", repo.arch)
    ∷ ("distribution", repo.distribution)
    ∷ ("component", repo.component)
    ∷ []

-- `values[name]`: `none` where the name is unknown.
abbrev pub or_standard : Option String → Option (Option String) → Option (Option String)
or_standard none value = value
or_standard (some value) other = some (some value)

abbrev pub value_of : RepoConfig → String → Option (Option String)
value_of repo name = or_standard (lookup name repo.url_variables) (lookup name (standard repo))

abbrev pub is_text : String → Bool
is_text s = not (s == "")

abbrev pub is_formatted : Field → Bool
is_formatted f = is_text f.spec || is_some f.conversion

abbrev pub segment_in : Field → Option (Option String) → Result RouteError String
segment_in f none = err unknown_variable
segment_in f (some none) = if is_formatted f then err unknown_variable else err invalid_field
segment_in f (some (some value)) =
    if is_formatted f
    then err unknown_variable
    else if is_segment value
    then ok value
    else err invalid_field

abbrev pub expand_field : RepoConfig → Option Field → Result RouteError String
expand_field repo none = ok ""
expand_field repo (some f) = segment_in f (value_of repo f.name)

unfoldable pub expand_pieces : RepoConfig → List (String × Option Field) → Result RouteError String
expand_pieces repo [] = ok ""
expand_pieces repo ((literal, field) ∷ pieces) =
    let rest = expand_pieces repo pieces in
    expand_field repo field
    >>= (λ value. rest >>= (λ path. ok (String.◌++◌ literal (String.◌++◌ value path))))

-- A path below the root, with no empty part and no part that is dots.
abbrev pub is_absolute : String → Bool
is_absolute String.[] = false
is_absolute (String.◌∷◌ c s) = code c == b'/' && matches is_path_char is_path_char s

unfoldable pub is_safe_path : String → Bool
is_safe_path path = is_absolute path && not (has_double_slash path) && not (has_dots (split path))

unfoldable pub expand_parsed :
    RepoConfig → List (String × Option Field) × Bool → Result RouteError (Option String)
unfolding expand_pieces is_safe_path
expand_parsed repo (pieces, is_broken) = expand_pieces repo pieces >>= (λ joined.
    let path = rstrip joined in
    if is_broken
    then err invalid_braces
    else if is_safe_path path
    then ok (some path)
    else err template_path)

abbrev pub has_variables : Assoc String String → Bool
has_variables [] = false
has_variables (v ∷ vs) = true

unfoldable pub expand : Parse → RepoConfig → Result RouteError (Option String)
unfolding check_variables
expand parse repo = check_variables repo.url_variables >> (elim repo.url_template [
  | none ↦ if has_variables repo.url_variables then err template_missing else ok none
  | some template ↦
      if not (is_text template) || ltb 1024 (String.count template)
      then err template_size
      else expand_parsed repo (parse template)
])
