-- ===== src/Routing/Characters.antt =====
-- routing.py and url_templates.py: Python's tests and operations on the characters of a path.
use Prim.Native.Char.{Char, code}
use repowatch.Prelude.{
  ℕ, suc, String, Bool, true, false, ◌&&◌, ◌||◌, List, [], ◌∷◌, if◌then◌else◌, leb, ltb, ◌==◌,
  nat_keys, text_keys,
}

abbrev pub between : ℕ → ℕ → ℕ → Bool
between low high n = leb low n && leb n high

abbrev pub is_digit : ℕ → Bool
is_digit n = between b'0' b'9' n

abbrev pub is_alphanumeric : ℕ → Bool
is_alphanumeric n = between b'A' b'Z' n || between b'a' b'z' n || is_digit n

-- `[A-Za-z0-9_+~.-]`.
abbrev pub is_segment_char : ℕ → Bool
is_segment_char n =
    is_alphanumeric n || n == b'_' || n == b'+' || n == b'~' || n == b'.' || n == b'-'

-- `[A-Za-z0-9_./+~-]`.
abbrev pub is_path_char : ℕ → Bool
is_path_char n = is_segment_char n || n == b'/'

-- `[a-z0-9_]`.
abbrev pub is_name_char : ℕ → Bool
is_name_char n = between b'a' b'z' n || is_digit n || n == b'_'

unfoldable pub all_chars : (ℕ → Bool) → String → Bool
all_chars p String.[] = true
all_chars p (String.◌∷◌ c s) = p (code c) && all_chars p s

-- One character of the first kind, then any number of the second.
unfoldable pub matches : (ℕ → Bool) → (ℕ → Bool) → String → Bool
unfolding all_chars
matches first rest String.[] = false
matches first rest (String.◌∷◌ c s) = first (code c) && all_chars rest s

abbrev pub push : Char → List String → List String
push c [] = String.◌∷◌ c String.[] ∷ []
push c (s ∷ ss) = String.◌∷◌ c s ∷ ss

-- `value.split('/')`.
unfoldable pub split : String → List String
split String.[] = "" ∷ []
split (String.◌∷◌ c s) = let rest = split s in if code c == b'/' then "" ∷ rest else push c rest

-- `value.rstrip('/')`.
unfoldable pub rstrip : String → String
rstrip String.[] = ""
rstrip (String.◌∷◌ c s) =
    let rest = rstrip s in if code c == b'/' && rest == "" then "" else String.◌∷◌ c rest

-- `value.lstrip('/')`.
unfoldable pub lstrip : String → String
lstrip String.[] = ""
lstrip (String.◌∷◌ c s) = let rest = lstrip s in if code c == b'/' then rest else String.◌∷◌ c s

-- `'//' in value`.
unfoldable pub has_double_slash : String → Bool
has_double_slash String.[] = false
has_double_slash (String.◌∷◌ c String.[]) = false
has_double_slash (String.◌∷◌ c (String.◌∷◌ d s)) =
    (code c == b'/' && code d == b'/') || has_double_slash (String.◌∷◌ d s)

abbrev pub is_dots : String → Bool
is_dots s = s == "." || s == ".."

unfoldable pub has_dots : List String → Bool
has_dots [] = false
has_dots (s ∷ ss) = is_dots s || has_dots ss

-- `[A-Za-z0-9.-]+(?::[0-9]{1,5})?`: the host's characters, and then nothing or a port.
abbrev pub is_host_char : ℕ → Bool
is_host_char n = is_alphanumeric n || n == b'.' || n == b'-'

unfoldable pub is_port : ℕ → String → Bool
is_port digits String.[] = ltb 0 digits && leb digits 5
is_port digits (String.◌∷◌ c s) = is_digit (code c) && is_port (suc digits) s

unfoldable pub is_host : String → Bool
unfolding is_port
is_host String.[] = true
is_host (String.◌∷◌ c s) =
    let rest = is_host s in if code c == b':' then is_port 0 s else is_host_char (code c) && rest

unfoldable pub is_netloc : String → Bool
unfolding is_host
is_netloc String.[] = false
is_netloc (String.◌∷◌ c s) = is_host_char (code c) && is_host s
