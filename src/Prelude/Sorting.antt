-- ===== src/Prelude/Sorting.antt =====
-- Python's order of texts, by their code points, and `sorted`.
use Prim.Native.Nat.{Ordering}
use Prim.Native.String
use Prim.Native.String.{String}
use mathlib.Core.Path.{◌≡◌, refl}
use mathlib.Core.Bool.{Bool, true, false, ◌||◌}
use mathlib.Core.List.{List, [], ◌∷◌}
use mathlib.Core.Option.{Option, none, some}
use native.Mathlib.Omega.{arith}
use repowatch.Prelude.Tests.{if◌then◌else◌, ◌==◌, text_keys}
use repowatch.Prelude.Keys.{contains}

abbrev pub text_lt : String → String → Bool
text_lt a b = elim (String.compare a b) [ Ordering.lt ↦ true | _ ↦ false ]

unfoldable pub insert_text : String → List String → List String
insert_text k [] = k ∷ []
insert_text k (j ∷ js) = if text_lt k j then k ∷ j ∷ js else j ∷ insert_text k js

unfoldable pub sorted : List String → List String
unfolding insert_text
sorted [] = []
sorted (k ∷ ks) = insert_text k (sorted ks)

-- The first in the order, and none of no texts.
abbrev pub least : List String → Option String
least ks = elim (sorted ks) [ [] ↦ none | k ∷ _ ↦ some k ]

contains-insert_text :
    (k j : String) (js : List String) → contains k (insert_text j js) ≡ (j == k || contains k js)
unfolding insert_text contains
contains-insert_text k j [] = refl
contains-insert_text k j (i ∷ is) = ground (arith, contains-insert_text k j is)

pub contains-sorted : (k : String) (ks : List String) → contains k (sorted ks) ≡ contains k ks
unfolding sorted contains
contains-sorted k [] = refl
contains-sorted k (j ∷ js) =
    ground (arith, contains-insert_text k j (sorted js), contains-sorted k js)
