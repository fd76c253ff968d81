-- ===== src/Nginx/Files.antt =====
-- nginx/apply.py and nginx/reconcile.py: the managed files, and the operating system under them. An
-- action is a write, a removal or a command; `works n` says whether the action number n succeeds.
-- A write that fails leaves its target alone: `_write` replaces it in one step.
use mathlib.Core.Option.{some-injective}
use repowatch.Prelude.{
  ℕ, suc, ◌≡◌, refl, ◌∙◌, sym, ap, ◌↔◌, String, Bool, true, false, Option, some, List, [], ◌∷◌,
  if◌then◌else◌, Key, text_keys, nat_eq, nat_eq_iff, get_elem?, Assoc, lookup, insert, remove,
}

pub data Output : Type 0 where
  active purge dedup probe_conf probe_js : Output

pub data File : Type 0 where
  current : Output → File
  previous : Output → File

abbrev pub file_id : File → ℕ
file_id (current active) = 0
file_id (current purge) = 1
file_id (current dedup) = 2
file_id (current probe_conf) = 3
file_id (current probe_js) = 4
file_id (previous active) = 5
file_id (previous purge) = 6
file_id (previous dedup) = 7
file_id (previous probe_conf) = 8
file_id (previous probe_js) = 9

abbrev all_files : List File
all_files =
    current active
    ∷ current purge
    ∷ current dedup
    ∷ current probe_conf
    ∷ current probe_js
    ∷ previous active
    ∷ previous purge
    ∷ previous dedup
    ∷ previous probe_conf
    ∷ previous probe_js
    ∷ []

file_of_id : (f : File) → get_elem? all_files (file_id f) ≡ some f
file_of_id (current active) = refl
file_of_id (current purge) = refl
file_of_id (current dedup) = refl
file_of_id (current probe_conf) = refl
file_of_id (current probe_js) = refl
file_of_id (previous active) = refl
file_of_id (previous purge) = refl
file_of_id (previous dedup) = refl
file_of_id (previous probe_conf) = refl
file_of_id (previous probe_js) = refl

pub file_eq_iff : (f g : File) → (nat_eq (file_id f) (file_id g) ≡ true) ↔ (f ≡ g)
file_eq_iff f g = (
  λ h.
      some-injective f g
        (sym (file_of_id f) ∙ ap (get_elem? all_files) ((nat_eq_iff _ _).0 h) ∙ file_of_id g),
  λ e. (nat_eq_iff _ _).1 (ap file_id e),
)

instance abbrev pub file_keys : Key File
file_keys = record { eqb = λ f g. nat_eq (file_id f) (file_id g); eqb_iff = file_eq_iff }

-- status.json.
pub record Status : Type 0 where
  pub succeeded : Bool
  pub digest : String
  pub inputs : Option String
  pub rollback_failed : Bool

pub record Machine : Type 0 where
  pub texts : Assoc File String
  pub status : Option Status
  pub works : ℕ → Bool
  pub tick : ℕ

abbrev spent : Machine → Machine
spent m = record m { tick = suc m.tick }

-- The new machine, and whether the action succeeded.
unfoldable pub write : File → String → Machine → Machine × Bool
write f text m =
    if m.works m.tick
    then (record m { texts = insert f text m.texts; tick = suc m.tick }, true)
    else (spent m, false)

unfoldable pub unlink : File → Machine → Machine × Bool
unlink f m =
    if m.works m.tick
    then (record m { texts = remove f m.texts; tick = suc m.tick }, true)
    else (spent m, false)

unfoldable pub command : Machine → Machine × Bool
command m = (spent m, m.works m.tick)

unfoldable pub write_status : Status → Machine → Machine × Bool
write_status st m =
    if m.works m.tick
    then (record m { status = some st; tick = suc m.tick }, true)
    else (spent m, false)

unfoldable pub content : Machine → File → Option String
content m f = lookup f m.texts
