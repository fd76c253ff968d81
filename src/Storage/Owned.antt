-- ===== src/Storage/Owned.antt =====
-- storage/*.py: the rows of one repository, which each store counts and deletes in its own tables.
pub mod Laws
use repowatch.Prelude.{ℕ, suc, String, List, [], ◌∷◌, if◌then◌else◌, ltb, ◌==◌, text_keys, Assoc}

module _ {ℓ} {A : Type ℓ} (owner : A → String) where
  -- A DELETE of the rows of one repository, with its `rowcount`.
  unfoldable pub delete_from : String → List A → List A × ℕ
  delete_from r [] = ([], 0)
  delete_from r (row ∷ rows) =
      let (kept, n) = delete_from r rows in
      if owner row == r then (kept, suc n) else (row ∷ kept, n)

  unfoldable pub count_in : String → List A → ℕ
  count_in r [] = 0
  count_in r (row ∷ rows) = let n = count_in r rows in if owner row == r then suc n else n

abbrev pub by_repo {ℓ} : {V : Type ℓ} → String × V → String
by_repo row = row.0

abbrev pub by_key {ℓ} : {V : Type ℓ} → (String × String) × V → String
by_key row = row.0.0

abbrev pub by_file {ℓ} : {V : Type ℓ} → (String × (String × String)) × V → String
by_file row = row.0.0

-- Counts by table; a table that has no row is left out.
abbrev pub with_count : String → ℕ → Assoc String ℕ → Assoc String ℕ
with_count table n counts = if ltb 0 n then (table, n) ∷ counts else counts
