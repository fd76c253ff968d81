-- ===== src/Storage/Owned/Laws.antt =====
-- storage/*.py: deleting the rows of a repository leaves those of the others, and counts the rest.
use repowatch.Prelude.{
  ◌≡◌, refl, String, not, ◌&&◌, List, [], ◌∷◌, map, arith, ◌==◌, text_keys, contains, eq_iff,
}
use repowatch.Storage.Owned.{delete_from, count_in}

module _ {ℓ} {A : Type ℓ} (owner : A → String) (r : String) where
  pub delete_from-count_in : (rows : List A) → (delete_from owner r rows).1 ≡ count_in owner r rows
  unfolding delete_from count_in
  delete_from-count_in [] = refl
  delete_from-count_in (row ∷ rows) = ground (arith, delete_from-count_in rows)

  pub contains-delete_from :
      (q : String) (rows : List A)
      → contains q (map owner (delete_from owner r rows).0)
        ≡ (contains q (map owner rows) && not (q == r))
  unfolding delete_from contains
  contains-delete_from q [] = refl
  contains-delete_from q (row ∷ rows) =
      ground
        (arith, contains-delete_from q rows, eq_iff (owner row) r, eq_iff (owner row) q, eq_iff q r)
