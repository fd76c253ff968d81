-- ===== src/Prelude/Rows.antt =====
-- The rows of a table that a condition keeps, as in DELETE and SELECT, and how many these are. A key
-- stands for one row: what a row hides by coming first stays hidden when the row goes.
use Prim.Native.Nat.{ℕ, suc}
use mathlib.Core.Path.{◌≡◌, refl}
use mathlib.Core.Bool.{Bool, not}
use mathlib.Core.List.{[], ◌∷◌}
use mathlib.Core.Option.{Option, none, some}
use native.Mathlib.Omega.{arith}
use repowatch.Prelude.Tests.{if◌then◌else◌, Key}
use repowatch.Prelude.Maps.{Assoc, lookup, remove, lookup-remove}

abbrev pub kept {ℓ} : {V : Type ℓ} → (V → Bool) → Option V → Option V
kept p none = none
kept p (some v) = if p v then some v else none

module _ {ℓ κ} {K : Type ℓ} {V : Type κ} ⦃e : Key K⦄ where
  unfoldable pub keep_where : (K → V → Bool) → Assoc K V → Assoc K V
  keep_where p [] = []
  keep_where p ((k, v) ∷ m) =
      let rest = keep_where p m in if p k v then (k, v) ∷ rest else remove k rest

  unfoldable pub count_where : (K → V → Bool) → Assoc K V → ℕ
  count_where p [] = 0
  count_where p ((k, v) ∷ m) = let n = count_where p m in if p k v then suc n else n

  pub lookup-keep_where :
      (p : K → V → Bool) (j : K) (m : Assoc K V)
      → lookup j (keep_where p m) ≡ kept (p j) (lookup j m)
  unfolding lookup keep_where
  lookup-keep_where p j [] = refl
  lookup-keep_where p j ((k, v) ∷ m) =
      ground (arith, lookup-keep_where p j m, lookup-remove k j (keep_where p m), e.eqb_iff k j)

  count_where-remove :
      (p : K → V → Bool) (j : K) (m : Assoc K V)
      → count_where p m ≡ 0
      → count_where p (remove j m) ≡ 0
  unfolding count_where remove
  count_where-remove p j [] h = h
  count_where-remove p j ((k, v) ∷ m) h = ground (arith, count_where-remove p j m)

  -- What a deletion leaves has no row of the kind that it deletes.
  pub count_where-keep_where :
      (p : K → V → Bool) (m : Assoc K V) → count_where p (keep_where (λ k v. not (p k v)) m) ≡ 0
  unfolding count_where keep_where
  count_where-keep_where p [] = refl
  count_where-keep_where p ((k, v) ∷ m) = ground (
    arith,
    count_where-keep_where p m,
    count_where-remove p k (keep_where (λ j w. not (p j w)) m),
  )
