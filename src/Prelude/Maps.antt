-- ===== src/Prelude/Maps.antt =====
-- Tables keyed by one value, as association lists: a Python dict, or an SQL table by its primary
-- key. A write to a key that is there keeps its place, as in both.
use mathlib.Core.Path.{◌≡◌, refl}
use mathlib.Core.Bool.{true}
use mathlib.Core.List.{List, [], ◌∷◌}
use mathlib.Core.Option.{Option, none, some}
use native.Mathlib.Omega.{arith}
use repowatch.Prelude.Tests.{if◌then◌else◌, Key, ◌==◌}

abbrev pub Assoc {ℓ κ} : Type ℓ → Type κ → Type (ℓ ⊔ κ)
Assoc K V = List (K × V)

module _ {ℓ κ} {K : Type ℓ} {V : Type κ} ⦃e : Key K⦄ where
  unfoldable pub lookup : K → Assoc K V → Option V
  lookup key [] = none
  lookup key ((first, value) ∷ rest) = if first == key then some value else lookup key rest

  unfoldable pub insert : K → V → Assoc K V → Assoc K V
  insert key value [] = (key, value) ∷ []
  insert key value ((first, old) ∷ rest) =
      if first == key then (key, value) ∷ rest else (first, old) ∷ insert key value rest

  unfoldable pub remove : K → Assoc K V → Assoc K V
  remove key [] = []
  remove key ((first, value) ∷ rest) =
      let others = remove key rest in if first == key then others else (first, value) ∷ others

  pub lookup-insert :
      (key q : K) (value : V) (table : Assoc K V)
      → lookup q (insert key value table) ≡ (if key == q then some value else lookup q table)
  unfolding lookup insert
  lookup-insert key q value [] = refl
  lookup-insert key q value ((first, old) ∷ rest) = ground (
    arith,
    lookup-insert key q value rest,
    e.eqb_iff first key,
    e.eqb_iff first q,
    e.eqb_iff key q,
  )

  pub lookup-remove :
      (key q : K) (table : Assoc K V)
      → lookup q (remove key table) ≡ (if key == q then none else lookup q table)
  unfolding lookup remove
  lookup-remove key q [] = ground arith
  lookup-remove key q ((first, old) ∷ rest) =
      ground
        (arith, lookup-remove key q rest, e.eqb_iff first key, e.eqb_iff first q, e.eqb_iff key q)

pub beq_refl {ℓ} : {K : Type ℓ} ⦃e : Key K⦄ (k : K) → (k == k) ≡ true
beq_refl ⦃e⦄ k = (e.eqb_iff k k).1 refl
