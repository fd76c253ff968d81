-- ===== src/Prelude/Keys.antt =====
-- Sets of keys as lists, the keys of a table, and pairs as keys.
use mathlib.Core.Path.{◌≡◌, refl}
use mathlib.Core.Logic.{◌↔◌}
use mathlib.Core.Bool.{Bool, true, false, ◌&&◌, ◌||◌}
use mathlib.Core.List.{List, [], ◌∷◌, ◌++◌}
use mathlib.Core.Option.{Option, none, some}
use native.Mathlib.Omega.{arith}
use repowatch.Prelude.Tests.{if◌then◌else◌, Key, ◌==◌}
use repowatch.Prelude.Maps.{Assoc, lookup, remove, lookup-remove}

abbrev pub is_some {ℓ} : {A : Type ℓ} → Option A → Bool
is_some none = false
is_some (some a) = true

module _ {ℓ κ} {A : Type ℓ} {B : Type κ} ⦃e : Key A⦄ ⦃f : Key B⦄ where
  abbrev pub both_eq : A × B → A × B → Bool
  both_eq (a, b) (c, d) = a == c && b == d

  pub both_eq_iff : (p q : A × B) → (both_eq p q ≡ true) ↔ (p ≡ q)
  both_eq_iff (a, b) (c, d) = ground (arith, e.eqb_iff a c, f.eqb_iff b d)

  instance abbrev pub pair_keys : Key (A × B)
  pair_keys = record { eqb = both_eq; eqb_iff = both_eq_iff }

module _ {ℓ} {K : Type ℓ} ⦃e : Key K⦄ where
  unfoldable pub contains : K → List K → Bool
  contains k [] = false
  contains k (x ∷ xs) = x == k || contains k xs

  pub contains-append :
      (k : K) (xs ys : List K) → contains k (xs ++ ys) ≡ (contains k xs || contains k ys)
  unfolding contains
  contains-append k [] ys = refl
  contains-append k (x ∷ xs) ys = ground (arith, contains-append k xs ys)

  unfoldable pub select : (K → Bool) → List K → List K
  select p [] = []
  select p (x ∷ xs) = let rest = select p xs in if p x then x ∷ rest else rest

  pub contains-select :
      (p : K → Bool) (k : K) (xs : List K) → contains k (select p xs) ≡ (contains k xs && p k)
  unfolding contains select
  contains-select p k [] = refl
  contains-select p k (x ∷ xs) = ground (arith, e.eqb_iff x k, contains-select p k xs)

module _ {ℓ κ} {K : Type ℓ} {V : Type κ} ⦃e : Key K⦄ where
  unfoldable pub keys : Assoc K V → List K
  keys [] = []
  keys ((k, v) ∷ m) = k ∷ keys m

  pub contains-keys : (k : K) (m : Assoc K V) → contains k (keys m) ≡ is_some (lookup k m)
  unfolding contains keys lookup
  contains-keys k [] = refl
  contains-keys k ((j, v) ∷ m) = ground (arith, contains-keys k m)

  -- Each key stands once, as in a dict.
  abbrev pub Distinct : Assoc K V → Type κ
  Distinct [] = Unit
  Distinct ((k, v) ∷ m) = (lookup k m ≡ none) × Distinct m

  unfoldable pub remove_all : List K → Assoc K V → Assoc K V
  remove_all [] m = m
  remove_all (k ∷ ks) m = remove_all ks (remove k m)

  pub lookup-remove_all :
      (ks : List K) (j : K) (m : Assoc K V)
      → lookup j (remove_all ks m) ≡ (if contains j ks then none else lookup j m)
  unfolding remove_all contains
  lookup-remove_all [] j m = refl
  lookup-remove_all (k ∷ ks) j m =
      ground (arith, lookup-remove_all ks j (remove k m), lookup-remove k j m, e.eqb_iff k j)
