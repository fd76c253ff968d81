-- ===== src/Routing/Text.antt =====
-- routing.py: the order of texts against their beginnings.
use Prim.Native.Char.{Char, code}
use Prim.Native.Nat.{Ordering, compare as compare_ℕ}
use Prim.Native.String
use Prim.Native.String.append
use Prim.Native.String.compare
use Prim.Native.String.{then as or_next}
use text.Mathlib.Text.{starts_with}
use text.Mathlib.TextEquality.{starts_with_iff}
use text.Mathlib.TextBridge.{IsPrefix}
use text.Mathlib.TextLemmas.{append-nil, head-eq_of_cons-eq, tail-eq_of_cons-eq}
use text.Mathlib.TextPositions.{starts_with_of_prefix}
use repowatch.Prelude.{
  ℕ, ◌≡◌, ◌⊎◌, refl, ◌∙◌, sym, ap, subst, String, Bool, true, false, ◌&&◌, ◌||◌, arith, text_lt,
  ltb, nat_eq, ◌==◌, text_keys, eq_iff, Bool-cases, inl, inr,
}

abbrev first : Ordering → Bool
first Ordering.lt = true
first _ = false

first-or_next :
    (m n : ℕ) (r : Ordering)
    → first (or_next (compare_ℕ m n) r) ≡ (ltb m n || (nat_eq m n && first r))
first-or_next m n r = ground arith

text_lt-first : (a b : String) → text_lt a b ≡ first (String.compare a b)
text_lt-first a b = ground arith

text_lt-cons :
    (c d : Char) (s t : String)
    → text_lt (String.◌∷◌ c s) (String.◌∷◌ d t)
      ≡ (ltb (code c) (code d) || (nat_eq (code c) (code d) && text_lt s t))
text_lt-cons c d s t =
    text_lt-first (String.◌∷◌ c s) (String.◌∷◌ d t)
    ∙ ap first (compare.cons-cons c d s t)
    ∙ first-or_next (code c) (code d) (String.compare s t)
    ∙ rw text_lt-first refl

text_lt-nil : (s : String) → text_lt s String.[] ≡ false
text_lt-nil String.[] = text_lt-first String.[] String.[] ∙ ap first compare.nil-nil
text_lt-nil (String.◌∷◌ c s) =
    text_lt-first (String.◌∷◌ c s) String.[] ∙ ap first (compare.cons-nil c s)

text_lt-nil_cons : (c : Char) (s : String) → text_lt String.[] (String.◌∷◌ c s) ≡ true
text_lt-nil_cons c s = text_lt-first String.[] (String.◌∷◌ c s) ∙ ap first (compare.nil-cons c s)

pub text_lt_trans :
    (a b c : String) → text_lt b a ≡ false → text_lt c b ≡ false → text_lt c a ≡ false
text_lt_trans String.[] b c h k = text_lt-nil c
text_lt_trans (String.◌∷◌ x a) String.[] c h k = ground (arith, h, text_lt-nil_cons x a)
text_lt_trans (String.◌∷◌ x a) (String.◌∷◌ y b) String.[] h k =
    ground (arith, k, text_lt-nil_cons y b)
text_lt_trans (String.◌∷◌ x a) (String.◌∷◌ y b) (String.◌∷◌ z c) h k = ground (
  arith,
  h,
  k,
  text_lt_trans a b c,
  text_lt-cons y x b a,
  text_lt-cons z y c b,
  text_lt-cons z x c a,
)

pub text_lt_asym : (a b : String) → text_lt a b ≡ true → text_lt b a ≡ false
text_lt_asym String.[] b h = text_lt-nil b
text_lt_asym (String.◌∷◌ x a) String.[] h = ground (arith, h, text_lt-nil (String.◌∷◌ x a))
text_lt_asym (String.◌∷◌ x a) (String.◌∷◌ y b) h =
    ground (arith, h, text_lt_asym a b, text_lt-cons x y a b, text_lt-cons y x b a)

text_lt-append : (a r : String) → ((r == "") ≡ false) → text_lt a (String.◌++◌ a r) ≡ true
text_lt-append String.[] String.[] h = ground (arith, h)
text_lt-append String.[] (String.◌∷◌ c r) h = rw append.nil (text_lt-nil_cons c r)
text_lt-append (String.◌∷◌ x a) r h =
    rw append.cons (ground (arith, text_lt-append a r h, text_lt-cons x x a (String.◌++◌ a r)))

-- A text that another one begins with comes before it, or is the same.
pub text_lt-starts_with :
    (k j : String) → starts_with j k ≡ true → (k == j) ≡ false → text_lt k j ≡ true
text_lt-starts_with k j h ne =
    let (r, e) = (starts_with_iff j k).0 h in
    elim (Bool-cases (r == "")) [
      | inl empty ↦
          let same : k ≡ j =
            sym (append-nil k) ∙ ap (λ t. String.◌++◌ k t) (sym ((eq_iff r "").0 empty)) ∙ e in
          ground (arith, same, ne, eq_iff k j)
      | inr more ↦ subst (λ t. text_lt k t ≡ true) e (text_lt-append k r more)
    ]

comparable : (a b r s : String) → String.◌++◌ a r ≡ String.◌++◌ b s → IsPrefix a b ⊎ IsPrefix b a
comparable String.[] b r s e = inl (b, append.nil b)
comparable (String.◌∷◌ x a) String.[] r s e = inr (String.◌∷◌ x a, append.nil (String.◌∷◌ x a))
comparable (String.◌∷◌ x a) (String.◌∷◌ y b) r s e =
    let both : String.◌∷◌ x (String.◌++◌ a r) ≡ String.◌∷◌ y (String.◌++◌ b s) =
      sym (append.cons x a r) ∙ e ∙ append.cons y b s in
    let head = head-eq_of_cons-eq both in
    elim (comparable a b r s (tail-eq_of_cons-eq both)) [
      | inl (t, p) ↦ inl (t, append.cons x a t ∙ (λ i. String.◌∷◌ (head i) (p i)))
      | inr (t, p) ↦ inr (t, append.cons y b t ∙ (λ i. String.◌∷◌ (sym head i) (p i)))
    ]

-- Of two beginnings of one text, one begins with the other.
pub starts_with_either :
    (t a b : String)
    → starts_with t a ≡ true
    → starts_with t b ≡ true
    → (starts_with b a || starts_with a b) ≡ true
starts_with_either t a b h k =
    let (r, e) = (starts_with_iff t a).0 h in
    let (s, f) = (starts_with_iff t b).0 k in
    elim (comparable a b r s (e ∙ sym f)) [
      | inl p ↦ ground (arith, starts_with_of_prefix a b p)
      | inr p ↦ ground (arith, starts_with_of_prefix b a p)
    ]
