-- ===== src/Routing/Sorted.antt =====
-- routing.py: in sorted texts, a test of each against the later ones sees every text that begins with
-- another.
use text.Mathlib.Text.{starts_with}
use repowatch.Prelude.{
  ◌≡◌, refl, ◌∙◌, String, Bool, true, false, not, ◌&&◌, ◌||◌, arith, text_lt, ◌==◌, text_keys, List,
  [], ◌∷◌, contains, eq_iff, sorted, insert_text, Bool-cases, inl, inr, contains-sorted,
}
use repowatch.Routing.Text.{text_lt_trans, text_lt_asym, text_lt-starts_with, starts_with_either}

-- `any(b.startswith(a) for b in bs)`.
unfoldable pub any_starts : String → List String → Bool
any_starts a [] = false
any_starts a (b ∷ bs) = starts_with b a || any_starts a bs

unfoldable pub overlaps : List String → Bool
unfolding any_starts
overlaps [] = false
overlaps (a ∷ bs) = any_starts a bs || overlaps bs

unfoldable none_before : String → List String → Bool
none_before a [] = true
none_before a (b ∷ bs) = not (text_lt b a) && none_before a bs

unfoldable ordered : List String → Bool
unfolding none_before
ordered [] = true
ordered (a ∷ bs) = none_before a bs && ordered bs

none_before-insert_text :
    (a k : String) (js : List String)
    → text_lt k a ≡ false
    → none_before a js ≡ true
    → none_before a (insert_text k js) ≡ true
unfolding none_before insert_text
none_before-insert_text a k [] h n = ground arith
none_before-insert_text a k (j ∷ js) h n = ground (arith, none_before-insert_text a k js)

none_before_trans :
    (k j : String) (js : List String)
    → text_lt j k ≡ false
    → none_before j js ≡ true
    → none_before k js ≡ true
unfolding none_before
none_before_trans k j [] h n = refl
none_before_trans k j (b ∷ bs) h n =
    ground (arith, none_before_trans k j bs h, text_lt_trans k j b h)

ordered-insert_text :
    (k : String) (js : List String) → ordered js ≡ true → ordered (insert_text k js) ≡ true
unfolding ordered none_before insert_text
ordered-insert_text k [] o = refl
ordered-insert_text k (j ∷ js) o = ground (
  arith,
  ordered-insert_text k js,
  none_before-insert_text j k js,
  none_before_trans k j js,
  text_lt_asym k j,
)

ordered-sorted : (ks : List String) → ordered (sorted ks) ≡ true
unfolding ordered sorted
ordered-sorted [] = refl
ordered-sorted (k ∷ ks) = ordered-insert_text k (sorted ks) (ordered-sorted ks)

none_before-contains :
    (a k : String) (ks : List String)
    → none_before a ks ≡ true
    → contains k ks ≡ true
    → text_lt k a ≡ false
unfolding none_before contains
none_before-contains a k [] n c = cc
none_before-contains a k (j ∷ ks) n c = ground (arith, none_before-contains a k ks, eq_iff j k)

any_starts-contains :
    (a k : String) (ks : List String)
    → any_starts a ks ≡ false
    → contains k ks ≡ true
    → starts_with k a ≡ false
unfolding any_starts contains
any_starts-contains a k [] n c = cc
any_starts-contains a k (j ∷ ks) n c = elim (Bool-cases (j == k)) [
  | inl same ↦ let e : k ≡ j = ground (arith, eq_iff j k) in rw e (ground arith)
  | inr other ↦ any_starts-contains a k ks (ground arith) (ground arith)
]

overlaps-starts_with :
    (k j : String) (ks : List String)
    → ordered ks ≡ true
    → overlaps ks ≡ false
    → contains k ks ≡ true
    → contains j ks ≡ true
    → (k == j) ≡ false
    → starts_with j k ≡ false
unfolding ordered overlaps contains
overlaps-starts_with k j [] o v ck cj ne = cc
overlaps-starts_with k j (x ∷ xs) o v ck cj ne = elim (Bool-cases (x == k)) [
  | inl first ↦
      let e : k ≡ x = ground (arith, eq_iff x k) in
      rw e (any_starts-contains x j xs (ground arith) (ground (arith, ne, e, cj, eq_iff x j)))
  | inr later ↦ elim (Bool-cases (x == j)) [
    | inl here ↦
        let e : j ≡ x = ground (arith, eq_iff x j) in
        ground (
          arith,
          text_lt-starts_with k j,
          none_before-contains x k xs (ground arith) (ground arith),
          e,
          ne,
        )
    | inr both ↦
        overlaps-starts_with k j xs (ground arith) (ground arith) (ground arith) (ground arith) ne
  ]
]

-- Without an overlap a text begins with one of the keys at most.
pub starts_with_unique :
    (ks : List String) (t a b : String)
    → overlaps (sorted ks) ≡ false
    → contains a ks ≡ true
    → contains b ks ≡ true
    → starts_with t a ≡ true
    → starts_with t b ≡ true
    → a ≡ b
starts_with_unique ks t a b v ca cb ha hb = elim (Bool-cases (a == b)) [
  | inl same ↦ (eq_iff a b).0 same
  | inr other ↦
      let s = sorted ks in
      ground (
        arith,
        starts_with_either t a b ha hb,
        overlaps-starts_with a b s (ordered-sorted ks) v (contains-sorted a ks ∙ ca)
            (contains-sorted b ks ∙ cb) other,
        overlaps-starts_with b a s (ordered-sorted ks) v (contains-sorted b ks ∙ cb)
            (contains-sorted a ks ∙ ca) (ground (arith, other, eq_iff a b, eq_iff b a)),
      )
]
