-- ===== src/Storage/Order.antt =====
-- The order of texts by their bytes, as Go's operator > and SQLite's ORDER BY have it, and sorting by it.
use enxame.Base.{
  ◌≡◌, ◌⊎◌, inl, inr, refl, Bool, true, false, List, [], ◌∷◌, if◌then◌else◌, String, arith, ℕ,
}
use Prim.Native.Nat.{Ordering, compare as compare_numbers}
use Prim.Native.String.compare
use Prim.Native.String.{compare}
use Prim.Native.Char.{code}
use text.Mathlib.TextEquality.{path_by_compare}

-- a > b
abbrev after : Ordering → Bool
after Ordering.lt = false
after Ordering.eq = false
after Ordering.gt = true

unfoldable pub is_after : String → String → Bool
is_after a b = after (compare a b)

-- Where an element is put before the first that follows it.
abbrev put_sorted {ℓ} : {A : Type ℓ} → (A → A → Bool) → A → List A → List A
put_sorted follows x [] = x ∷ []
put_sorted follows x (y ∷ ys) = if follows y x then x ∷ y ∷ ys else y ∷ put_sorted follows x ys

abbrev pub sort_by {ℓ} : {A : Type ℓ} → (A → A → Bool) → List A → List A
sort_by follows [] = []
sort_by follows (x ∷ xs) = put_sorted follows x (sort_by follows xs)

flip : Ordering → Ordering
flip Ordering.lt = Ordering.gt
flip Ordering.eq = Ordering.eq
flip Ordering.gt = Ordering.lt

flip_numbers : (m n : ℕ) → compare_numbers n m ≡ flip (compare_numbers m n)
unfolding flip
flip_numbers m n = ground arith

flip_texts : (s t : String) → compare t s ≡ flip (compare s t)
unfolding flip
flip_texts String.[] String.[] = ground (arith, compare.nil-nil)
flip_texts String.[] (String.◌∷◌ d t) = ground (arith, compare.nil-cons d t, compare.cons-nil d t)
flip_texts (String.◌∷◌ c s) String.[] = ground (arith, compare.nil-cons c s, compare.cons-nil c s)
flip_texts (String.◌∷◌ c s) (String.◌∷◌ d t) = ground (
  arith,
  compare.cons-cons c d s t,
  compare.cons-cons d c t s,
  flip_numbers (code c) (code d),
  flip_texts s t,
)

-- Of two texts at most one is after the other, and only equal texts are not.
pub is_after_total : (s t : String) → (is_after s t ≡ true) ⊎ ((is_after t s ≡ true) ⊎ (s ≡ t))
unfolding is_after flip
is_after_total s t = by_order (compare s t) refl
  where
    by_order :
        (o : Ordering) → compare s t ≡ o → (is_after s t ≡ true) ⊎ ((is_after t s ≡ true) ⊎ (s ≡ t))
    by_order Ordering.lt e = inr (inl (ground (arith, e, flip_texts s t)))
    by_order Ordering.eq e = inr (inr (path_by_compare s t e))
    by_order Ordering.gt e = inl (ground (arith, e))

pub is_after_asym : (s t : String) → is_after s t ≡ true → is_after t s ≡ false
unfolding is_after flip
is_after_asym s t h = by_order (compare s t) refl
  where
    by_order : (o : Ordering) → compare s t ≡ o → is_after t s ≡ false
    by_order Ordering.lt e = ground (arith, e, h)
    by_order Ordering.eq e = ground (arith, e, h)
    by_order Ordering.gt e = ground (arith, e, flip_texts s t)
