-- ===== src/Text/Order.antt =====
-- `sorted(set(xs))`: the order of texts, and that the list it gives has each element once.
use Prim.Native.String.{compare, then as first_then}
use Prim.Native.String.compare
use Prim.Native.Nat.{Ordering, compare as compare_ℕ}
use Prim.Native.Char.{code}
use native.Mathlib.Omega.{compare-lt, compare-eq, compare-gt}
use text.Mathlib.TextEquality.{path_by_compare}
use langgraph_lens.Prelude.{
  ℕ, String, ◌≡◌, refl, sym, ◌∙◌, ap, subst, Bool, true, false, not, ◌&&◌, ◌||◌, List, [], ◌∷◌, eqb,
  ltb, contains, arith, string_eq, ◌==◌,
}
use langgraph_lens.Text.{insert_sorted, sorted_set}

-- The first text comes before the second, by code points.
below : String → String → Bool
below String.[] String.[] = false
below String.[] (String.◌∷◌ d t) = true
below (String.◌∷◌ c s) String.[] = false
below (String.◌∷◌ c s) (String.◌∷◌ d t) =
    let rest = below s t in ltb (code c) (code d) || (eqb (code c) (code d) && rest)

below_irrefl : (s : String) → below s s ≡ false
unfolding below
below_irrefl String.[] = refl
below_irrefl (String.◌∷◌ c s) = ground (arith, below_irrefl s)

below_trans : (s t u : String) → below s t ≡ true → below t u ≡ true → below s u ≡ true
unfolding below
below_trans String.[] String.[] u p q = ground arith
below_trans String.[] (String.◌∷◌ d t) String.[] p q = ground arith
below_trans String.[] (String.◌∷◌ d t) (String.◌∷◌ e u) p q = refl
below_trans (String.◌∷◌ c s) String.[] u p q = ground arith
below_trans (String.◌∷◌ c s) (String.◌∷◌ d t) String.[] p q = ground arith
below_trans (String.◌∷◌ c s) (String.◌∷◌ d t) (String.◌∷◌ e u) p q =
    ground (arith, below_trans s t u)

-- What the comparison of two first characters and that of the rest say together.
first_below :
    (o r : Ordering) (m n : ℕ) (b : Bool)
    → compare_ℕ m n ≡ o
    → first_then o r ≡ Ordering.lt
    → (r ≡ Ordering.lt → b ≡ true)
    → (ltb m n || (eqb m n && b)) ≡ true
first_below Ordering.lt r m n b e h rest = ground (arith, compare-lt m n e)
first_below Ordering.eq r m n b e h rest = ground (arith, compare-eq m n e, rest h)
first_below Ordering.gt r m n b e h rest = ground (arith, h)

first_above :
    (o r : Ordering) (m n : ℕ) (b : Bool)
    → compare_ℕ m n ≡ o
    → first_then o r ≡ Ordering.gt
    → (r ≡ Ordering.gt → b ≡ true)
    → (ltb n m || (eqb n m && b)) ≡ true
first_above Ordering.lt r m n b e h rest = ground (arith, h)
first_above Ordering.eq r m n b e h rest = ground (arith, compare-eq m n e, rest h)
first_above Ordering.gt r m n b e h rest = ground (arith, compare-gt m n e)

compare-below : (s t : String) → compare s t ≡ Ordering.lt → below s t ≡ true
unfolding below
compare-below String.[] String.[] h = ground (arith, h)
compare-below String.[] (String.◌∷◌ d t) h = refl
compare-below (String.◌∷◌ c s) String.[] h = ground (arith, sym (compare.cons-nil c s) ∙ h)
compare-below (String.◌∷◌ c s) (String.◌∷◌ d t) h =
    first_below _ _ (code c) (code d) (below s t) refl (sym (compare.cons-cons c d s t) ∙ h)
      (compare-below s t)

compare-above : (s t : String) → compare s t ≡ Ordering.gt → below t s ≡ true
unfolding below
compare-above String.[] String.[] h = ground (arith, h)
compare-above String.[] (String.◌∷◌ d t) h = ground (arith, sym (compare.nil-cons d t) ∙ h)
compare-above (String.◌∷◌ c s) String.[] h = refl
compare-above (String.◌∷◌ c s) (String.◌∷◌ d t) h =
    first_above _ _ (code c) (code d) (below t s) refl (sym (compare.cons-cons c d s t) ∙ h)
      (compare-above s t)

-- Every element comes after the text.
all_above : String → List String → Bool
all_above x [] = true
all_above x (y ∷ ys) = below x y && all_above x ys

ascends : List String → Bool
unfolding all_above
ascends [] = true
ascends (x ∷ xs) = all_above x xs && ascends xs

-- No element occurs twice.
abbrev pub is_distinct : List String → Bool
is_distinct [] = true
is_distinct (x ∷ xs) = not (contains xs x) && is_distinct xs

all_above-weaken :
    (x y : String) (ys : List String)
    → below x y ≡ true
    → all_above y ys ≡ true
    → all_above x ys ≡ true
unfolding all_above
all_above-weaken x y [] p h = refl
all_above-weaken x y (z ∷ zs) p h = ground (arith, below_trans x y z, all_above-weaken x y zs)

all_above-absent : (x : String) (ys : List String) → all_above x ys ≡ true → contains ys x ≡ false
unfolding all_above
all_above-absent x [] h = refl
all_above-absent x (y ∷ ys) h = ground (arith, all_above-absent x ys, below_irrefl x)

ascends-is_distinct : (xs : List String) → ascends xs ≡ true → is_distinct xs ≡ true
unfolding ascends
ascends-is_distinct [] h = refl
ascends-is_distinct (x ∷ xs) h = ground (arith, all_above-absent x xs, ascends-is_distinct xs)

-- An element more, put where the comparison says.
insert_at : Ordering → String → String → List String → List String
insert_at Ordering.lt x y ys = x ∷ y ∷ ys
insert_at Ordering.eq x y ys = y ∷ ys
insert_at Ordering.gt x y ys = y ∷ insert_sorted x ys

insert_sorted_lem :
    (x y : String) (ys : List String) (o : Ordering)
    → compare x y ≡ o
    → insert_sorted x (y ∷ ys) ≡ insert_at o x y ys
unfolding insert_sorted insert_at
insert_sorted_lem x y ys Ordering.lt e = rw (insert_sorted, e) refl
insert_sorted_lem x y ys Ordering.eq e = rw (insert_sorted, e) refl
insert_sorted_lem x y ys Ordering.gt e = rw (insert_sorted, e) refl

contains-insert_at :
    (o : Ordering) (x y z : String) (ys : List String)
    → compare x y ≡ o
    → contains (insert_sorted x ys) z ≡ (z == x || contains ys z)
    → contains (insert_at o x y ys) z ≡ (z == x || contains (y ∷ ys) z)
unfolding insert_at
contains-insert_at Ordering.lt x y z ys e h = refl
contains-insert_at Ordering.eq x y z ys e h = ground (arith, path_by_compare x y e)
contains-insert_at Ordering.gt x y z ys e h = ground (arith, h)

contains-insert_sorted :
    (x z : String) (ys : List String) → contains (insert_sorted x ys) z ≡ (z == x || contains ys z)
unfolding insert_sorted
contains-insert_sorted x z [] = refl
contains-insert_sorted x z (y ∷ ys) =
    ap (λ l. contains l z) (insert_sorted_lem x y ys (compare x y) refl)
    ∙ contains-insert_at (compare x y) x y z ys refl (contains-insert_sorted x z ys)

-- The list has the elements of the other, and no more.
pub contains-sorted_set :
    (xs : List String) (z : String) → contains (sorted_set xs) z ≡ contains xs z
unfolding sorted_set
contains-sorted_set [] z = refl
contains-sorted_set (x ∷ xs) z =
    contains-insert_sorted x z (sorted_set xs) ∙ ap (λ b. z == x || b) (contains-sorted_set xs z)

all_above-insert_at :
    (o : Ordering) (z x y : String) (ys : List String)
    → below z x ≡ true
    → all_above z (y ∷ ys) ≡ true
    → all_above z (insert_sorted x ys) ≡ true
    → all_above z (insert_at o x y ys) ≡ true
unfolding insert_at all_above
all_above-insert_at Ordering.lt z x y ys p h rest = ground arith
all_above-insert_at Ordering.eq z x y ys p h rest = h
all_above-insert_at Ordering.gt z x y ys p h rest = ground arith

all_above-insert_sorted :
    (z x : String) (ys : List String)
    → below z x ≡ true
    → all_above z ys ≡ true
    → all_above z (insert_sorted x ys) ≡ true
unfolding insert_sorted all_above
all_above-insert_sorted z x [] p h = ground arith
all_above-insert_sorted z x (y ∷ ys) p h =
    subst (λ l. all_above z l ≡ true) (sym (insert_sorted_lem x y ys (compare x y) refl))
      (all_above-insert_at (compare x y) z x y ys p h
        (all_above-insert_sorted z x ys p (ground arith)))

ascends-insert_at :
    (o : Ordering) (x y : String) (ys : List String)
    → compare x y ≡ o
    → ascends (y ∷ ys) ≡ true
    → ascends (insert_sorted x ys) ≡ true
    → ascends (insert_at o x y ys) ≡ true
unfolding insert_at ascends all_above
ascends-insert_at Ordering.lt x y ys e h rest =
    ground (arith, compare-below x y e, all_above-weaken x y ys (compare-below x y e))
ascends-insert_at Ordering.eq x y ys e h rest = h
ascends-insert_at Ordering.gt x y ys e h rest =
    ground (arith, all_above-insert_sorted y x ys (compare-above x y e))

ascends-insert_sorted :
    (x : String) (ys : List String) → ascends ys ≡ true → ascends (insert_sorted x ys) ≡ true
unfolding insert_sorted ascends all_above
ascends-insert_sorted x [] h = refl
ascends-insert_sorted x (y ∷ ys) h =
    subst (λ l. ascends l ≡ true) (sym (insert_sorted_lem x y ys (compare x y) refl))
      (ascends-insert_at (compare x y) x y ys refl h (ascends-insert_sorted x ys (ground arith)))

ascends-sorted_set : (xs : List String) → ascends (sorted_set xs) ≡ true
unfolding sorted_set ascends
ascends-sorted_set [] = refl
ascends-sorted_set (x ∷ xs) = ascends-insert_sorted x (sorted_set xs) (ascends-sorted_set xs)

pub is_distinct-sorted_set : (xs : List String) → is_distinct (sorted_set xs) ≡ true
is_distinct-sorted_set xs = ascends-is_distinct (sorted_set xs) (ascends-sorted_set xs)
