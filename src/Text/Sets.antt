-- ===== src/Text/Sets.antt =====
-- Lists without repetition as sets: what has the same elements has the same length.
use langgraph_lens.Prelude.{
  ◌+◌, String, ◌≡◌, refl, sym, ◌∙◌, ap, Bool, true, false, not, ◌&&◌, ◌||◌, List, [], ◌∷◌, ◌++◌,
  keep, count, length, length-append, contains, arith, string_eq, ◌==◌,
}
use langgraph_lens.Text.{sorted_set}
use langgraph_lens.Text.Order.{is_distinct, contains-sorted_set, is_distinct-sorted_set}

-- Both lists have the same elements.
abbrev pub SameElements : List String → List String → Type 0
SameElements xs ys = (z : String) → contains xs z ≡ contains ys z

pub length-keep : (p : String → Bool) (xs : List String) → length (keep p xs) ≡ count p xs
length-keep p [] = refl
length-keep p (x ∷ xs) = ground (arith, length-keep p xs)

pub contains-keep :
    (p : String → Bool) (xs : List String) (z : String)
    → contains (keep p xs) z ≡ (contains xs z && p z)
contains-keep p [] z = refl
contains-keep p (x ∷ xs) z = elim (string_eq.dec z x) [
  | yes e ↦ ground (arith, contains-keep p xs z, ap p e)
  | no n ↦ ground (arith, contains-keep p xs z)
]

pub is_distinct-keep :
    (p : String → Bool) (xs : List String) → is_distinct xs ≡ true → is_distinct (keep p xs) ≡ true
is_distinct-keep p [] h = refl
is_distinct-keep p (x ∷ xs) h = ground (arith, is_distinct-keep p xs, contains-keep p xs x)

pub contains-append :
    (xs ys : List String) (z : String) → contains (xs ++ ys) z ≡ (contains xs z || contains ys z)
contains-append [] ys z = refl
contains-append (x ∷ xs) ys z = ground (arith, contains-append xs ys z)

-- No element of the second list is in the first.
pub is_distinct-append :
    (xs ys : List String)
    → is_distinct xs ≡ true
    → is_distinct ys ≡ true
    → ((z : String) → (contains xs z && contains ys z) ≡ false)
    → is_distinct (xs ++ ys) ≡ true
is_distinct-append [] ys h k apart = k
is_distinct-append (x ∷ xs) ys h k apart = ground (
  arith,
  is_distinct-append xs ys (ground arith) k (λ z. ground (arith, apart z)),
  contains-append xs ys x,
  apart x,
)

-- The list without one element.
abbrev without : String → List String → List String
without x = keep (λ y. not (y == x))

without_absent : (x : String) (ys : List String) → contains ys x ≡ false → without x ys ≡ ys
without_absent x [] h = refl
without_absent x (y ∷ ys) h = ground (arith, without_absent x ys)

length-without :
    (x : String) (ys : List String)
    → is_distinct ys ≡ true
    → contains ys x ≡ true
    → length ys ≡ length (without x ys) + 1
length-without x [] h k = ground arith
length-without x (y ∷ ys) h k = elim (string_eq.dec x y) [
  | yes e ↦
      let same = ap (λ w. contains ys w) e in
      let gone : without x ys ≡ ys = without_absent x ys (ground (arith, same)) in
      ground (arith, ap length gone)
  | no n ↦ ground (arith, length-without x ys)
]

SameElements-tail :
    (x : String) (xs ys : List String)
    → contains xs x ≡ false
    → SameElements (x ∷ xs) ys
    → SameElements xs (without x ys)
SameElements-tail x xs ys new same z = elim (string_eq.dec z x) [
  | yes e ↦
      let gone = ap (contains xs) e in
      ground (arith, gone, new, contains-keep (λ y. not (y == x)) ys z)
  | no n ↦ ground (arith, same z, contains-keep (λ y. not (y == x)) ys z)
]

pub length-SameElements :
    (xs ys : List String)
    → is_distinct xs ≡ true
    → is_distinct ys ≡ true
    → SameElements xs ys
    → length xs ≡ length ys
length-SameElements [] [] h k same = refl
length-SameElements [] (y ∷ ys) h k same = ground (arith, same y)
length-SameElements (x ∷ xs) ys h k same =
    let rest =
      length-SameElements xs (without x ys) (ground arith)
        (is_distinct-keep (λ y. not (y == x)) ys k)
        (SameElements-tail x xs ys (ground arith) same) in
    ground (arith, length-without x ys k, same x, rest)

count-not :
    (p : String → Bool) (xs : List String) → count p xs + count (λ x. not (p x)) xs ≡ length xs
count-not p [] = refl
count-not p (x ∷ xs) = ground (arith, count-not p xs)

module _ (xs ys : List String) (h : is_distinct xs ≡ true) (k : is_distinct ys ≡ true) where
  -- The elements of both lists, and those of either.
  abbrev common : List String
  common = keep (contains ys) xs

  abbrev either : List String
  either = xs ++ keep (λ y. not (contains xs y)) ys

  contains-either : (z : String) → contains either z ≡ (contains xs z || contains ys z)
  contains-either z = ground (
    arith,
    contains-append xs (keep (λ y. not (contains xs y)) ys) z,
    contains-keep (λ y. not (contains xs y)) ys z,
  )

  is_distinct-either : is_distinct either ≡ true
  is_distinct-either =
      is_distinct-append xs (keep (λ y. not (contains xs y)) ys) h
        (is_distinct-keep (λ y. not (contains xs y)) ys k)
        (λ z. ground (arith, contains-keep (λ y. not (contains xs y)) ys z))

  count_sym : count (contains ys) xs ≡ count (contains xs) ys
  count_sym =
      sym (length-keep (contains ys) xs)
      ∙ length-SameElements common (keep (contains xs) ys) (is_distinct-keep (contains ys) xs h)
          (is_distinct-keep (contains xs) ys k)
          (λ z. ground (arith, contains-keep (contains ys) xs z, contains-keep (contains xs) ys z))
      ∙ length-keep (contains xs) ys

  -- Any list without repetition that has the elements of both is as long as the count of them.
  pub length-both :
      (both : List String)
      → is_distinct both ≡ true
      → ((z : String) → contains both z ≡ (contains xs z && contains ys z))
      → length both ≡ count (contains ys) xs
  length-both both d same =
      length-SameElements both common d (is_distinct-keep (contains ys) xs h)
        (λ z. same z ∙ sym (contains-keep (contains ys) xs z))
      ∙ length-keep (contains ys) xs

  -- So is one with the elements of either.
  pub length-either :
      (all : List String)
      → is_distinct all ≡ true
      → ((z : String) → contains all z ≡ (contains xs z || contains ys z))
      → length all + count (contains ys) xs ≡ length xs + length ys
  length-either all d same =
      let long =
        length-SameElements all either d is_distinct-either
          (λ z. same z ∙ sym (contains-either z)) in
      let new = length-keep (λ y. not (contains xs y)) ys in
      let sum = length-append xs (keep (λ y. not (contains xs y)) ys) in
      omega (arith, long, new, sum, count-not (contains xs) ys, count_sym)

-- The list has no repetition, and its elements are those that the test accepts.
abbrev pub IsSetOf : (String → Bool) → List String → Type 0
IsSetOf p xs = (is_distinct xs ≡ true) × ((z : String) → contains xs z ≡ p z)

-- Any such list has the length of the sorted set.
pub length-sorted_set :
    (xs set : List String) → IsSetOf (contains xs) set → length (sorted_set xs) ≡ length set
length-sorted_set xs set (d, same) =
    length-SameElements (sorted_set xs) set (is_distinct-sorted_set xs) d
      (λ z. contains-sorted_set xs z ∙ sym (same z))
