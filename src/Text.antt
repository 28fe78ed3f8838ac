-- ===== src/Text.antt =====
-- What the source does to text with `sorted(set(...))`, `sep.join(...)`, `str(n)` and `len(...)`.
pub mod Order
pub mod Sets
use Prim.Native.String.{compare}
use Prim.Native.Nat.{Ordering}
use Prim.Native.Char.{code}
use langgraph_lens.Prelude.{
  ℕ, zero, suc, ◌/◌, ◌%◌, String, ◌<>◌, Bool, true, false, ◌&&◌, ◌||◌, List, [], ◌∷◌, eqb, ltb,
  if◌then◌else◌,
}

-- The characters of a text are counted, as Python's `len` does.
unfoldable pub text_length : String → ℕ
text_length String.[] = 0
text_length (String.◌∷◌ c s) = suc (text_length s)

-- `insert` into a list that is in strictly ascending order
unfoldable pub insert_sorted : String → List String → List String
insert_sorted x [] = x ∷ []
insert_sorted x (y ∷ ys) = elim (compare x y) [
  | Ordering.lt ↦ x ∷ y ∷ ys
  | Ordering.eq ↦ y ∷ ys
  | Ordering.gt ↦ y ∷ insert_sorted x ys
]

-- `sorted(set(xs))`, by code points as Python compares texts
unfoldable pub sorted_set : List String → List String
unfolding insert_sorted
sorted_set [] = []
sorted_set (x ∷ xs) = insert_sorted x (sorted_set xs)

-- `sep.join(xs)`
unfoldable pub join : String → List String → String
join sep [] = ""
join sep (x ∷ []) = x
join sep (x ∷ y ∷ ys) = x <> sep <> join sep (y ∷ ys)

digit : ℕ → String
digit d =
    if eqb d 0
    then "0"
    else if eqb d 1
    then "1"
    else if eqb d 2
    then "2"
    else if eqb d 3
    then "3"
    else if eqb d 4
    then "4"
    else if eqb d 5
    then "5"
    else if eqb d 6
    then "6"
    else if eqb d 7
    then "7"
    else if eqb d 8
    then "8"
    else "9"

-- `f` digits are enough for a number below 10 ^ f.
decimal_digits : ℕ → ℕ → String
unfolding digit
decimal_digits zero n = ""
decimal_digits (suc f) n =
    let rest = decimal_digits f (n / 10) <> digit (n % 10) in if ltb n 10 then digit n else rest

-- `str(n)`
unfoldable pub decimal : ℕ → String
unfolding decimal_digits
decimal n = decimal_digits (suc n) n

-- `text.startswith(prefix)`
unfoldable pub is_prefix : String → String → Bool
is_prefix String.[] t = true
is_prefix (String.◌∷◌ c s) String.[] = false
is_prefix (String.◌∷◌ c s) (String.◌∷◌ d t) = eqb (code c) (code d) && is_prefix s t

-- `part in text`
unfoldable pub is_infix : String → String → Bool
unfolding is_prefix
is_infix part String.[] = is_prefix part String.[]
is_infix part (String.◌∷◌ c t) = is_prefix part (String.◌∷◌ c t) || is_infix part t

-- The pieces of a text between the characters of a class, as `re.split` with one character; `piece`
-- is the current piece.
split_from : (ℕ → Bool) → String → String → List String
split_from sep piece String.[] = piece ∷ []
split_from sep piece (String.◌∷◌ c s) =
    let cut = piece ∷ split_from sep "" s in
    let on = split_from sep (piece <> String.◌∷◌ c String.[]) s in if sep (code c) then cut else on

unfoldable pub split_on : (ℕ → Bool) → String → List String
unfolding split_from
split_on sep s = split_from sep "" s
