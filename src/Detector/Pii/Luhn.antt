-- ===== src/Detector/Pii/Luhn.antt =====
-- detectors/pii.py: which mistakes in a card number the checksum finds.
use Prim.Native.Char.{Char, code}
use text.Mathlib.TextLemmas.{nil-append, cons-append}
use langgraph_lens.Prelude.{
  ℕ, ◌+◌, ◌-◌, ◌%◌, ◌≤◌, ◌<◌, ◌≡◌, ◌≢◌, refl, ap, sym, ◌∙◌, String, ◌<>◌, Bool, true, false, not,
  ◌&&◌, List, [], ◌∷◌, ◌++◌, length, length-append, eqb, ltb, arith,
}
use langgraph_lens.Runtime.{Unicode}
use langgraph_lens.Regex.Classes.{is_digit}
use langgraph_lens.Detector.Pii.{card_digits, checksum, luhn}

-- An ASCII digit
abbrev pub IsDigit : Char → Type 0
IsDigit c = (b'0' ≤ code c) × (code c ≤ b'9')

card_digits-append :
    (u : Unicode) (s t : String) → card_digits u (s <> t) ≡ card_digits u s ++ card_digits u t
unfolding card_digits
card_digits-append u String.[] t = ap (card_digits u) (nil-append t)
card_digits-append u (String.◌∷◌ c s) t =
    ap (card_digits u) (cons-append c s t) ∙ ground (arith, card_digits-append u s t)

card_digits-digit :
    (u : Unicode) (c : Char) (t : String)
    → IsDigit c
    → card_digits u (String.◌∷◌ c t) ≡ (code c - 48) ∷ card_digits u t
unfolding card_digits is_digit
card_digits-digit u c t (low, top) = ground (arith, low, top)

checksum-append :
    (parity i : ℕ) (xs ys : List ℕ)
    → checksum parity i (xs ++ ys) ≡ checksum parity i xs + checksum parity (i + length xs) ys
unfolding checksum
checksum-append parity i [] ys = ground arith
checksum-append parity i (x ∷ xs) ys = ground (arith, checksum-append parity (i + 1) xs ys)

checksum_change :
    (parity i a b : ℕ) (ys : List ℕ)
    → a ≤ 9
    → b ≤ 9
    → a ≢ b
    → (n : ℕ) → (n + checksum parity i (a ∷ ys)) % 10 ≡ 0
    → ((n + checksum parity i (b ∷ ys)) % 10) ≢ 0
unfolding checksum
checksum_change parity i a b ys ha hb differ n h = ground (arith, ha, hb, differ, h)

checksum_swap :
    (parity i a b : ℕ) (ys : List ℕ)
    → parity < 2
    → a ≤ 9
    → b ≤ 9
    → a ≢ b
    → a + 9 ≢ b
    → b + 9 ≢ a
    → (n : ℕ) → (n + checksum parity i (a ∷ b ∷ ys)) % 10 ≡ 0
    → ((n + checksum parity i (b ∷ a ∷ ys)) % 10) ≢ 0
unfolding checksum
checksum_swap parity i a b ys hp ha hb differ up down n h =
    ground (arith, hp, ha, hb, differ, up, down, h)

-- The number that is read from a card with digits before a place, the digits there, and after it.
card_digits_around :
    (u : Unicode) (s t : String) (c : Char)
    → IsDigit c
    → card_digits u (s <> String.◌∷◌ c t) ≡ card_digits u s ++ ((code c - 48) ∷ card_digits u t)
card_digits_around u s t c hc =
    card_digits-append u s (String.◌∷◌ c t)
    ∙ ap (λ x. card_digits u s ++ x) (card_digits-digit u c t hc)

card_digits_pair :
    (u : Unicode) (s t : String) (c d : Char)
    → IsDigit c
    → IsDigit d
    → card_digits u (s <> String.◌∷◌ c (String.◌∷◌ d t))
      ≡ card_digits u s ++ ((code c - 48) ∷ (code d - 48) ∷ card_digits u t)
card_digits_pair u s t c d hc hd =
    card_digits_around u s (String.◌∷◌ d t) c hc
    ∙ ap (λ x. card_digits u s ++ ((code c - 48) ∷ x)) (card_digits-digit u d t hd)

abbrev valid : List ℕ → Bool
valid ds = not (ltb (length ds) 13) && eqb (checksum (length ds % 2) 0 ds % 10) 0

-- Two ends of a number whose sums never both come to 0.
abbrev Apart : ℕ → List ℕ → List ℕ → Type 0
Apart i us vs =
    (p n : ℕ) → p < 2 → (n + checksum p i us) % 10 ≡ 0 → ((n + checksum p i vs) % 10) ≢ 0

valid-Apart :
    (xs us vs : List ℕ)
    → length us ≡ length vs
    → Apart (length xs) us vs
    → valid (xs ++ us) ≡ true
    → valid (xs ++ vs) ≡ false
valid-Apart xs us vs long apart h =
    let p = length (xs ++ us) % 2 in
    let same : length (xs ++ vs) % 2 ≡ p =
      ground (arith, long, length-append xs us, length-append xs vs) in
    let moved : checksum (length (xs ++ vs) % 2) 0 (xs ++ vs) ≡ checksum p 0 (xs ++ vs) =
      ap (λ x. checksum x 0 (xs ++ vs)) same in
    let small : p < 2 = omega arith in
    ground (
      arith,
      checksum-append p 0 xs us,
      checksum-append p 0 xs vs,
      moved,
      h,
      apart p (checksum p 0 xs) small,
    )

-- A number that is right is not right any more with another ASCII digit in one place.
luhn_changed :
    (u : Unicode) (s t : String) (c d : Char)
    → IsDigit c
    → IsDigit d
    → code c ≢ code d
    → luhn u (s <> String.◌∷◌ c t) ≡ true
    → luhn u (s <> String.◌∷◌ d t) ≡ false
unfolding luhn
luhn_changed u s t c d hc hd differ h =
    let (c_low, c_top) = hc in
    let (d_low, d_top) = hd in
    let xs = card_digits u s in
    let ys = card_digits u t in
    ap valid (card_digits_around u s t d hd)
    ∙ valid-Apart xs ((code c - 48) ∷ ys) ((code d - 48) ∷ ys) refl
        (λ p n small.
          checksum_change p (length xs) (code c - 48) (code d - 48) ys (omega arith) (omega arith)
            (λ e. differ (omega arith)) n)
        (sym (ap valid (card_digits_around u s t c hc)) ∙ h)

-- Nor is it with two different neighbouring ASCII digits exchanged, unless they are 0 and 9.
luhn_swapped :
    (u : Unicode) (s t : String) (c d : Char)
    → IsDigit c
    → IsDigit d
    → code c ≢ code d
    → code c + 9 ≢ code d
    → code d + 9 ≢ code c
    → luhn u (s <> String.◌∷◌ c (String.◌∷◌ d t)) ≡ true
    → luhn u (s <> String.◌∷◌ d (String.◌∷◌ c t)) ≡ false
unfolding luhn
luhn_swapped u s t c d hc hd differ up down h =
    let (c_low, c_top) = hc in
    let (d_low, d_top) = hd in
    let xs = card_digits u s in
    let ys = card_digits u t in
    let a = code c - 48 in
    let b = code d - 48 in
    ap valid (card_digits_pair u s t d c hd hc)
    ∙ valid-Apart xs (a ∷ b ∷ ys) (b ∷ a ∷ ys) refl
        (λ p n small.
          checksum_swap p (length xs) a b ys small (omega arith) (omega arith)
            (λ e. differ (omega arith)) (λ e. up (omega arith)) (λ e. down (omega arith)) n)
        (sym (ap valid (card_digits_pair u s t c d hc hd)) ∙ h)

-- Mistakes in typing a number: one digit for another, or two neighbours exchanged.
pub data Slip : String → String → Type 0 where
  changed :
      (s t : String) (c d : Char)
      → IsDigit c
      → IsDigit d
      → code c ≢ code d
      → Slip (s <> String.◌∷◌ c t) (s <> String.◌∷◌ d t)
  swapped :
      (s t : String) (c d : Char)
      → IsDigit c
      → IsDigit d
      → code c ≢ code d
      → code c + 9 ≢ code d
      → code d + 9 ≢ code c
      → Slip (s <> String.◌∷◌ c (String.◌∷◌ d t)) (s <> String.◌∷◌ d (String.◌∷◌ c t))

-- A text that counts as a card number does not count as one any more with another ASCII digit in one
-- place, or with two different neighbouring ASCII digits exchanged that are not 0 and 9.
pub luhn-Slip :
    (u : Unicode) (card mistyped : String)
    → Slip card mistyped
    → luhn u card ≡ true
    → luhn u mistyped ≡ false
luhn-Slip u _ _ (changed s t c d hc hd differ) h = luhn_changed u s t c d hc hd differ h
luhn-Slip u _ _ (swapped s t c d hc hd differ up down) h =
    luhn_swapped u s t c d hc hd differ up down h
