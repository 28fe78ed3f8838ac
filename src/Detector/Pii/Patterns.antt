-- ===== src/Detector/Pii/Patterns.antt =====
-- detectors/pii.py: the regular expressions of `_BUILTIN`.
use langgraph_lens.Prelude.{ℕ, Bool, ◌&&◌, ◌||◌, [], ◌∷◌, eqb, leb, string_eq}
use langgraph_lens.Runtime.{Unicode}
use langgraph_lens.Regex.{Regex, class, seq, star, boundary, not_ahead}
use langgraph_lens.Regex.Classes.{
  is_digit, is_word, is_space, is_upper, is_lower, lit, all_of, any_of, plus, opt, times, between,
  one_of,
}

abbrev digits : Unicode → ℕ → Regex
digits u n = times n (class (is_digit u))

-- `[-.\s]`, `[ -]`, `[\s-]`
abbrev phone_gap : Unicode → Regex
phone_gap u = class (λ c. eqb c b'-' || eqb c b'.' || is_space u c)

abbrev card_gap : Regex
card_gap = class (λ c. eqb c b' ' || eqb c b'-')

abbrev space_or_dash : Unicode → Regex
space_or_dash u = class (λ c. is_space u c || eqb c b'-')

-- `\b(?!000|666|9\d{2})\d{3}-(?!00)\d{2}-(?!0000)\d{4}\b`
unfoldable pub ssn_pattern : Unicode → Regex
ssn_pattern u = all_of (
    boundary (is_word u)
    ∷ not_ahead (any_of (lit "000" ∷ lit "666" ∷ seq (lit "9") (digits u 2) ∷ []))
    ∷ digits u 3
    ∷ lit "-"
    ∷ not_ahead (lit "00")
    ∷ digits u 2
    ∷ lit "-"
    ∷ not_ahead (lit "0000")
    ∷ digits u 4
    ∷ boundary (is_word u)
    ∷ [])

-- `\b(?:\d[ -]?){13,19}\b`
unfoldable pub card_pattern : Unicode → Regex
card_pattern u = all_of (
    boundary (is_word u)
    ∷ between 13 19 (seq (class (is_digit u)) (opt card_gap))
    ∷ boundary (is_word u)
    ∷ [])

-- `\b(?:\+?1[-.\s]?)?\(?[2-9]\d{2}\)?[-.\s]?\d{3}[-.\s]?\d{4}\b`
unfoldable pub phone_us_pattern : Unicode → Regex
phone_us_pattern u = all_of (
    boundary (is_word u)
    ∷ opt (all_of (opt (lit "+") ∷ lit "1" ∷ opt (phone_gap u) ∷ []))
    ∷ opt (lit "(")
    ∷ class (λ c. leb b'2' c && leb c b'9')
    ∷ digits u 2
    ∷ opt (lit ")")
    ∷ opt (phone_gap u)
    ∷ digits u 3
    ∷ opt (phone_gap u)
    ∷ digits u 4
    ∷ boundary (is_word u)
    ∷ [])

-- `\+\d{1,3}[\s-]?\d{1,4}[\s-]?\d{3,4}[\s-]?\d{3,4}`
unfoldable pub phone_intl_pattern : Unicode → Regex
phone_intl_pattern u = all_of (
    lit "+"
    ∷ between 1 3 (class (is_digit u))
    ∷ opt (space_or_dash u)
    ∷ between 1 4 (class (is_digit u))
    ∷ opt (space_or_dash u)
    ∷ between 3 4 (class (is_digit u))
    ∷ opt (space_or_dash u)
    ∷ between 3 4 (class (is_digit u))
    ∷ [])

abbrev is_alnum : ℕ → Bool
is_alnum c = is_upper c || is_lower c || (leb b'0' c && leb c b'9')

-- `\b[A-Za-z0-9._%+-]+@[A-Za-z0-9.-]+\.[A-Za-z]{2}\b`
unfoldable pub email_pattern : Unicode → Regex
email_pattern u = all_of (
    boundary (is_word u)
    ∷ plus (class (λ c. is_alnum c || one_of "._%+-" c))
    ∷ lit "@"
    ∷ plus (class (λ c. is_alnum c || one_of ".-" c))
    ∷ lit "."
    ∷ times 2 (class (λ c. is_upper c || is_lower c))
    ∷ star (class (λ c. is_upper c || is_lower c))
    ∷ boundary (is_word u)
    ∷ [])

-- `(?:25[0-5]|2[0-4]\d|[01]?\d?\d)`
abbrev octet : Unicode → Regex
octet u = any_of (
    seq (lit "25") (class (λ c. leb b'0' c && leb c b'5'))
    ∷ all_of (lit "2" ∷ class (λ c. leb b'0' c && leb c b'4') ∷ class (is_digit u) ∷ [])
    ∷ all_of (
        opt (class (λ c. eqb c b'0' || eqb c b'1'))
        ∷ opt (class (is_digit u))
        ∷ class (is_digit u)
        ∷ [])
    ∷ [])

unfoldable pub ip_pattern : Unicode → Regex
ip_pattern u =
    all_of (
      boundary (is_word u)
      ∷ times 3 (seq (octet u) (lit "."))
      ∷ octet u
      ∷ boundary (is_word u)
      ∷ [])
