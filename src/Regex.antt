-- ===== src/Regex.antt =====
-- The regular expressions that the detectors compile, and what `re` does with them: a backtracking
-- match that prefers the first alternative and the longest repetition.
pub mod Classes
pub mod Segments
pub mod Accepts
pub mod Rounds
pub mod Semantics
pub mod Search
pub mod Cover
use Prim.Native.Char.{Char, code}
use langgraph_lens.Prelude.{
  ℕ, zero, suc, ◌-◌, String, ◌<>◌, Bool, true, false, not, Option, none, some, List, [], ◌∷◌, ltb,
  eqb, if◌then◌else◌, string_eq, ◌==◌,
}
use langgraph_lens.Text.{text_length}

pub data Regex : Type 0 where
  -- one character of a class
  class : (ℕ → Bool) → Regex
  empty : Regex
  seq : Regex → Regex → Regex
  alt : Regex → Regex → Regex
  -- `r*`, greedy
  star : Regex → Regex
  -- `^` without the multi-line flag
  start : Regex
  -- `\b`, over the word class that is given
  boundary : (ℕ → Bool) → Regex
  -- `(?!r)`
  not_ahead : Regex → Regex

-- What stands left of a position, if anything, and the text right of it.
pub record Cursor : Type 0 where
  pub before : Option ℕ
  pub rest : String

-- What comes after a part of the expression: the text that is left when all has matched.
abbrev pub Next : Type 0
Next = Cursor → Option String

abbrev at_word : (ℕ → Bool) → Option ℕ → Bool
at_word word none = false
at_word word (some c) = word c

abbrev first_char : String → Option ℕ
first_char String.[] = none
first_char (String.◌∷◌ c s) = some (code c)

abbrev xor : Bool → Bool → Bool
xor true b = not b
xor false b = b

unfoldable pub step : (ℕ → Bool) → Next → Option ℕ → String → Option String
step p next before String.[] = none
step p next before (String.◌∷◌ c s) =
    if p (code c) then next (record { before = some (code c); rest = s }) else none

-- `r*` before `next`: one more round that consumes something, else what follows. A round consumes a
-- character, so the length of the text is enough fuel.
unfoldable pub rounds : (Next → Next) → ℕ → Next → Next
rounds one zero next c = next c
rounds one (suc fuel) next c =
    elim (one
      (λ d. elim (ltb (text_length d.rest) (text_length c.rest)) [
        | true ↦ rounds one fuel next d
        | false ↦ none
      ])
      c) [ some s ↦ some s | none ↦ next c ]

unfoldable pub match_at : Regex → Next → Next
unfolding step rounds text_length
match_at (class p) next c = step p next c.before c.rest
match_at empty next c = next c
match_at (seq r s) next c = match_at r (match_at s next) c
match_at (alt r s) next c = elim (match_at r next c) [ some t ↦ some t | none ↦ match_at s next c ]
match_at (star r) next c = rounds (match_at r) (text_length c.rest) next c
match_at start next c = elim c.before [ none ↦ next c | some _ ↦ none ]
match_at (boundary word) next c =
    if xor (at_word word c.before) (at_word word (first_char c.rest)) then next c else none
match_at (not_ahead r) next c = elim (match_at r (λ d. some d.rest) c) [
  | some _ ↦ none
  | none ↦ next c
]

-- `pat.match` at a cursor: the text behind the match
unfoldable pub match_here : Regex → Cursor → Option String
unfolding match_at
match_here r c = match_at r (λ d. some d.rest) c

-- The first `n` characters.
unfoldable pub take_text : ℕ → String → String
take_text zero s = ""
take_text (suc n) String.[] = ""
take_text (suc n) (String.◌∷◌ c s) = String.◌∷◌ c (take_text n s)

-- The text of a match that starts with `s` and leaves `rest`
abbrev pub matched : String → String → String
matched s rest = take_text (text_length s - text_length rest) s

unfoldable pub search_from : Regex → Option ℕ → String → Option String
search_from r before String.[] =
    elim (match_here r (record { before = before; rest = String.[] })) [
      | some rest ↦ some ""
      | none ↦ none
    ]
search_from r before (String.◌∷◌ c s) =
    elim (match_here r (record { before = before; rest = String.◌∷◌ c s })) [
      | some rest ↦ some (matched (String.◌∷◌ c s) rest)
      | none ↦ search_from r (some (code c)) s
    ]

-- `m = pat.search(text)`, then `m.group(0)`
unfoldable pub search_text : Regex → String → Option String
unfolding search_from match_here take_text
search_text r s = search_from r none s

-- The first match of a list of patterns, as in `for pat in ...: if m: ...; break`.
unfoldable pub search_any : List Regex → String → Option String
unfolding search_text
search_any [] s = none
search_any (r ∷ rs) s = elim (search_text r s) [ some m ↦ some m | none ↦ search_any rs s ]
