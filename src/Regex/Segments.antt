-- ===== src/Regex/Segments.antt =====
-- `findall` and `sub` of Python's `re`: a text as the sequence of its matches, which do not overlap,
-- and of the characters between them. Behind an empty match, a match that is not empty is looked for
-- at the same place. The patterns have no capturing group.
use Prim.Native.Char.{Char, code}
use langgraph_lens.Prelude.{
  ℕ, zero, suc, ◌-◌, String, ◌<>◌, Option, none, some, List, [], ◌∷◌, eqb, if◌then◌else◌,
}
use langgraph_lens.Text.{text_length}
use langgraph_lens.Regex.{Regex, Cursor, match_at, match_here, take_text}

pub data Segment : Type 0 where
  other : Char → Segment
  found : String → Segment

-- The length of the match at a cursor.
unfoldable pub match_length : Regex → Cursor → Option ℕ
match_length r c = elim (match_here r c) [
  | none ↦ none
  | some rest ↦ some (text_length c.rest - text_length rest)
]

-- The same, for a match that is not empty.
unfoldable pub advancing_length : Regex → Cursor → Option ℕ
advancing_length r c =
    elim (match_at r
      (λ d. if eqb (text_length d.rest) (text_length c.rest) then none else some d.rest) c) [
        | none ↦ none
        | some rest ↦ some (text_length c.rest - text_length rest)
      ]

-- `skip` characters belong to the match before.
unfoldable pub segments_from : Regex → ℕ → Option ℕ → String → List Segment
segments_from r skip before String.[] = elim skip [
  | zero ↦ elim (match_length r (record { before = before; rest = String.[] })) [
    | none ↦ []
    | some n ↦ found "" ∷ []
  ]
  | suc k ↦ []
]
segments_from r (suc k) before (String.◌∷◌ c s) = segments_from r k (some (code c)) s
segments_from r zero before (String.◌∷◌ c s) =
    let at : Cursor = record { before = before; rest = String.◌∷◌ c s } in
    elim (match_length r at) [
      | none ↦ other c ∷ segments_from r zero (some (code c)) s
      | some zero ↦ found "" ∷ elim (advancing_length r at) [
        | none ↦ other c ∷ segments_from r zero (some (code c)) s
        | some n ↦ found (take_text n (String.◌∷◌ c s)) ∷ segments_from r (n - 1) (some (code c)) s
      ]
      | some (suc k) ↦
          found (take_text (suc k) (String.◌∷◌ c s)) ∷ segments_from r k (some (code c)) s
    ]

unfoldable pub segments : Regex → String → List Segment
segments r s = segments_from r 0 none s

abbrev pub matches : List Segment → List String
matches [] = []
matches (other c ∷ ss) = matches ss
matches (found m ∷ ss) = m ∷ matches ss

abbrev pub replaced : (String → String) → List Segment → String
replaced f [] = ""
replaced f (other c ∷ ss) = String.◌∷◌ c (replaced f ss)
replaced f (found m ∷ ss) = f m <> replaced f ss

-- `pat.findall(text)`
unfoldable pub find_all : Regex → String → List String
find_all r s = matches (segments r s)

-- `pat.sub(f, text)`, with `f` on the text of the match
unfoldable pub substitute : Regex → (String → String) → String → String
substitute r f s = replaced f (segments r s)
