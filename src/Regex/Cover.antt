-- ===== src/Regex/Cover.antt =====
-- `findall` and `sub`: the matches and the characters between them are the whole text.
use Prim.Native.Char.{Char, code}
use text.Mathlib.TextLemmas.{nil-append, cons-append}
use langgraph_lens.Prelude.{
  ℕ, zero, suc, ◌-◌, ◌<◌, if◌then◌else◌, ◌≡◌, refl, sym, ap, ◌∙◌, inl, inr, String, ◌<>◌, Option,
  none, some, List, [], ◌∷◌, Option-cases, eqb, arith, All,
}
use langgraph_lens.Text.{text_length}
use langgraph_lens.Regex.{Next, Regex, Cursor, match_at, take_text}
use langgraph_lens.Regex.Accepts.{Advances, Accepts-Advances}
use langgraph_lens.Regex.Semantics.{Sound-match_at}
use langgraph_lens.Regex.Segments.{
  Segment, other, found, segments_from, segments, match_length, advancing_length, matches, replaced,
  substitute, find_all,
}

drop_text : ℕ → String → String
drop_text zero s = s
drop_text (suc n) String.[] = String.[]
drop_text (suc n) (String.◌∷◌ c s) = drop_text n s

take-drop : (n : ℕ) (s : String) → take_text n s <> drop_text n s ≡ s
unfolding take_text drop_text
take-drop zero s = nil-append s
take-drop (suc n) String.[] = nil-append ""
take-drop (suc n) (String.◌∷◌ c s) =
    cons-append c (take_text n s) (drop_text n s) ∙ ap (String.◌∷◌ c) (take-drop n s)

drop_pred :
    (n k : ℕ) (c : Char) (s : String)
    → n ≡ suc k
    → drop_text (n - 1) s ≡ drop_text n (String.◌∷◌ c s)
unfolding drop_text
drop_pred n k c s e =
    let less : n - 1 ≡ k = omega (arith, e) in
    ap (λ x. drop_text x s) less ∙ sym (ap (λ x. drop_text x (String.◌∷◌ c s)) e)

-- What follows a match that is not empty.
abbrev onward : Cursor → Next
onward c d = if eqb (text_length d.rest) (text_length c.rest) then none else some d.rest

onward_less :
    (c d : Cursor) (t : String)
    → Advances c d
    → onward c d ≡ some t
    → text_length t < text_length c.rest
onward_less c d t (inl same) h =
    let long = ap (λ (k : Cursor). text_length k.rest) same in ground (arith, long, h)
onward_less c d t (inr less) h = ground (arith, less, h)

-- A match that is looked for behind an empty one is not empty.
advancing_positive :
    (r : Regex) (c : Cursor) (n : ℕ) → advancing_length r c ≡ some n → (k : ℕ) × (n ≡ suc k)
unfolding advancing_length
advancing_positive r c n h = elim (Option-cases (match_at r (onward c) c)) [
  | inl fails ↦ ground (arith, fails, h)
  | inr (t, goes) ↦
      let (d, a, last) = Sound-match_at r (onward c) c t goes in
      let less = onward_less c d t (Accepts-Advances r c d a) last in
      let long : n ≡ text_length c.rest - text_length t = ground (arith, goes, h) in
      (n - 1, omega (arith, less, long))
]

-- The text of a sequence of segments
abbrev pub joined : List Segment → String
joined ss = replaced (λ m. m) ss

joined-segments_from :
    (r : Regex) (skip : ℕ) (before : Option ℕ) (s : String)
    → joined (segments_from r skip before s) ≡ drop_text skip s
unfolding segments_from drop_text
joined-segments_from r zero before String.[] =
    elim (Option-cases (match_length r (record { before = before; rest = String.[] }))) [
      | inl fails ↦ ground (arith, fails)
      | inr (n, goes) ↦ ground (arith, goes, nil-append "")
    ]
joined-segments_from r (suc k) before String.[] = refl
joined-segments_from r (suc k) before (String.◌∷◌ c s) = joined-segments_from r k (some (code c)) s
joined-segments_from r zero before (String.◌∷◌ c s) =
    let at : Cursor = record { before = before; rest = String.◌∷◌ c s } in
    let next = joined-segments_from r zero (some (code c)) s in
    elim (Option-cases (match_length r at)) [
      | inl fails ↦ ground (arith, fails, next)
      | inr (zero, goes) ↦ elim (Option-cases (advancing_length r at)) [
        | inl stops ↦ ground (arith, goes, stops, next, nil-append (String.◌∷◌ c s))
        | inr (n, moves) ↦
            let (k, positive) = advancing_positive r at n moves in
            let rest =
              joined-segments_from r (n - 1) (some (code c)) s ∙ drop_pred n k c s positive in
            let whole = nil-append (take_text n (String.◌∷◌ c s) <> drop_text n (String.◌∷◌ c s)) in
            ground (arith, goes, moves, rest, whole, take-drop n (String.◌∷◌ c s))
      ]
      | inr (suc k, goes) ↦
          let rest = joined-segments_from r k (some (code c)) s in
          ground (arith, goes, rest, take-drop (suc k) (String.◌∷◌ c s))
    ]

-- A replacement that changes no match changes nothing.
replaced_same :
    (f : String → String) (ss : List Segment)
    → All (λ m. f m ≡ m) (matches ss)
    → replaced f ss ≡ joined ss
replaced_same f [] h = refl
replaced_same f (other c ∷ ss) h = ap (String.◌∷◌ c) (replaced_same f ss h)
replaced_same f (found m ∷ ss) (here, later) =
    ap (λ x. x <> replaced f ss) here ∙ ap (λ x. m <> x) (replaced_same f ss later)

-- A text is its matches and the characters between them: `sub` gives the text back if it changes none
-- of the matches that `findall` lists.
pub substitute_same :
    (r : Regex) (f : String → String) (s : String)
    → All (λ m. f m ≡ m) (find_all r s)
    → substitute r f s ≡ s
unfolding substitute find_all segments drop_text
substitute_same r f s h = replaced_same f (segments r s) h ∙ joined-segments_from r 0 none s
