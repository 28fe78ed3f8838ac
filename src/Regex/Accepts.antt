-- ===== src/Regex/Accepts.antt =====
-- What an expression accepts, with no order of search in it.
use Prim.Native.Char.{Char, code}
use langgraph_lens.Prelude.{
  suc, ◌<◌, ◌≡◌, ◌⊎◌, inl, inr, refl, ap, ◌∙◌, String, true, none, some, arith,
}
use langgraph_lens.Text.{text_length}
use langgraph_lens.Regex.{
  Regex, class, empty, seq, alt, star, start, boundary, not_ahead, Cursor, at_word, first_char, xor,
}

-- Any number of rounds of a relation.
pub data Repeated (A : Cursor → Cursor → Type 0) : Cursor → Cursor → Type 0 where
  done : {c : Cursor} → Repeated A c c
  more : {c d e : Cursor} → A c d → Repeated A d e → Repeated A c e

-- `Accepts r c d`: from the cursor `c`, the expression can match the text up to the cursor `d`.
abbrev pub Accepts : Regex → Cursor → Cursor → Type 0
Accepts (class p) c d =
    (x : Char) × (s : String) × (c.rest ≡ String.◌∷◌ x s)
    × (p (code x) ≡ true)
    × (d ≡ record { before = some (code x); rest = s })
Accepts empty c d = d ≡ c
Accepts (seq r s) c d = (m : Cursor) × Accepts r c m × Accepts s m d
Accepts (alt r s) c d = Accepts r c d ⊎ Accepts s c d
Accepts (star r) c d = Repeated (Accepts r) c d
Accepts start c d = (c.before ≡ none) × (d ≡ c)
Accepts (boundary word) c d =
    (xor (at_word word c.before) (at_word word (first_char c.rest)) ≡ true) × (d ≡ c)
Accepts (not_ahead r) c d = ((m : Cursor) → ¬ Accepts r c m) × (d ≡ c)

length-character : (x : Char) (s : String) → text_length (String.◌∷◌ x s) ≡ suc (text_length s)
unfolding text_length
length-character x s = refl

abbrev pub Advances : Cursor → Cursor → Type 0
Advances c d = (d ≡ c) ⊎ (text_length d.rest < text_length c.rest)

Advances-trans : (c d e : Cursor) → Advances c d → Advances d e → Advances c e
Advances-trans c d e (inl p) (inl q) = inl (q ∙ p)
Advances-trans c d e (inl p) (inr q) =
    inr (omega (arith, q, ap (λ (x : Cursor). text_length x.rest) p))
Advances-trans c d e (inr p) (inl q) =
    inr (omega (arith, p, ap (λ (x : Cursor). text_length x.rest) q))
Advances-trans c d e (inr p) (inr q) = inr (omega (arith, p, q))

Repeated-Advances :
    (A : Cursor → Cursor → Type 0)
    → ((c d : Cursor) → A c d → Advances c d)
    → (c d : Cursor) → Repeated A c d
    → Advances c d
Repeated-Advances A one c _ done = inl refl
Repeated-Advances A one c e (more {d} a rest) =
    Advances-trans c d e (one c d a) (Repeated-Advances A one d e rest)

-- A match leaves the cursor where it is, or consumes characters.
pub Accepts-Advances : (r : Regex) (c d : Cursor) → Accepts r c d → Advances c d
Accepts-Advances (class p) c d (x, s, here, ok, e) = inr (
    omega
      (arith, ap text_length here, length-character x s, ap (λ (k : Cursor). text_length k.rest) e))
Accepts-Advances empty c d e = inl e
Accepts-Advances (seq r s) c d (m, a, b) =
    Advances-trans c m d (Accepts-Advances r c m a) (Accepts-Advances s m d b)
Accepts-Advances (alt r s) c d (inl a) = Accepts-Advances r c d a
Accepts-Advances (alt r s) c d (inr b) = Accepts-Advances s c d b
Accepts-Advances (star r) c d a = Repeated-Advances (Accepts r) (Accepts-Advances r) c d a
Accepts-Advances start c d (b, e) = inl e
Accepts-Advances (boundary word) c d (b, e) = inl e
Accepts-Advances (not_ahead r) c d (n, e) = inl e
