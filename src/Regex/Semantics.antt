-- ===== src/Regex/Semantics.antt =====
-- The matcher against what an expression accepts.
use Prim.Native.Char.{Char, code}
use langgraph_lens.Prelude.{
  ℕ, ◌≡◌, inl, inr, refl, sym, ap, ◌∙◌, String, Bool, true, Option, some, Option-cases, Bool-cases,
  arith,
}
use langgraph_lens.Text.{text_length}
use langgraph_lens.Regex.{
  Regex, class, empty, seq, alt, star, start, boundary, not_ahead, Next, at_word, first_char, xor,
  step, match_at,
}
use langgraph_lens.Regex.Accepts.{Accepts, Accepts-Advances}
use langgraph_lens.Regex.Rounds.{Sound, Complete, Sound-rounds, Complete-rounds}

step_sound :
    (p : ℕ → Bool) (next : Next) (before : Option ℕ) (text : String) (t : String)
    → step p next before text ≡ some t
    → (x : Char) × (s : String) × (text ≡ String.◌∷◌ x s)
      × (p (code x) ≡ true)
      × (next (record { before = some (code x); rest = s }) ≡ some t)
unfolding step
step_sound p next before String.[] t h = ground (arith, h)
step_sound p next before (String.◌∷◌ x s) t h = elim (Bool-cases (p (code x))) [
  | inl ok ↦ (x, s, refl, ok, ground (arith, ok, h))
  | inr bad ↦ ground (arith, bad, h)
]

step-true :
    (p : ℕ → Bool) (next : Next) (before : Option ℕ) (x : Char) (s : String)
    → p (code x) ≡ true
    → step p next before (String.◌∷◌ x s) ≡ next (record { before = some (code x); rest = s })
unfolding step
step-true p next before x s ok = simp ok

mutual
  unfolding match_at

  pub Sound-match_at : (r : Regex) → Sound (match_at r) (Accepts r)
  Sound-match_at (class p) next c t h =
      let (x, s, here, ok, last) = step_sound p next c.before c.rest t h in
      (record { before = some (code x); rest = s }, (x, s, here, ok, refl), last)
  Sound-match_at empty next c t h = (c, refl, h)
  Sound-match_at (seq r s) next c t h =
      let (m, a, on) = Sound-match_at r (match_at s next) c t h in
      let (d, b, last) = Sound-match_at s next m t on in (d, (m, a, b), last)
  Sound-match_at (alt r s) next c t h = elim (Option-cases (match_at r next c)) [
    | inl fails ↦
        let (d, b, last) = Sound-match_at s next c t (ground (arith, fails, h)) in (d, inr b, last)
    | inr (u, goes) ↦
        let same : u ≡ t = ground (arith, goes, h) in
        let (d, a, last) = Sound-match_at r next c t (goes ∙ ap some same) in (d, inl a, last)
  ]
  Sound-match_at (star r) next c t h =
      Sound-rounds (match_at r) (Accepts r) (Sound-match_at r) (text_length c.rest) next c t h
  Sound-match_at start next c t h = elim (Option-cases c.before) [
    | inl left ↦ (c, (left, refl), ground (arith, left, h))
    | inr (x, there) ↦ ground (arith, there, h)
  ]
  Sound-match_at (boundary word) next c t h =
      elim (Bool-cases (xor (at_word word c.before) (at_word word (first_char c.rest)))) [
        | inl ok ↦ (c, (ok, refl), ground (arith, ok, h))
        | inr bad ↦ ground (arith, bad, h)
      ]
  Sound-match_at (not_ahead r) next c t h = elim (Option-cases (match_at r (λ d. some d.rest) c)) [
    | inl fails ↦ (
      c,
      (
        λ m a.
            let (u, goes) = Complete-match_at r (λ d. some d.rest) c m m.rest a refl in
            ground (arith, fails, goes),
        refl,
      ),
      ground (arith, fails, h),
    )
    | inr (u, goes) ↦ ground (arith, goes, h)
  ]

  pub Complete-match_at : (r : Regex) → Complete (match_at r) (Accepts r)
  Complete-match_at (class p) next c d t (x, s, here, ok, e) h =
      (t, ap (step p next c.before) here ∙ step-true p next c.before x s ok ∙ ap next (sym e) ∙ h)
  Complete-match_at empty next c d t e h = (t, ap next (sym e) ∙ h)
  Complete-match_at (seq r s) next c d t (m, a, b) h =
      let (u, on) = Complete-match_at s next m d t b h in
      Complete-match_at r (match_at s next) c m u a on
  Complete-match_at (alt r s) next c d t (inl a) h =
      let (u, goes) = Complete-match_at r next c d t a h in (u, ground (arith, goes))
  Complete-match_at (alt r s) next c d t (inr b) h = elim (Option-cases (match_at r next c)) [
    | inl fails ↦
        let (u, goes) = Complete-match_at s next c d t b h in (u, ground (arith, fails, goes))
    | inr (u, goes) ↦ (u, ground (arith, goes))
  ]
  Complete-match_at (star r) next c d t a h =
      Complete-rounds (match_at r) (Accepts r) (Complete-match_at r) (Accepts-Advances r)
        (text_length c.rest) next c d t (omega arith) a h
  Complete-match_at start next c d t (b, e) h = (t, ground (arith, b, ap next (sym e) ∙ h))
  Complete-match_at (boundary word) next c d t (b, e) h =
      (t, ground (arith, b, ap next (sym e) ∙ h))
  Complete-match_at (not_ahead r) next c d t (n, e) h =
      elim (Option-cases (match_at r (λ d. some d.rest) c)) [
        | inl fails ↦ (t, ground (arith, fails, ap next (sym e) ∙ h))
        | inr (u, goes) ↦
            let (m, a, last) = Sound-match_at r (λ d. some d.rest) c u goes in absurd (n m a)
      ]
