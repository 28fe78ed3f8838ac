-- ===== src/Intervention/PiiRedactor/Silent.antt =====
-- The redactor on a text in which the detector of personal data finds nothing.
use langgraph_lens.Prelude.{
  subst, String, ◌≡◌, refl, sym, true, List, [], ◌∷◌, ◌++◌, All, keep, arith, string_eq, same_text,
  Bool-cases, inl, inr,
}
use langgraph_lens.Runtime.{Runtime}
use langgraph_lens.Event.{Detection}
use langgraph_lens.Regex.Segments.{find_all}
use langgraph_lens.Regex.Cover.{substitute_same}
use langgraph_lens.Detector.Pii.{
  CompiledPattern, Direction, luhn, real_matches, pattern_hit, scan_patterns,
}
use langgraph_lens.Intervention.PiiRedactor.{replacement, scrub}

module _ (rt : Runtime) (cp : CompiledPattern) where
  card_kept :
      same_text cp.name "credit_card" ≡ true
      → (ms : List String) → keep (luhn rt.unicode) ms ≡ []
      → All (λ m. replacement rt cp m ≡ m) ms
  unfolding replacement
  card_kept card [] h = tt
  card_kept card (m ∷ ms) h = elim (Bool-cases (luhn rt.unicode m)) [
    | inl right ↦ ground (arith, right, h)
    | inr wrong ↦ (ground (arith, card, wrong), card_kept card ms (ground (arith, wrong, h)))
  ]

  -- Where no match counts, the replacement keeps every match.
  unreal_kept :
      (s : String)
      → real_matches rt cp s ≡ []
      → All (λ m. replacement rt cp m ≡ m) (find_all cp.pattern s)
  unfolding real_matches
  unreal_kept s h = elim (Bool-cases (same_text cp.name "credit_card")) [
    | inl card ↦ card_kept card (find_all cp.pattern s) (ground (arith, card, h))
    | inr plain ↦
        let nothing : find_all cp.pattern s ≡ [] = ground (arith, plain, h) in
        subst (λ ms. All (λ m. replacement rt cp m ≡ m) ms) (sym nothing) tt
  ]

hit_nothing :
    (direction : Direction) (cp : CompiledPattern) (ms : List String) (ds : List Detection)
    → pattern_hit direction cp ms ++ ds ≡ []
    → (ms ≡ []) × (ds ≡ [])
unfolding pattern_hit
hit_nothing direction cp [] ds h = (refl, h)
hit_nothing direction cp (m ∷ ms) ds h = ground (arith, h)

-- What the detector does not report, the redactor leaves alone: if the scan of a text with some
-- patterns finds nothing, the redactor with the same patterns returns the text as it is, without a
-- hit. A match that fails the checksum of card numbers is among what is left.
pub scrub-silent :
    (rt : Runtime) (direction : Direction) (s : String) (cps : List CompiledPattern)
    → scan_patterns rt direction s cps ≡ []
    → scrub rt cps s ≡ (s, [])
unfolding scan_patterns scrub
scrub-silent rt direction s [] h = refl
scrub-silent rt direction s (cp ∷ cps) h =
    let (nothing, rest) =
      hit_nothing direction cp (real_matches rt cp s) (scan_patterns rt direction s cps) h in
    let same = substitute_same cp.pattern (replacement rt cp) s (unreal_kept rt cp s nothing) in
    ground (arith, same, scrub-silent rt direction s cps rest)
