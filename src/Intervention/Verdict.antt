-- ===== src/Intervention/Verdict.antt =====
-- The shared end of the interventions: terminal or not.
use langgraph_lens.Prelude.{
  ℕ, String, ◌≡◌, refl, Bool, true, false, not, ◌&&◌, ◌||◌, List, [], ◌∷◌, ◌++◌, arith, contains,
  string_eq,
}
use langgraph_lens.Event.{Detection}
use langgraph_lens.Decision.{is_terminal, is_empty}
use langgraph_lens.Intervention.{PolicyMode, enforce_mode, log_mode, matching, triggers, conclude}

abbrev pub is_enforced : PolicyMode → Bool
is_enforced enforce_mode = true
is_enforced log_mode = false

-- Some detection is of a rule that is acted on.
abbrev pub caught : List String → List Detection → Bool
caught rules [] = false
caught rules (d ∷ ds) = contains rules d.rule || caught rules ds

pub is_terminal-conclude :
    (m : PolicyMode) (reason : String) (status : ℕ) (ts : List String) (ds : List Detection)
    → is_terminal (conclude m reason status ts ds).0 ≡ (is_enforced m && not (is_empty ts))
unfolding conclude
is_terminal-conclude enforce_mode reason status [] ds = refl
is_terminal-conclude enforce_mode reason status (t ∷ ts) ds = refl
is_terminal-conclude log_mode reason status [] ds = refl
is_terminal-conclude log_mode reason status (t ∷ ts) ds = refl

pub is_empty-append : (xs ys : List String) → is_empty (xs ++ ys) ≡ (is_empty xs && is_empty ys)
is_empty-append [] ys = refl
is_empty-append (x ∷ xs) ys = refl

pub is_empty-triggers :
    (prefix : String) (rules : List String) (ds : List Detection)
    → is_empty (triggers prefix (matching rules ds)) ≡ not (caught rules ds)
unfolding triggers matching
is_empty-triggers prefix rules [] = refl
is_empty-triggers prefix rules (d ∷ ds) = ground (arith, is_empty-triggers prefix rules ds)

pub matching_none :
    (rules : List String) (ds : List Detection) → caught rules ds ≡ false → matching rules ds ≡ []
unfolding matching
matching_none rules [] e = refl
matching_none rules (d ∷ ds) e = ground (arith, e, matching_none rules ds)
