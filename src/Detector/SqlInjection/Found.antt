-- ===== src/Detector/SqlInjection/Found.antt =====
-- What the scan of a field reports, against what the patterns accept.
use langgraph_lens.Prelude.{
  ◌≡◌, ◌⊎◌, ◌↔◌, inl, inr, sym, ◌∙◌, subst, true, String, none, List, [], ◌∷◌, Option-cases,
  Bool-cases, contains, arith, string_eq, if◌then◌else◌,
}
use langgraph_lens.Runtime.{Unicode}
use langgraph_lens.Event.{Detection}
use langgraph_lens.Regex.{search_text}
use langgraph_lens.Regex.Search.{Occurs, search_text-Occurs}
use langgraph_lens.Detector.Checkpoint.Opcodes.{reports, reports-append}
use langgraph_lens.Detector.SqlInjection.{
  SqlInjectionConfig, Pattern, patterns, hit_of, scan_patterns, scan,
}

-- A pattern of the name occurs in the value.
abbrev pub OccursNamed : String → List Pattern → String → Type 0
OccursNamed rule [] value = ⊥
OccursNamed rule (p ∷ ps) value =
    ((p.name ≡ rule) × Occurs p.regex none value) ⊎ OccursNamed rule ps value

module _ (rules : List String) (field_name value rule : String) where
  head_hit : Pattern → List Detection
  head_hit p = if contains rules p.name then hit_of field_name p (search_text p.regex value) else []

  head_found :
      (p : Pattern)
      → reports rule (head_hit p) ≡ true
      → (contains rules rule ≡ true) × (p.name ≡ rule) × Occurs p.regex none value
  unfolding head_hit
  head_found p h = elim (Option-cases (search_text p.regex value)) [
    | inl fails ↦ ground (arith, fails, h)
    | inr (m, goes) ↦ elim (string_eq.dec p.name rule) [
      | yes same ↦
          let on : contains rules p.name ≡ true = ground (arith, h) in
          (
            subst (λ x. contains rules x ≡ true) same on,
            same,
            (search_text-Occurs p.regex value).0 (m, goes),
          )
      | no differ ↦ ground (arith, goes, h, differ)
    ]
  ]

  head-Occurs :
      (p : Pattern)
      → contains rules rule ≡ true
      → p.name ≡ rule
      → Occurs p.regex none value
      → reports rule (head_hit p) ≡ true
  unfolding head_hit
  head-Occurs p on same o =
      let (m, goes) = (search_text-Occurs p.regex value).1 o in
      let listed = subst (λ x. contains rules x ≡ true) (sym same) on in
      ground (arith, goes, listed, same)

  found :
      (ps : List Pattern)
      → reports rule (scan_patterns rules field_name value ps) ≡ true
      → (contains rules rule ≡ true) × OccursNamed rule ps value
  unfolding scan_patterns head_hit
  found [] h = ground (arith, h)
  found (p ∷ ps) h =
      let either =
        sym (reports-append rule (head_hit p) (scan_patterns rules field_name value ps)) ∙ h in
      elim (Bool-cases (reports rule (head_hit p))) [
        | inl here ↦ let (on, same, o) = head_found p here in (on, inl (same, o))
        | inr miss ↦ let (on, o) = found ps (ground (arith, miss, either)) in (on, inr o)
      ]

  occurs :
      (ps : List Pattern)
      → contains rules rule ≡ true
      → OccursNamed rule ps value
      → reports rule (scan_patterns rules field_name value ps) ≡ true
  unfolding scan_patterns head_hit
  occurs [] on never = elim never [ ]
  occurs (p ∷ ps) on (inl (same, o)) =
      reports-append rule (head_hit p) (scan_patterns rules field_name value ps)
      ∙ ground (arith, head-Occurs p on same o)
  occurs (p ∷ ps) on (inr later) =
      reports-append rule (head_hit p) (scan_patterns rules field_name value ps)
      ∙ ground (arith, occurs ps on later)

-- A field is reported under a rule exactly if the detector is enabled, the field and the rule are
-- configured, and a pattern of that name accepts some part of the value, in a reading of the patterns
-- that knows no order of search and no backtracking.
pub reports-OccursNamed :
    (u : Unicode) (c : SqlInjectionConfig) (field_name value rule : String)
    → (reports rule (scan u c field_name value) ≡ true) ↔ (
        (c.enabled ≡ true)
        × (contains c.fields field_name ≡ true)
        × (contains c.rules rule ≡ true)
        × OccursNamed rule (patterns u) value)
unfolding scan
reports-OccursNamed u c field_name value rule = (
  λ h.
      let on : c.enabled ≡ true = ground (arith, h) in
      let listed : contains c.fields field_name ≡ true = ground (arith, h) in
      let (rule_on, o) =
        found c.rules field_name value rule (patterns u) (ground (arith, h, on, listed)) in
      (on, listed, rule_on, o),
  λ (on, listed, rule_on, o).
      let hit = occurs c.rules field_name value rule (patterns u) rule_on o in
      ground (arith, on, listed, hit),
)
