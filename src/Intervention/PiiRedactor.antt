-- ===== src/Intervention/PiiRedactor.antt =====
-- interventions/pii_redactor.py: the matches of the patterns in a state are replaced. The state is a
-- new one; what was hit is returned with it, in the order of the hits. A pattern's name has no
-- backslash, which `sub` would read as an escape.
pub mod Kept
pub mod Silent
use langgraph_lens.Prelude.{
  String, ◌<>◌, Bool, true, false, not, Option, none, some, List, [], ◌∷◌, ◌++◌, map, if◌then◌else◌,
  string_eq, ◌==◌,
}
use langgraph_lens.Runtime.{Runtime}
use langgraph_lens.Text.{sorted_set}
use langgraph_lens.Regex.Segments.{substitute}
use langgraph_lens.Value.{
  Value, text, list, dict, Items, nil, cons, Fields, end, field, lookup, assign,
}
use langgraph_lens.Event.{high, Detection}
use langgraph_lens.Decision.{LensDecision, pass, block, redact}
use langgraph_lens.Detector.Pii.{PiiPattern, CompiledPattern, compile_all, compile_custom, luhn}

pub data RedactionMode : Type 0 where
  redact_mode block_mode : RedactionMode

-- `PIIRedactionConfig` of config.py
pub record PiiRedactionConfig : Type 0 where
  pub enabled : Bool
  pub mode : RedactionMode
  pub patterns : List PiiPattern
  pub custom_patterns : List PiiPattern

unfoldable pub compile_customs : Runtime → List PiiPattern → List CompiledPattern
compile_customs rt [] = []
compile_customs rt (p ∷ ps) = compile_custom rt p ++ compile_customs rt ps

-- `self._compiled`
unfoldable pub compiled : Runtime → PiiRedactionConfig → List CompiledPattern
compiled rt c = compile_all rt c.patterns ++ compile_customs rt c.custom_patterns

-- What a match of a pattern becomes: the number of no card stays.
unfoldable pub replacement : Runtime → CompiledPattern → String → String
replacement rt cp m =
    let mark = "[REDACTED:" <> cp.name <> "]" in
    if cp.name == "credit_card" then (if luhn rt.unicode m then mark else m) else mark

-- `_scrub`: the text, and the types that were hit
unfoldable pub scrub : Runtime → List CompiledPattern → String → String × List String
scrub rt [] s = (s, [])
scrub rt (cp ∷ cps) s =
    let new = substitute cp.pattern (replacement rt cp) s in
    let (t, hits) = scrub rt cps new in (t, if new == s then hits else cp.name ∷ hits)

-- A value with the types that were hit in it.
abbrev pub Hit : Type 0 → Type 0
Hit A = A × List String

-- `sub["text"] = _scrub(sub["text"])`, for an element of a content list
unfoldable pub scrub_part : (String → Hit String) → Value → Hit Value
scrub_part f (dict fs) = elim (lookup "text" fs) [
  | some (text s) ↦ let (t, hits) = f s in (dict (assign "text" (text t) fs), hits)
  | _ ↦ (dict fs, [])
]
scrub_part f v = (v, [])

unfoldable pub scrub_items : (Value → Hit Value) → Items → Hit Items
scrub_items f nil = (nil, [])
scrub_items f (cons v vs) =
    let (w, hits) = f v in let (ws, more) = scrub_items f vs in (cons w ws, hits ++ more)

-- A message: only a dictionary is looked into.
unfoldable pub scrub_message : (String → Hit String) → Value → Hit Value
scrub_message f (dict fs) = elim (lookup "content" fs) [
  | some (text s) ↦ let (t, hits) = f s in (dict (assign "content" (text t) fs), hits)
  | some (list vs) ↦
      let (ws, hits) = scrub_items (scrub_part f) vs in (dict (assign "content" (list ws) fs), hits)
  | _ ↦ (dict fs, [])
]
scrub_message f v = (v, [])

-- The value of a key: the messages, or a free-form text.
unfoldable pub scrub_value : (String → Hit String) → Bool → Value → Hit Value
scrub_value f true (list vs) = let (ws, hits) = scrub_items (scrub_message f) vs in (list ws, hits)
scrub_value f true v = (v, [])
scrub_value f false (text s) = let (t, hits) = f s in (text t, hits)
scrub_value f false v = (v, [])

unfoldable pub scrub_fields : (String → Hit String) → Fields → Hit Fields
scrub_fields f end = (end, [])
scrub_fields f (field k v fs) =
    let (w, hits) = scrub_value f (k == "messages") v in
    let (gs, more) = scrub_fields f fs in (field k w gs, hits ++ more)

abbrev pub hit_detection : String → Detection
hit_detection t = record {
  detector = "pii_redactor";
  rule = t;
  severity = high;
  extra = ("type", text t) ∷ [];
}

unfoldable pub decide : RedactionMode → Fields → List String → LensDecision × List Detection
decide mode modified [] = (pass, [])
decide redact_mode modified (t ∷ ts) = (
  record pass {
    action = redact;
    triggered_by = map (λ t. "pii_redactor." <> t) (t ∷ ts);
    modified_state = some modified;
  },
  map hit_detection (t ∷ ts),
)
decide block_mode modified (t ∷ ts) = (
  record pass {
    action = block;
    reason = some "pii_in_state";
    triggered_by = map (λ t. "pii_redactor." <> t) (t ∷ ts);
    status_code = some 400;
  },
  map hit_detection (t ∷ ts),
)

-- `evaluate`, on a state that can be copied: `copy_fails` in Lens/Decide is the case that it cannot.
unfoldable pub evaluate : Runtime → PiiRedactionConfig → Fields → LensDecision × List Detection
evaluate rt c state =
    let (modified, hits) = scrub_fields (scrub rt (compiled rt c)) state in
    if not c.enabled then (pass, []) else decide c.mode modified (sorted_set hits)
