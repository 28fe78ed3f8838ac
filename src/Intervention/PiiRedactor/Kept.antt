-- ===== src/Intervention/PiiRedactor/Kept.antt =====
-- What the redactor keeps of a state.
use langgraph_lens.Prelude.{
  String, ◌≡◌, refl, Bool, true, false, ◌&&◌, none, some, List, [], ◌∷◌, arith, string_eq,
  Bool-cases, inl, inr,
}
use langgraph_lens.Runtime.{Runtime}
use langgraph_lens.Text.{sorted_set}
use langgraph_lens.Value.{
  Value, text, list, dict, object, null, bool, int, float, Items, nil, cons, Fields, end, field,
  keys,
}
use langgraph_lens.Decision.{pass}
use langgraph_lens.Intervention.PiiRedactor.{
  RedactionMode, redact_mode, block_mode, PiiRedactionConfig, Hit, scrub, scrub_items,
  scrub_message, scrub_value, scrub_fields, compiled, decide, evaluate,
}

abbrev pub is_object : Value → Bool
is_object (object s fs) = true
is_object _ = false

abbrev pub all_objects : Items → Bool
all_objects nil = true
all_objects (cons v vs) = is_object v && all_objects vs

module _ (f : String → Hit String) where
  keys-scrub_fields : (fs : Fields) → keys (scrub_fields f fs).0 ≡ keys fs
  unfolding keys scrub_fields
  keys-scrub_fields end = refl
  keys-scrub_fields (field k v fs) = rw (keys-scrub_fields fs) refl

  -- A message that is an object is not looked into.
  scrub_items-objects :
      (vs : Items) → all_objects vs ≡ true → scrub_items (scrub_message f) vs ≡ (vs, [])
  unfolding scrub_items scrub_message
  scrub_items-objects nil e = refl
  scrub_items-objects (cons (object s fs) vs) e = rw (scrub_items-objects vs e) refl
  scrub_items-objects (cons null vs) e = cc
  scrub_items-objects (cons (bool b) vs) e = cc
  scrub_items-objects (cons (int n) vs) e = cc
  scrub_items-objects (cons (float x) vs) e = cc
  scrub_items-objects (cons (text s) vs) e = cc
  scrub_items-objects (cons (list ws) vs) e = cc
  scrub_items-objects (cons (dict fs) vs) e = cc

modified_state-decide :
    (m : RedactionMode) (new modified : Fields) (ts : List String)
    → (decide m new ts).0.modified_state ≡ some modified
    → new ≡ modified
unfolding decide
modified_state-decide m new modified [] e = cc
modified_state-decide redact_mode new modified (t ∷ ts) e = cc
modified_state-decide block_mode new modified (t ∷ ts) e = cc

-- The keys of a rewritten state are those of the state, in their order.
pub keys-modified_state :
    (rt : Runtime) (c : PiiRedactionConfig) (state modified : Fields)
    → (evaluate rt c state).0.modified_state ≡ some modified
    → keys modified ≡ keys state
unfolding evaluate
keys-modified_state rt c state modified e =
    let f = scrub rt (compiled rt c) in
    elim (Bool-cases c.enabled) [
      | inl on ↦
          let same =
            modified_state-decide c.mode (scrub_fields f state).0 modified _ (simp on at e) in
          rw (← same) (keys-scrub_fields f state)
      | inr off ↦ let no : none ≡ some modified = simp off at e in cc
    ]

hits_none :
    (f : String → Hit String) (messages : Items)
    → all_objects messages ≡ true
    → (scrub_fields f (field "messages" (list messages) end)).1 ≡ []
unfolding scrub_fields scrub_value string_eq
hits_none f messages e = rw (scrub_items-objects f messages e) refl

decide_none : (m : RedactionMode) (new : Fields) → decide m new (sorted_set []) ≡ (pass, [])
unfolding decide sorted_set
decide_none m new = refl

-- A conversation of message objects, such as LangChain's `BaseMessage`, passes unchanged whatever
-- the messages say, if the state holds nothing else.
pub evaluate_objects :
    (rt : Runtime) (c : PiiRedactionConfig) (messages : Items)
    → all_objects messages ≡ true
    → evaluate rt c (field "messages" (list messages) end) ≡ (pass, [])
unfolding evaluate
evaluate_objects rt c messages e =
    let f = scrub rt (compiled rt c) in
    let new = (scrub_fields f (field "messages" (list messages) end)).0 in
    rw (hits_none f messages e, decide_none c.mode new) (ground arith)
