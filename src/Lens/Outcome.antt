-- ===== src/Lens/Outcome.antt =====
-- lens.py: what the decision methods do behind the inspection: the event is extended with the
-- detections of the interventions, and the decision is measured.
use langgraph_lens.Prelude.{
  String, Option, none, some, List, [], ◌∷◌, ◌++◌, map, eqb, if◌then◌else◌, string_eq, ◌==◌,
}
use langgraph_lens.Prelude.Dict.{get, put}
use langgraph_lens.Runtime.{Runtime}
use langgraph_lens.Event.{Detection, Event}
use langgraph_lens.Decision.{Action, allow, redact, throttle, block, LensDecision}
use langgraph_lens.Metrics.{Sample, increment, set_gauge, record_all}
use langgraph_lens.Text.{join, sorted_set, split_on}
use langgraph_lens.Breaker.{state_value}
use langgraph_lens.Lens.{Lens, named, measure, events_of}

-- The event with the detections of the interventions, also in the buffer of its thread, which holds
-- the same object.
abbrev pub extend : List Detection → Event → Event
extend ds e = record e { detections = e.detections ++ ds }

unfoldable pub extend_last : List Detection → List Event → List Event
extend_last ds [] = []
extend_last ds (e ∷ []) = extend ds e ∷ []
extend_last ds (e ∷ f ∷ es) = e ∷ extend_last ds (f ∷ es)

unfoldable pub extend_buffer : Option String → List Detection → Lens → Lens
extend_buffer thread_id ds l = elim (named thread_id) [
  | none ↦ l
  | some t ↦ record l {
    thread_events = put t (extend_last ds (events_of (get t l.thread_events))) l.thread_events;
  }
]

-- `t.split(".", 1)[0]`
abbrev first_part : List String → String
first_part [] = ""
first_part (s ∷ ss) = s

-- `x or "unknown"`
abbrev or_unknown : String → String
or_unknown s = if s == "" then "unknown" else s

abbrev or_blank : Option String → String
or_blank none = ""
or_blank (some s) = s

-- The intervention that a trigger names.
unfoldable pub trigger_source : String → String
trigger_source t = first_part (split_on (λ c. eqb c b'.') t)

-- The counter of `_record_tier2_outcome`
unfoldable pub outcome_samples : Action → Option String → List String → List Sample
outcome_samples allow reason ts = []
outcome_samples redact reason ts =
    increment "langgraph_lens_tier2_redacted_total"
      (or_unknown (join "," (sorted_set (map trigger_source ts))) ∷ [])
    ∷ []
outcome_samples throttle reason ts =
    increment "langgraph_lens_tier2_throttled_total" (or_unknown (or_blank reason) ∷ []) ∷ []
outcome_samples block reason ts =
    increment "langgraph_lens_tier2_blocked_total" (or_unknown (or_blank reason) ∷ []) ∷ []

abbrev pub circuit_gauge : Lens → List Sample
circuit_gauge l =
    set_gauge "langgraph_lens_circuit_state" (state_value l.circuit_breaker.state) ∷ []

-- `record_detection` of the detections of the interventions, then `_record_tier2_outcome`
abbrev pub report : Runtime → LensDecision → List Detection → Lens → Lens
report rt d ds l =
    measure
      (record_all rt ds ++ (outcome_samples d.action d.reason d.triggered_by ++ circuit_gauge l)) l
