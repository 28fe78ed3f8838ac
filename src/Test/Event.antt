-- ===== src/Test/Event.antt =====
-- Events at small inputs.
use langgraph_lens.Prelude.{String, ◌≡◌, true, false, none, some, [], ◌∷◌, All, ◌⊎◌, string_eq}
use langgraph_lens.Prelude.Dict.{get}
use langgraph_lens.Value.{text}
use langgraph_lens.Event.{Detection, Event, EventDict, Output, high, node_inspected, write_event}
use langgraph_lens.Event.Log.{write_event_redacted}

abbrev leak : Detection
leak = record {
  detector = "pii";
  rule = "email";
  severity = high;
  extra = ("match", text "a@b.org") ∷ ("count", text "1") ∷ [];
}

abbrev pub event : Event
event = record {
  event = node_inspected;
  correlation_id = "lens-1";
  detections = leak ∷ [];
  run_id = none;
  thread_id = some "t";
  node = some "agent";
  checkpoint_id = none;
  state_hash = none;
  timestamp = 3;
}

abbrev nothing : Output
nothing = record { file = []; stderr = [] }

write_event_redacted_example :
    (line : EventDict) × All (λ d. get "match" d ≡ none) line.detections
    × ((write_event (λ p. false) "file" (some "lens.log") false event nothing
          ≡ record nothing { stderr = line ∷ [] })
        ⊎ ((p : String) × (some "lens.log" ≡ some p)
            × (false ≡ true)
            × (write_event (λ q. false) "file" (some "lens.log") false event nothing
                ≡ record nothing { file = (p, line) ∷ [] })))
write_event_redacted_example =
    write_event_redacted (λ p. false) "file" (some "lens.log") event nothing
