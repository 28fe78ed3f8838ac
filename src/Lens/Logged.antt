-- ===== src/Lens/Logged.antt =====
-- lens.py: the lines that the orchestrator has written to the log.
pub mod Contents
pub mod Decisions
pub mod Detectors
pub mod Files
pub mod Methods
pub mod History
use langgraph_lens.Prelude.{
  ◌≡◌, sym, subst, Bool, true, false, List, [], ◌∷◌, map, All, if◌then◌else◌,
}
use langgraph_lens.Prelude.{String, Option, none, some, Option-cases, inl, inr, string_eq, ◌==◌}
use langgraph_lens.Runtime.{Runtime}
use langgraph_lens.Event.{Detection, Event, EventDict, Output, log_file, write_event, event_to_dict}
use langgraph_lens.Event.Log.{write_event_redacted}
use langgraph_lens.Event.Schema.{IsLine, Clean}
use langgraph_lens.Event.Schema.Written.{IsLine-event_to_dict}
use langgraph_lens.Lens.{Lens, emit}

-- Every line that was written has the shape of a line.
abbrev pub Regular : Output → Type 0
Regular out = All (λ (path, line). IsLine line) out.file × All IsLine out.stderr

Regular-if : (b : Bool) (x y : Output) → Regular x → Regular y → Regular (if b then x else y)
Regular-if true x y h k = h
Regular-if false x y h k = k

Regular-write_event :
    (opens : String → Bool) (destination : String) (path : Option String) (b : Bool) (e : Event)
    (out : Output)
    → Clean e.detections
    → Regular out
    → Regular (write_event opens destination path b e out)
unfolding write_event
Regular-write_event opens destination path b e out clean (file, stderr) =
    let line = IsLine-event_to_dict b e clean in
    elim (Option-cases (log_file destination path)) [
      | inl printed ↦ rw (write_event, printed) (file, (line, stderr))
      | inr (p, named) ↦
          rw (write_event, named)
            (Regular-if (opens p) (record out { file = (p, event_to_dict b e) ∷ out.file })
              (record out { stderr = event_to_dict b e ∷ out.stderr }) ((line, file), stderr)
              (file, (line, stderr)))
    ]

pub Regular-emit :
    (rt : Runtime) (e : Event) (l : Lens)
    → Clean e.detections
    → Regular l.output
    → Regular (emit rt e l).output
unfolding emit
Regular-emit rt e l clean h =
    Regular-if l.config.logging.enabled _ l.output
      (Regular-write_event rt.opens _ _ _ e l.output clean h) h
