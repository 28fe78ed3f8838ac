-- ===== src/Event/Log.antt =====
-- `Detection.to_dict` and `write_event`: what reaches the log.
use langgraph_lens.Prelude.{
  String, ◌≡◌, refl, ◌≢◌, Bool, true, false, Option, ◌⊎◌, inl, inr, not, Bool-cases, ◌∙◌, none,
  some, List, [], ◌∷◌, map, ◌&&◌, arith, All, if◌then◌else◌, string_eq, ◌==◌,
}
use langgraph_lens.Prelude.Dict.{Dict, get, put, pop, get-put, get-pop}
use langgraph_lens.Value.{Value}
use langgraph_lens.Event.{
  Detection, Event, EventDict, Output, update, detection_to_dict, event_to_dict, write_event,
  base_entries,
}

pub get-update_absent :
    (k : String) (base extra : Dict String Value)
    → get k extra ≡ none
    → get k (update base extra) ≡ get k base
unfolding get
get-update_absent k base [] h = refl
get-update_absent k base ((j, v) ∷ extra) h =
    ground (arith, get-update_absent k (put j v base) extra, get-put k j v base)

get-update-pop :
    (k m : String) (base base' extra : Dict String Value)
    → k ≢ m
    → get k base ≡ get k base'
    → get k (update base (pop m extra)) ≡ get k (update base' extra)
unfolding pop
get-update-pop k m base base' [] ne h = h
get-update-pop k m base base' ((j, v) ∷ extra) ne h = ground (
  arith,
  get-update-pop k m base (put j v base') extra,
  get-update-pop k m (put j v base) (put j v base') extra,
  get-put k j v base,
  get-put k j v base',
)

no_match_in_base : (d : Detection) → get "match" (base_entries d) ≡ none
unfolding get string_eq
no_match_in_base d = refl

-- Without `include_match_text` the logged detection has no "match" entry, and every other entry is
-- the one that is logged with it.
pub get-detection_to_dict :
    (d : Detection) (k : String)
    → get k (detection_to_dict false d)
      ≡ (if k == "match" then none else get k (detection_to_dict true d))
unfolding detection_to_dict
get-detection_to_dict d k = elim (string_eq.dec k "match") [
  | yes e ↦ rw e (
      get-update_absent "match" (base_entries d) (pop "match" d.extra) (rw get-pop (ground arith))
      ∙ no_match_in_base d
      ∙ ground arith)
  | no n ↦ get-update-pop k "match" (base_entries d) (base_entries d) d.extra n refl ∙ ground arith
]

All-to_dict :
    (ds : List Detection) → All (λ d. get "match" d ≡ none) (map (detection_to_dict false) ds)
All-to_dict [] = tt
All-to_dict (d ∷ ds) = (get-detection_to_dict d "match" ∙ ground arith, All-to_dict ds)

-- No matched text reaches the log unless the configuration asks for it: every event that is
-- written without `include_match_text` adds one line, to the file or to stderr, whose detections
-- have no "match" entry.
pub write_event_redacted :
    (opens : String → Bool) (destination : String) (path : Option String) (e : Event) (out : Output)
    → (line : EventDict) × All (λ d. get "match" d ≡ none) line.detections
      × ((write_event opens destination path false e out
            ≡ record out { stderr = line ∷ out.stderr })
          ⊎ ((p : String) × (path ≡ some p)
              × (opens p ≡ true)
              × (write_event opens destination path false e out
                  ≡ record out { file = (p, line) ∷ out.file })))
unfolding write_event event_to_dict
write_event_redacted opens destination none e out =
    (event_to_dict false e, All-to_dict e.detections, inl refl)
write_event_redacted opens destination (some p) e out = (
  event_to_dict false e,
  All-to_dict e.detections,
  elim (Bool-cases (destination == "file" && not (p == ""))) [
    | inl to_file ↦ elim (Bool-cases (opens p)) [
      | inl o ↦ inr (p, refl, o, ground arith)
      | inr shut ↦ inl (ground arith)
    ]
    | inr to_stderr ↦ inl (ground arith)
  ],
)
