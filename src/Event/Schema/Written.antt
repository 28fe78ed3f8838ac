-- ===== src/Event/Schema/Written.antt =====
-- events.py: the dictionary of an event has the shape of a line.
use langgraph_lens.Prelude.{
  String, ◌≡◌, refl, Bool, true, false, ◌&&◌, Option, none, some, List, [], ◌∷◌, map, arith,
  contains, All, if◌then◌else◌, string_eq, ◌==◌,
}
use langgraph_lens.Prelude.Dict.{Dict, get, put, pop, get-put, get-pop}
use langgraph_lens.Value.{Value, int, text}
use langgraph_lens.Event.{
  EventKind, node_inspected, checkpoint_inspected, tool_call_inspected, memory_inspected,
  prompt_scan, attack_surface_scan, sql_inspected, Severity, low, medium, high, critical, Detection,
  Event, severity_value, kind_value, base_entries, put_present, detection_to_dict, event_to_dict,
}
use langgraph_lens.Event.Log.{get-update_absent}
use langgraph_lens.Event.Schema.{
  is_text_or_missing, is_one_of, detector_names, severity_names, kind_names, line_keys, has_only,
  IsFinding, IsHead, IsLine, is_missing, is_clean, Clean, also,
}

is_one_of-severity_value :
    (s : Severity) → is_one_of severity_names (some (text (severity_value s))) ≡ true
unfolding string_eq
is_one_of-severity_value low = refl
is_one_of-severity_value medium = refl
is_one_of-severity_value high = refl
is_one_of-severity_value critical = refl

fields_of :
    (a b c d : Bool)
    → (a && (b && (c && d))) ≡ true
    → (a ≡ true) × (b ≡ true) × (c ≡ true) × (d ≡ true)
fields_of a b c d h = (ground arith, ground arith, ground arith, ground arith)

module _ (b : Bool) (d : Detection) where
  -- A key that the extras do not have is read from the fields.
  get-to_dict :
      (k : String)
      → is_missing (get k d.extra) ≡ true
      → get k (detection_to_dict b d) ≡ get k (base_entries d)
  unfolding detection_to_dict
  get-to_dict k h = ground (
    arith,
    get-update_absent k (base_entries d) (if b then d.extra else pop "match" d.extra),
    get-pop k "match" d.extra,
  )

  IsFinding-base : contains detector_names d.detector ≡ true → IsFinding (base_entries d)
  unfolding get string_eq
  IsFinding-base h = (h, refl, is_one_of-severity_value d.severity)

  IsFinding-to_dict : is_clean d ≡ true → IsFinding (detection_to_dict b d)
  IsFinding-to_dict h =
      let (named, detector, rule, severity) = fields_of _ _ _ _ h in
      let (p, q, r) = IsFinding-base named in
      (
        rw (get-to_dict "detector" detector) p,
        rw (get-to_dict "rule" rule) q,
        rw (get-to_dict "severity" severity) r,
      )

All-to_dict :
    (b : Bool) (ds : List Detection) → Clean ds → All IsFinding (map (detection_to_dict b) ds)
All-to_dict b [] h = tt
All-to_dict b (d ∷ ds) (also h hs) = (IsFinding-to_dict b d h, All-to_dict b ds hs)

has_only-put :
    (names : List String) (k : String) (v : Value) (d : Dict String Value)
    → contains names k ≡ true
    → has_only names d ≡ true
    → has_only names (put k v d) ≡ true
unfolding put
has_only-put names k v [] known h = ground arith
has_only-put names k v ((j, w) ∷ d) known h = ground (arith, has_only-put names k v d known)

-- The key is one of those that a line may have, and none of those that it must have.
abbrev IsOptional : String → Type 0
IsOptional k =
    (contains line_keys k ≡ true)
    × (("event" == k) ≡ false)
    × (("correlation_id" == k) ≡ false)
    × (("timestamp" == k) ≡ false)

module _ (k : String) (s : String) (d : Dict String Value) where
  get-put_ne : (j : String) → (j == k) ≡ false → get j (put k (text s) d) ≡ get j d
  get-put_ne j ne = ground (arith, get-put j k (text s) d)

  is_text_or_missing-put :
      (j : String)
      → is_text_or_missing (get j d) ≡ true
      → is_text_or_missing (get j (put k (text s) d)) ≡ true
  is_text_or_missing-put j h = ground (arith, get-put j k (text s) d)

  IsHead-put : IsOptional k → IsHead d → IsHead (put k (text s) d)
  IsHead-put (known, event, id, time)
        (h, h_id, h_time, run, thread, node, checkpoint, state, only) =
      (
        rw (get-put_ne "event" event) h,
        rw (get-put_ne "correlation_id" id) h_id,
        rw (get-put_ne "timestamp" time) h_time,
        is_text_or_missing-put "run_id" run,
        is_text_or_missing-put "thread_id" thread,
        is_text_or_missing-put "node" node,
        is_text_or_missing-put "checkpoint_id" checkpoint,
        is_text_or_missing-put "state_hash" state,
        has_only-put line_keys k (text s) d known only,
      )

IsHead-put_present :
    (k : String) (o : Option String) (d : Dict String Value)
    → IsOptional k
    → IsHead d
    → IsHead (put_present k o d)
IsHead-put_present k none d may h = h
IsHead-put_present k (some s) d may h = IsHead-put k s d may h

is_one_of-kind_value : (k : EventKind) → is_one_of kind_names (some (text (kind_value k))) ≡ true
unfolding string_eq
is_one_of-kind_value node_inspected = refl
is_one_of-kind_value checkpoint_inspected = refl
is_one_of-kind_value tool_call_inspected = refl
is_one_of-kind_value memory_inspected = refl
is_one_of-kind_value prompt_scan = refl
is_one_of-kind_value attack_surface_scan = refl
is_one_of-kind_value sql_inspected = refl

-- The entries that `to_dict` begins with.
IsHead-start :
    (e : Event)
    → IsHead (
        ("event", text (kind_value e.event))
        ∷ ("correlation_id", text e.correlation_id)
        ∷ ("timestamp", int e.timestamp)
        ∷ [])
unfolding get string_eq
IsHead-start e = (is_one_of-kind_value e.event, refl, refl, refl, refl, refl, refl, refl, refl)

IsHead-event_to_dict : (b : Bool) (e : Event) → IsHead (event_to_dict b e).plain
unfolding event_to_dict string_eq
IsHead-event_to_dict b e =
    IsHead-put_present "state_hash" e.state_hash _ (refl, refl, refl, refl)
      (IsHead-put_present "checkpoint_id" e.checkpoint_id _ (refl, refl, refl, refl)
        (IsHead-put_present "node" e.node _ (refl, refl, refl, refl)
          (IsHead-put_present "thread_id" e.thread_id _ (refl, refl, refl, refl)
            (IsHead-put_present "run_id" e.run_id _ (refl, refl, refl, refl) (IsHead-start e)))))

-- An event whose detections are clean is written as a line.
pub IsLine-event_to_dict : (b : Bool) (e : Event) → Clean e.detections → IsLine (event_to_dict b e)
unfolding event_to_dict
IsLine-event_to_dict b e h = (IsHead-event_to_dict b e, All-to_dict b e.detections h)
