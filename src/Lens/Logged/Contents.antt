-- ===== src/Lens/Logged/Contents.antt =====
-- The detectors of states, checkpoints, entries and files: what they report can be written to the
-- log as it is, since no extra has the key of a field of the detection.
use langgraph_lens.Prelude.{
  String, ◌≡◌, refl, not, Option, none, some, List, [], ◌∷◌, contains, string_eq,
}
use langgraph_lens.Prelude.Dict.{get}
use langgraph_lens.Runtime.{Runtime, Unicode}
use langgraph_lens.Value.{Value, Fields, keys}
use langgraph_lens.Regex.{search_any}
use langgraph_lens.Event.Schema.{Clean, no_more, also, Clean-append, Clean-if}
use langgraph_lens.Detector.Checkpoint
use langgraph_lens.Detector.GoalHijack
use langgraph_lens.Detector.Memory
use langgraph_lens.Detector.Pii
use langgraph_lens.Detector.SqlInjection

Clean-opcode_detection : (hits : List String) → Clean (Checkpoint.opcode_detection hits)
unfolding get string_eq
Clean-opcode_detection [] = no_more
Clean-opcode_detection (h ∷ hs) = also refl no_more

Clean-kind_detection : (kind : Option String) → Clean (Checkpoint.kind_detection kind)
unfolding get string_eq
Clean-kind_detection none = no_more
Clean-kind_detection (some kind) = Clean-if _ no_more (also refl no_more)

module _ (rt : Runtime) (c : Checkpoint.CheckpointConfig) where
  Clean-scan_schema :
      (fs : Fields) (ms : List String)
      → Checkpoint.missing_keys (keys fs) ("v" ∷ "ts" ∷ "channel_values" ∷ []) ≡ ms
      → Clean (Checkpoint.scan_schema c fs)
  unfolding get string_eq Checkpoint.scan_schema
  Clean-scan_schema fs [] e = rw (Checkpoint.scan_schema, e) no_more
  Clean-scan_schema fs (m ∷ ms) e =
      rw (Checkpoint.scan_schema, e)
        (Clean-if (contains c.rules "schema_drift") (also refl no_more) no_more)

  Clean-scan_blob : (b : Checkpoint.Blob) → Clean (Checkpoint.scan_blob rt c b)
  unfolding Checkpoint.scan_blob Checkpoint.scan_size Checkpoint.scan_opcodes Checkpoint.scan_kind
      get string_eq
  Clean-scan_blob (Checkpoint.raw b) =
      Clean-append {xs = Checkpoint.scan_size c b} (Clean-if _ (also refl no_more) no_more) (
        Clean-append {xs = Checkpoint.scan_opcodes c b}
          (Clean-if _ (Clean-opcode_detection _) no_more)
          (Clean-if (contains c.rules "unknown_serializer_kind")
            (Clean-kind_detection (Checkpoint.peek_serializer_kind rt b)) no_more))
  Clean-scan_blob (Checkpoint.decoded fs) = Clean-scan_schema fs _ refl

  Clean-scan_thread : (thread : Option String) → Clean (Checkpoint.scan_thread c thread)
  unfolding Checkpoint.scan_thread get string_eq
  Clean-scan_thread thread = Clean-if _ (also refl no_more) no_more

  pub Clean-checkpoint :
      (b : Checkpoint.Blob) (thread : Option String) → Clean (Checkpoint.scan rt c b thread)
  unfolding Checkpoint.scan
  Clean-checkpoint b thread =
      Clean-if (not c.enabled) no_more (Clean-append (Clean-scan_thread thread) (Clean-scan_blob b))

Clean-hit_of :
    (field : String) (p : SqlInjection.Pattern) (m : Option String)
    → Clean (SqlInjection.hit_of field p m)
unfolding get string_eq
Clean-hit_of field p none = no_more
Clean-hit_of field p (some m) = also refl no_more

Clean-sql_patterns :
    (rules : List String) (field value : String) (ps : List SqlInjection.Pattern)
    → Clean (SqlInjection.scan_patterns rules field value ps)
unfolding SqlInjection.scan_patterns
Clean-sql_patterns rules field value [] = no_more
Clean-sql_patterns rules field value (p ∷ ps) =
    Clean-append (Clean-if (contains rules p.name) (Clean-hit_of field p _) no_more)
      (Clean-sql_patterns rules field value ps)

pub Clean-sql :
    (u : Unicode) (c : SqlInjection.SqlInjectionConfig) (field value : String)
    → Clean (SqlInjection.scan u c field value)
unfolding SqlInjection.scan
Clean-sql u c field value =
    Clean-if _ no_more (Clean-sql_patterns c.rules field value (SqlInjection.patterns u))

Clean-pattern_hit :
    (direction : Pii.Direction) (cp : Pii.CompiledPattern) (ms : List String)
    → Clean (Pii.pattern_hit direction cp ms)
unfolding Pii.pattern_hit get string_eq
Clean-pattern_hit direction cp [] = no_more
Clean-pattern_hit direction cp (m ∷ ms) = also refl no_more

Clean-pii_patterns :
    (rt : Runtime) (direction : Pii.Direction) (body : String) (cps : List Pii.CompiledPattern)
    → Clean (Pii.scan_patterns rt direction body cps)
unfolding Pii.scan_patterns
Clean-pii_patterns rt direction body [] = no_more
Clean-pii_patterns rt direction body (cp ∷ cps) =
    Clean-append (Clean-pattern_hit direction cp _) (Clean-pii_patterns rt direction body cps)

pub Clean-pii :
    (rt : Runtime) (c : Pii.PiiConfig) (body : String) (direction : Pii.Direction)
    → Clean (Pii.scan rt c body direction)
unfolding Pii.scan
Clean-pii rt c body direction = Clean-if _ no_more (Clean-pii_patterns rt direction body _)

module _ (c : Memory.MemoryConfig) (key : String) where
  Clean-override_hit : (m : Option String) → Clean (Memory.override_hit key m)
  unfolding get string_eq
  Clean-override_hit none = no_more
  Clean-override_hit (some m) = also refl no_more

  Clean-foreign_hit : (owner : Option String) → Clean (Memory.foreign_hit key owner)
  unfolding get string_eq
  Clean-foreign_hit none = no_more
  Clean-foreign_hit (some owner) = also refl no_more

  Clean-oversized_hit : (body : String) → Clean (Memory.oversized_hit c key body)
  unfolding get string_eq
  Clean-oversized_hit body = Clean-if _ (also refl no_more) no_more

pub Clean-memory :
    (rt : Runtime) (c : Memory.MemoryConfig) (key : String) (value : Value) (owner : Option String)
    → Clean (Memory.scan rt c key value owner)
unfolding Memory.scan
Clean-memory rt c key value owner =
    let body = Memory.stringify rt value in
    Clean-if (not c.enabled) no_more (
      Clean-append
        (Clean-if (contains c.rules "system_prompt_override")
          (Clean-override_hit c key (search_any (Memory.override_patterns rt.unicode) body))
          no_more)
        (Clean-append (Clean-oversized_hit c key body) (
          Clean-if (contains c.rules "cross_tenant_key")
            (Clean-foreign_hit c key (Memory.foreign_owner key owner)) no_more)))

Clean-prompt_hit : (w : Option String) → Clean (GoalHijack.prompt_hit w)
unfolding get string_eq
Clean-prompt_hit none = no_more
Clean-prompt_hit (some w) = also refl no_more

Clean-call_hit : (w : Option String) → Clean (GoalHijack.call_hit w)
unfolding get string_eq
Clean-call_hit none = no_more
Clean-call_hit (some w) = also refl no_more

module _ (rt : Runtime) (c : GoalHijack.GoalHijackConfig) where
  Clean-scan_topic : (pending intent : String) → Clean (GoalHijack.scan_topic rt c pending intent)
  unfolding GoalHijack.scan_topic get string_eq
  Clean-scan_topic pending intent = Clean-if _ (also refl no_more) no_more

  Clean-scan_intent :
      (state : Fields) (intent : String) → Clean (GoalHijack.scan_intent rt c state intent)
  unfolding GoalHijack.scan_intent
  Clean-scan_intent state intent =
      Clean-append (Clean-prompt_hit _)
        (Clean-append (Clean-call_hit _) (Clean-scan_topic _ intent))

  pub Clean-goal_hijack :
      (state : Fields) (intent : Option String) → Clean (GoalHijack.scan rt c state intent)
  unfolding GoalHijack.scan
  Clean-goal_hijack state none = no_more
  Clean-goal_hijack state (some intent) = Clean-if _ no_more (Clean-scan_intent state intent)
