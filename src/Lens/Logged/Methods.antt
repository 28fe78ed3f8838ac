-- ===== src/Lens/Logged/Methods.antt =====
-- lens.py: what the methods of the orchestrator write to the log.
use langgraph_lens.Prelude.{
  String, ◌≡◌, refl, sym, subst, Bool, true, false, Option, List, [], ◌∷◌, map, arith, string_eq,
  ◌==◌, Option-cases, inl, inr, if◌then◌else◌,
}
use langgraph_lens.Prelude.Dict.{Dict, get, setdefault, get-setdefault}
use langgraph_lens.Runtime.{Runtime}
use langgraph_lens.Value.{Value, Fields, lookup, text}
use langgraph_lens.Event.{Detection}
use langgraph_lens.Event.Schema.{Clean, no_more, also, is_missing, Clean-append, Clean-if}
use langgraph_lens.Detector.AttackSurface.{RuntimeInfo}
use langgraph_lens.Detector.SupplyChain.{FileSystem}
use langgraph_lens.Message.{text_of}
use langgraph_lens.Detector.Pii.{PiiConfig, Direction, ingress, at_checkpoint}
use langgraph_lens.Detector.SqlInjection.{SqlInjectionConfig}
use langgraph_lens.Lens.{Lens, named, correlation_for}
use langgraph_lens.Lens.Inspect.{
  NodeCall, CheckpointCall, ToolCall, remember_intent, remember_size, observe_node, inspect_node,
  pii_of, goal_of, metadata_hits, checkpoint_detections, inspect_checkpoint, inspect_tool_call,
  inspect_memory_write, scans,
}
use langgraph_lens.Lens.Scan.{scan_attack_surface, auto_scan, scan_prompt, environment_info, tagged}
use langgraph_lens.Lens.Logged.{Regular, Regular-emit}
use langgraph_lens.Lens.Logged.Contents.{
  Clean-pii, Clean-sql, Clean-goal_hijack, Clean-checkpoint, Clean-memory,
}
use langgraph_lens.Lens.Logged.Detectors.{Clean-comms, Clean-tool, Clean-attack_surface}
use langgraph_lens.Lens.Logged.Files.{Clean-supply_chain}

is_missing-setdefault :
    (j key : String) (v : Value) (d : Dict String Value)
    → (j == key) ≡ false
    → is_missing (get j (setdefault key v d)) ≡ is_missing (get j d)
is_missing-setdefault j key v d ne = ground (arith, get-setdefault j key v d)

-- The key is none of a detection's own.
abbrev IsExtra : String → Type 0
IsExtra key =
    (("detector" == key) ≡ false) × (("rule" == key) ≡ false) × (("severity" == key) ≡ false)

Clean-tagged :
    (key value : String) (ds : List Detection)
    → IsExtra key
    → Clean ds
    → Clean (map (tagged key value) ds)
Clean-tagged key value ds own no_more = no_more
Clean-tagged key value ds (p, q, r) (also {d} h hs) =
    also
      (rw
        (
          is_missing-setdefault "detector" key (text value) d.extra p,
          is_missing-setdefault "rule" key (text value) d.extra q,
          is_missing-setdefault "severity" key (text value) d.extra r,
        )
        h)
      (Clean-tagged key value _ (p, q, r) hs)

pub Regular-either :
    (b : Bool) (l l' : Lens)
    → Regular l.output
    → Regular l'.output
    → Regular (if b then l else l').output
Regular-either true l l' h k = h
Regular-either false l l' h k = k

Regular-if_snd {ℓ} :
    {A : Type ℓ} (b : Bool) (x y : A × Lens)
    → Regular x.1.output
    → Regular y.1.output
    → Regular (if b then x else y).1.output
Regular-if_snd true x y h k = h
Regular-if_snd false x y h k = k

pub Regular-same : (l l' : Lens) → l'.output ≡ l.output → Regular l.output → Regular l'.output
Regular-same l l' same h = subst Regular (sym same) h

module _ (rt : Runtime) where
  output-correlation_for :
      (run_id thread_id : Option String) (l : Lens)
      → (correlation_for rt run_id thread_id l).1.output ≡ l.output
  unfolding correlation_for
  output-correlation_for run_id thread_id l = ground arith

  output-remember_intent :
      (thread_id : Option String) (state : Fields) (l : Lens)
      → (remember_intent rt thread_id state l).output ≡ l.output
  unfolding remember_intent
  output-remember_intent thread_id state l = ground arith

  output-remember_size :
      (thread_id : Option String) (state : Fields) (l : Lens)
      → (remember_size rt thread_id state l).output ≡ l.output
  unfolding remember_size
  output-remember_size thread_id state l = ground arith

  pub Regular-scan_attack_surface :
      (info : RuntimeInfo) (l : Lens)
      → Regular l.output
      → Regular (scan_attack_surface rt info l).1.output
  unfolding scan_attack_surface
  Regular-scan_attack_surface info l h =
      Regular-emit rt _ _ (Clean-attack_surface l.config.attack_surface info) h

  pub Regular-scan_prompt :
      (fs : FileSystem) (path : String) (l : Lens)
      → Regular l.output
      → Regular (scan_prompt rt fs path l).1.output
  unfolding scan_prompt string_eq
  Regular-scan_prompt fs path l h =
      Regular-emit rt _ _
        (Clean-tagged "prompt_path" path _ (refl, refl, refl)
          (Clean-supply_chain rt.unicode fs l.config.supply_chain path))
        h

  Regular-auto_scan : (l : Lens) → Regular l.output → Regular (auto_scan rt l).output
  unfolding auto_scan
  Regular-auto_scan l h =
      let l' = record l { attack_surface_scanned = true } in
      Regular-either l.attack_surface_scanned l (scan_attack_surface rt (environment_info rt) l').1
        h (Regular-scan_attack_surface (environment_info rt) l' h)

  Clean-pii_of :
      (c : PiiConfig) (on : Bool) (direction : Direction) (body : String)
      → Clean (pii_of rt c on direction body)
  Clean-pii_of c on direction body = Clean-if _ (Clean-pii rt c body direction) no_more

  Clean-goal_of :
      (thread_id : Option String) (state : Fields) (l : Lens) → Clean (goal_of rt thread_id state l)
  Clean-goal_of thread_id state l = elim (Option-cases (named thread_id)) [
    | inl unnamed ↦ rw (goal_of, unnamed) no_more
    | inr (t, is) ↦ rw (goal_of, is) (Clean-goal_hijack rt l.config.goal_hijack state _)
  ]

  Regular-observe_node :
      (q : NodeCall) (state : Fields) (cid : String) (l : Lens)
      → Regular l.output
      → Regular (observe_node rt q state cid l).1.output
  unfolding observe_node
  Regular-observe_node q state cid l h =
      Regular-emit rt _ _
        (Clean-append (Clean-pii_of l.config.pii l.config.pii.scan_ingress ingress _) (
          Clean-append (Clean-goal_of q.thread_id state l) (Clean-comms rt q.node state _ l.comms)))
        h

  pub Regular-inspect_node :
      (q : NodeCall) (state : Fields) (l : Lens)
      → Regular l.output
      → Regular (inspect_node rt q state l).1.output
  unfolding inspect_node
  Regular-inspect_node q state l h =
      let l1 = (correlation_for rt q.run_id q.thread_id l).1 in
      let h1 = Regular-same l l1 (output-correlation_for q.run_id q.thread_id l) h in
      let l2 = auto_scan rt l1 in
      let h2 = Regular-auto_scan l1 h1 in
      let l3 = remember_intent rt q.thread_id state l2 in
      let h3 = Regular-same l2 l3 (output-remember_intent q.thread_id state l2) h2 in
      let l4 = remember_size rt q.thread_id state l3 in
      let h4 = Regular-same l3 l4 (output-remember_size q.thread_id state l3) h3 in
      Regular-observe_node q state _ l4 h4

  Clean-metadata_hits :
      (c : SqlInjectionConfig) (metadata : Fields) (fs : List String)
      → Clean (metadata_hits rt c metadata fs)
  unfolding metadata_hits
  Clean-metadata_hits c metadata [] = no_more
  Clean-metadata_hits c metadata (f ∷ fs) = elim (Option-cases (text_of (lookup f metadata))) [
    | inl missing ↦ rw (metadata_hits, missing) (Clean-metadata_hits c metadata fs)
    | inr (v, is) ↦
        rw (metadata_hits, is)
          (Clean-append (Clean-sql rt.unicode c f v) (Clean-metadata_hits c metadata fs))
  ]

  Clean-checkpoint_detections :
      (q : CheckpointCall) (l : Lens) → Clean (checkpoint_detections rt q l)
  unfolding checkpoint_detections
  Clean-checkpoint_detections q l =
      Clean-append (Clean-checkpoint rt l.config.checkpoint q.blob q.thread_id) (
        Clean-append (Clean-pii_of l.config.pii l.config.pii.scan_checkpoints at_checkpoint _)
          (Clean-metadata_hits l.config.sql_injection _ l.config.sql_injection.fields))

  pub Regular-inspect_checkpoint :
      (q : CheckpointCall) (l : Lens)
      → Regular l.output
      → Regular (inspect_checkpoint rt q l).1.output
  unfolding inspect_checkpoint
  Regular-inspect_checkpoint q l h =
      let l1 = (correlation_for rt q.run_id q.thread_id l).1 in
      let h1 = Regular-same l l1 (output-correlation_for q.run_id q.thread_id l) h in
      Regular-if_snd (scans l1.config.checkpoint q.direction) _ _
        (Regular-emit rt _ _ (Clean-checkpoint_detections q l1) h1) h1

  pub Regular-inspect_tool_call :
      (q : ToolCall) (allowed : Option (List String)) (l : Lens)
      → Regular l.output
      → Regular (inspect_tool_call rt q allowed l).1.output
  unfolding inspect_tool_call string_eq
  Regular-inspect_tool_call q allowed l h =
      let l1 = (correlation_for rt q.run_id q.thread_id l).1 in
      let h1 = Regular-same l l1 (output-correlation_for q.run_id q.thread_id l) h in
      Regular-emit rt _ _
        (Clean-tagged "tool" q.tool _ (refl, refl, refl)
          (Clean-tool rt (rt.clock l1.ticks_read) q.tool q.args allowed q.thread_id l1.tool))
        h1

  pub Regular-inspect_memory_write :
      (key : String) (value : Value) (owner run_id thread_id : Option String) (l : Lens)
      → Regular l.output
      → Regular (inspect_memory_write rt key value owner run_id thread_id l).1.output
  unfolding inspect_memory_write string_eq
  Regular-inspect_memory_write key value owner run_id thread_id l h =
      let l1 = (correlation_for rt run_id thread_id l).1 in
      let h1 = Regular-same l l1 (output-correlation_for run_id thread_id l) h in
      Regular-emit rt _ _
        (Clean-tagged "key" key _ (refl, refl, refl)
          (Clean-memory rt l1.config.memory key value owner))
        h1
