-- ===== src/Lens/Safe/Methods.antt =====
-- lens.py: the methods of the orchestrator that inspect, one by one.
use langgraph_lens.Prelude.{String, refl, Option, List, arith, string_eq, true}
use langgraph_lens.Runtime.{Runtime}
use langgraph_lens.Value.{Value, Fields}
use langgraph_lens.Detector.AttackSurface.{RuntimeInfo}
use langgraph_lens.Detector.SupplyChain.{FileSystem}
use langgraph_lens.Lens.{Lens, LensConfig, correlation_for, events_for_thread}
use langgraph_lens.Lens.Inspect.{
  NodeCall, CheckpointCall, ToolCall, remember_intent, remember_size, observe_node, inspect_node,
  inspect_checkpoint, inspect_tool_call, inspect_memory_write, scans,
}
use langgraph_lens.Lens.Scan.{scan_attack_surface, auto_scan, scan_prompt, environment_info}
use langgraph_lens.Lens.Safe.{Safe, Safe-Emitted, Safe-either, Safe-branch, Safe-Same}

module _ (c : LensConfig) (rt : Runtime) where
  Safe-correlation_for :
      (run_id thread_id : Option String) (l : Lens)
      → Safe c l
      → Safe c (correlation_for rt run_id thread_id l).1
  unfolding correlation_for
  Safe-correlation_for run_id thread_id l h =
      Safe-Same c l (correlation_for rt run_id thread_id l).1
        (ground arith, ground arith, ground arith) h

  Safe-remember_intent :
      (thread_id : Option String) (state : Fields) (l : Lens)
      → Safe c l
      → Safe c (remember_intent rt thread_id state l)
  unfolding remember_intent
  Safe-remember_intent thread_id state l h =
      Safe-Same c l (remember_intent rt thread_id state l)
        (ground arith, ground arith, ground arith) h

  Safe-remember_size :
      (thread_id : Option String) (state : Fields) (l : Lens)
      → Safe c l
      → Safe c (remember_size rt thread_id state l)
  unfolding remember_size
  Safe-remember_size thread_id state l h =
      Safe-Same c l (remember_size rt thread_id state l) (ground arith, ground arith, ground arith)
        h

  pub Safe-scan_attack_surface :
      (info : RuntimeInfo) (l : Lens) → Safe c l → Safe c (scan_attack_surface rt info l).1
  unfolding scan_attack_surface
  Safe-scan_attack_surface info l h =
      Safe-Emitted c rt l (scan_attack_surface rt info l).1 (_, _, refl, (refl, refl, refl)) h

  pub Safe-scan_prompt :
      (fs : FileSystem) (path : String) (l : Lens) → Safe c l → Safe c (scan_prompt rt fs path l).1
  unfolding scan_prompt
  Safe-scan_prompt fs path l h =
      Safe-Emitted c rt l (scan_prompt rt fs path l).1 (_, _, refl, (refl, refl, refl)) h

  Safe-auto_scan : (l : Lens) → Safe c l → Safe c (auto_scan rt l)
  unfolding auto_scan events_for_thread
  Safe-auto_scan l h =
      let l' = record l { attack_surface_scanned = true } in
      Safe-either c l.attack_surface_scanned l (scan_attack_surface rt (environment_info rt) l').1 h
        (Safe-scan_attack_surface (environment_info rt) l' h)

  pub Safe-inspect_node :
      (q : NodeCall) (state : Fields) (l : Lens) → Safe c l → Safe c (inspect_node rt q state l).1
  unfolding inspect_node observe_node
  Safe-inspect_node q state l h =
      let l1 = (correlation_for rt q.run_id q.thread_id l).1 in
      let h1 = Safe-correlation_for q.run_id q.thread_id l h in
      let l2 = auto_scan rt l1 in
      let h2 = Safe-auto_scan l1 h1 in
      let l3 = remember_intent rt q.thread_id state l2 in
      let h3 = Safe-remember_intent q.thread_id state l2 h2 in
      let l4 = remember_size rt q.thread_id state l3 in
      let h4 = Safe-remember_size q.thread_id state l3 h3 in
      Safe-Emitted c rt l4 (inspect_node rt q state l).1 (_, _, refl, (refl, refl, refl)) h4

  pub Safe-inspect_checkpoint :
      (q : CheckpointCall) (l : Lens) → Safe c l → Safe c (inspect_checkpoint rt q l).1
  unfolding inspect_checkpoint
  Safe-inspect_checkpoint q l h =
      let l1 = (correlation_for rt q.run_id q.thread_id l).1 in
      let h1 = Safe-correlation_for q.run_id q.thread_id l h in
      Safe-branch c rt l1 (scans l1.config.checkpoint q.direction) (inspect_checkpoint rt q l) _ _
        refl (_, _, refl, (refl, refl, refl)) (refl, refl, refl) h1

  pub Safe-inspect_tool_call :
      (q : ToolCall) (allowed : Option (List String)) (l : Lens)
      → Safe c l
      → Safe c (inspect_tool_call rt q allowed l).1
  unfolding inspect_tool_call
  Safe-inspect_tool_call q allowed l h =
      let l1 = (correlation_for rt q.run_id q.thread_id l).1 in
      Safe-Emitted c rt l1 (inspect_tool_call rt q allowed l).1 (_, _, refl, (refl, refl, refl))
        (Safe-correlation_for q.run_id q.thread_id l h)

  pub Safe-inspect_memory_write :
      (key : String) (value : Value) (owner run_id thread_id : Option String) (l : Lens)
      → Safe c l
      → Safe c (inspect_memory_write rt key value owner run_id thread_id l).1
  unfolding inspect_memory_write
  Safe-inspect_memory_write key value owner run_id thread_id l h =
      let l1 = (correlation_for rt run_id thread_id l).1 in
      Safe-Emitted c rt l1 (inspect_memory_write rt key value owner run_id thread_id l).1
        (_, _, refl, (refl, refl, refl)) (Safe-correlation_for run_id thread_id l h)
