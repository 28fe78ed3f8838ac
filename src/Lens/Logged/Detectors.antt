-- ===== src/Lens/Logged/Detectors.antt =====
-- The detectors: what they report can be written to the log as it is, since no extra has the key of
-- a field of the detection.
use langgraph_lens.Prelude.{
  ℕ, String, refl, Bool, not, ◌&&◌, Option, none, some, List, [], ◌∷◌, contains, string_eq, ◌==◌,
  Option-cases, inl, inr,
}
use langgraph_lens.Prelude.Dict.{get}
use langgraph_lens.Runtime.{Runtime}
use langgraph_lens.Value.{Fields}
use langgraph_lens.Args.{Args}
use langgraph_lens.Event.{Detection}
use langgraph_lens.Event.Schema.{Clean, no_more, also, Clean-append, Clean-if, Clean-if_fst}
use langgraph_lens.Comms
use langgraph_lens.Comms.{Edges}
use langgraph_lens.Tool
use langgraph_lens.Detector.AttackSurface

Clean-edge_hit :
    (node : String) (edges : Edges) (previous : Option String)
    → Clean (Comms.edge_hit node edges previous)
unfolding Comms.edge_hit get string_eq
Clean-edge_hit node edges none = no_more
Clean-edge_hit node edges (some previous) =
    Clean-if (Comms.has_edge previous node edges) no_more (also refl no_more)

Clean-scan_edge :
    (node : String) (edges : Option Edges) (thread : Option String) (t : Comms.CommsDetector)
    → Clean (Comms.scan_edge node edges thread t).0
unfolding Comms.scan_edge
Clean-scan_edge node none thread t = no_more
Clean-scan_edge node (some edges) none t = no_more
Clean-scan_edge node (some edges) (some thread) t =
    Clean-if_fst (contains t.config.rules "undeclared_edge" && not (thread == "")) _ _
      (Clean-edge_hit node edges (get thread t.last_node)) no_more

Clean-scan_recursion :
    (c : Comms.CommsConfig) (limit depth : Option ℕ) → Clean (Comms.scan_recursion c limit depth)
unfolding Comms.scan_recursion get string_eq
Clean-scan_recursion c none depth = no_more
Clean-scan_recursion c (some limit) none = no_more
Clean-scan_recursion c (some limit) (some depth) = Clean-if _ (also refl no_more) no_more

Clean-target_hits :
    (node : String) (edges : Edges) (ts : List String) → Clean (Comms.target_hits node edges ts)
unfolding Comms.target_hits get string_eq
Clean-target_hits node edges [] = no_more
Clean-target_hits node edges (t ∷ ts) =
    let rest = Clean-target_hits node edges ts in
    Clean-if (Comms.is_target t edges) rest (also refl rest)

Clean-scan_sends :
    (c : Comms.CommsConfig) (node : String) (state : Fields) (edges : Option Edges)
    → Clean (Comms.scan_sends c node state edges)
unfolding Comms.scan_sends
Clean-scan_sends c node state none = no_more
Clean-scan_sends c node state (some edges) = Clean-if _ (Clean-target_hits node edges _) no_more

Clean-scan_growth :
    (rt : Runtime) (c : Comms.CommsConfig) (state : Fields) (initial : Option ℕ)
    → Clean (Comms.scan_growth rt c state initial)
unfolding Comms.scan_growth get string_eq
Clean-scan_growth rt c state none = no_more
Clean-scan_growth rt c state (some initial) = Clean-if _ (also refl no_more) no_more

pub Clean-comms :
    (rt : Runtime) (node : String) (state : Fields) (r : Comms.Traversal) (t : Comms.CommsDetector)
    → Clean (Comms.scan rt node state r t).0
unfolding Comms.scan
Clean-comms rt node state r t = Clean-if_fst (not t.config.enabled) _ _ no_more (
    Clean-append (Clean-scan_edge node r.declared_edges r.thread_id t) (
      Clean-append (Clean-scan_recursion t.config r.recursion_limit r.recursion_depth) (
        Clean-append (Clean-scan_sends t.config node state r.declared_edges)
          (Clean-scan_growth rt t.config state r.initial_state_size))))

Clean-scan_allowlist :
    (c : Tool.ToolConfig) (tool : String) (allowed : Option (List String))
    → Clean (Tool.scan_allowlist c tool allowed)
unfolding Tool.scan_allowlist get string_eq
Clean-scan_allowlist c tool allowed = Clean-if _ (also refl no_more) no_more

Clean-enumeration_signal :
    (c : Tool.ToolConfig) (w : List (ℕ × String)) → Clean (Tool.enumeration_signal c w)
unfolding Tool.enumeration_signal get string_eq
Clean-enumeration_signal c w = Clean-if _ (also refl no_more) no_more

Clean-scan_enumeration :
    (now : ℕ) (tool : String) (thread : Option String) (t : Tool.ToolDetector)
    → Clean (Tool.scan_enumeration now tool thread t).0
unfolding Tool.scan_enumeration
Clean-scan_enumeration now tool thread t = elim (Option-cases (Tool.tracked t.config thread)) [
  | inl untracked ↦ rw (Tool.scan_enumeration, untracked) no_more
  | inr (name, tracked) ↦ rw (Tool.scan_enumeration, tracked) (Clean-enumeration_signal t.config _)
]

Clean-matches_of : (rule tool : String) (m : Option String) → Clean (Tool.matches_of rule tool m)
unfolding get string_eq
Clean-matches_of rule tool none = no_more
Clean-matches_of rule tool (some m) = also refl no_more

module _ (rt : Runtime) (c : Tool.ToolConfig) (tool body : String) where
  Clean-scan_oversized : Clean (Tool.scan_oversized c tool body)
  unfolding Tool.scan_oversized get string_eq
  Clean-scan_oversized = Clean-if _ (also refl no_more) no_more

  Clean-scan_shell : Clean (Tool.scan_shell rt c tool body)
  unfolding Tool.scan_shell
  Clean-scan_shell = Clean-if _ (Clean-matches_of "shell_metachar" tool _) no_more

  Clean-scan_ssrf : Clean (Tool.scan_ssrf c tool body)
  unfolding Tool.scan_ssrf
  Clean-scan_ssrf = Clean-if _ (Clean-matches_of "ssrf_pattern" tool _) no_more

  Clean-scan_text : Clean (Tool.scan_text rt c tool body)
  unfolding Tool.scan_text
  Clean-scan_text =
      Clean-append Clean-scan_oversized (Clean-append Clean-scan_shell Clean-scan_ssrf)

pub Clean-tool :
    (rt : Runtime) (now : ℕ) (tool : String) (args : Args) (allowed : Option (List String))
    (thread : Option String) (t : Tool.ToolDetector)
    → Clean (Tool.scan rt now tool args allowed thread t).0
unfolding Tool.scan
Clean-tool rt now tool args allowed thread t = Clean-if_fst (not t.config.enabled) _ _ no_more (
    Clean-append (Clean-scan_allowlist t.config tool allowed) (
      Clean-append (Clean-scan_enumeration now tool thread t) (Clean-scan_text rt t.config tool _)))

Clean-under :
    (rules : List String) (rule : String) (ds : List Detection)
    → Clean ds
    → Clean (AttackSurface.under rules rule ds)
Clean-under rules rule ds h = Clean-if (contains rules rule) h no_more

Clean-pickle_backend :
    (saver serializer : Option String) → Clean (AttackSurface.pickle_backend saver serializer)
unfolding get string_eq
Clean-pickle_backend none s = no_more
Clean-pickle_backend (some a) none = no_more
Clean-pickle_backend (some a) (some s) = Clean-if _ (also refl no_more) no_more

Clean-unsigned_registry :
    (signed : Bool) (url : Option String) → Clean (AttackSurface.unsigned_registry signed url)
unfolding get string_eq
Clean-unsigned_registry signed none = no_more
Clean-unsigned_registry signed (some url) = Clean-if _ (also refl no_more) no_more

Clean-permissive_limit : (limit : Option ℕ) → Clean (AttackSurface.permissive_limit limit)
unfolding get string_eq
Clean-permissive_limit none = no_more
Clean-permissive_limit (some n) = Clean-if _ (also refl no_more) no_more

pub Clean-attack_surface :
    (c : AttackSurface.AttackSurfaceConfig) (info : AttackSurface.RuntimeInfo)
    → Clean (AttackSurface.scan c info)
unfolding AttackSurface.scan get string_eq
Clean-attack_surface c info =
    let pickle = Clean-pickle_backend info.checkpoint_saver info.checkpoint_serializer in
    let unsigned =
      Clean-unsigned_registry info.prompt_registry_signature_required info.prompt_registry_url in
    let limit = Clean-permissive_limit info.recursion_limit in
    let jinja = contains info.template_formats_in_use "jinja2" in
    let bare = info.server_mode && not info.server_auth_configured in
    Clean-if (not c.enabled) no_more (
      Clean-append (Clean-under c.rules "pickle_checkpoint_backend" _ pickle) (
        Clean-append (Clean-under c.rules "unsigned_prompt_registry" _ unsigned) (
          Clean-append
            (Clean-under c.rules "jinja2_template_format" _
              (Clean-if jinja (also refl no_more) no_more))
            (Clean-append (Clean-under c.rules "permissive_recursion_limit" _ limit) (
              Clean-under c.rules "server_without_auth" _
                (Clean-if bare (also refl no_more) no_more))))))
