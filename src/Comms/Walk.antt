-- ===== src/Comms/Walk.antt =====
-- detectors/comms.py: the rule on edges, over the interleaved visits of many threads.
use langgraph_lens.Prelude.{
  ℕ, ◌≡◌, refl, ap, ◌∙◌, String, Bool, true, false, not, Option, none, some, List, [], ◌∷◌, ◌++◌,
  contains, arith, if◌then◌else◌, string_eq, pair_eq, ◌==◌, same_text,
}
use langgraph_lens.Prelude.Dict.{get, get-put}
use langgraph_lens.Runtime.{Runtime}
use langgraph_lens.Value.{Fields}
use langgraph_lens.Detector.Checkpoint.Opcodes.{reports, reports-append}
use langgraph_lens.Comms.{
  CommsConfig, CommsDetector, Edges, Traversal, has_edge, edge_hit, scan_edge, scan_recursion,
  scan_sends, target_hits, scan_growth, scan, send_targets,
}

-- A visit of a node by a thread, with what else `scan` is told.
pub record Visit : Type 0 where
  pub thread : String
  pub node : String
  pub state : Fields
  pub recursion_limit : Option ℕ
  pub recursion_depth : Option ℕ
  pub initial_state_size : Option ℕ

abbrev pub traversal : Edges → Visit → Traversal
traversal edges v = record {
  declared_edges = some edges;
  recursion_limit = v.recursion_limit;
  recursion_depth = v.recursion_depth;
  initial_state_size = v.initial_state_size;
  thread_id = some v.thread;
}

-- The visits in order, and for those of one thread whether `undeclared_edge` is reported.
unfoldable pub flagged : Runtime → Edges → String → List Visit → CommsDetector → List Bool
flagged rt edges thread [] t = []
flagged rt edges thread (v ∷ vs) t =
    let (ds, t') = scan rt v.node v.state (traversal edges v) t in
    let rest = flagged rt edges thread vs t' in
    if v.thread == thread then reports "undeclared_edge" ds ∷ rest else rest

-- The nodes that a thread visits.
abbrev pub path_of : String → List Visit → List String
path_of thread [] = []
path_of thread (v ∷ vs) =
    let rest = path_of thread vs in if v.thread == thread then v.node ∷ rest else rest

-- For each node of a path whether the step onto it is not declared.
abbrev pub strays : Edges → Option String → List String → List Bool
strays edges none [] = []
strays edges (some a) [] = []
strays edges none (b ∷ bs) = false ∷ strays edges (some b) bs
strays edges (some a) (b ∷ bs) = not (contains edges (a, b)) ∷ strays edges (some b) bs

has_edge_lem : (a b : String) (edges : Edges) → has_edge a b edges ≡ contains edges (a, b)
unfolding has_edge
has_edge_lem a b [] = refl
has_edge_lem a b ((x, y) ∷ edges) = ground (arith, has_edge_lem a b edges)

recursion_name : same_text "recursion_exceeded" "undeclared_edge" ≡ false
unfolding string_eq
recursion_name = refl

target_name : same_text "send_to_undeclared_target" "undeclared_edge" ≡ false
unfolding string_eq
target_name = refl

growth_name : same_text "oversized_state_growth" "undeclared_edge" ≡ false
unfolding string_eq
growth_name = refl

recursion_silent :
    (c : CommsConfig) (limit depth : Option ℕ)
    → reports "undeclared_edge" (scan_recursion c limit depth) ≡ false
unfolding scan_recursion
recursion_silent c limit depth = ground (arith, recursion_name)

targets_silent :
    (node : String) (edges : Edges) (ts : List String)
    → reports "undeclared_edge" (target_hits node edges ts) ≡ false
unfolding target_hits
targets_silent node edges [] = refl
targets_silent node edges (t ∷ ts) = ground (arith, target_name, targets_silent node edges ts)

sends_silent :
    (c : CommsConfig) (node : String) (state : Fields) (edges : Option Edges)
    → reports "undeclared_edge" (scan_sends c node state edges) ≡ false
unfolding scan_sends
sends_silent c node state none = refl
sends_silent c node state (some edges) =
    ground (arith, targets_silent node edges (send_targets state))

growth_silent :
    (rt : Runtime) (c : CommsConfig) (state : Fields) (size : Option ℕ)
    → reports "undeclared_edge" (scan_growth rt c state size) ≡ false
unfolding scan_growth
growth_silent rt c state size = ground (arith, growth_name)

reports-scan_edge :
    (rt : Runtime) (v : Visit) (edges : Edges) (t : CommsDetector)
    → t.config.enabled ≡ true
    → reports "undeclared_edge" (scan rt v.node v.state (traversal edges v) t).0
      ≡ reports "undeclared_edge" (scan_edge v.node (some edges) (some v.thread) t).0
unfolding scan
reports-scan_edge rt v edges t on =
    let (moved, t') = scan_edge v.node (some edges) (some v.thread) t in
    let recursion = scan_recursion t.config v.recursion_limit v.recursion_depth in
    let sends = scan_sends t.config v.node v.state (some edges) in
    let growth = scan_growth rt t.config v.state v.initial_state_size in
    ground (
      arith,
      on,
      reports-append "undeclared_edge" moved (recursion ++ (sends ++ growth)),
      reports-append "undeclared_edge" recursion (sends ++ growth),
      reports-append "undeclared_edge" sends growth,
      recursion_silent t.config v.recursion_limit v.recursion_depth,
      sends_silent t.config v.node v.state (some edges),
      growth_silent rt t.config v.state v.initial_state_size,
    )

edge_name : same_text "undeclared_edge" "undeclared_edge" ≡ true
unfolding string_eq
edge_name = refl

-- Whether the step onto a node is not declared.
abbrev stray : Edges → Option String → String → Bool
stray edges none node = false
stray edges (some a) node = not (contains edges (a, node))

hit_reported :
    (node : String) (edges : Edges) (previous : Option String)
    → reports "undeclared_edge" (edge_hit node edges previous) ≡ stray edges previous node
unfolding edge_hit
hit_reported node edges none = refl
hit_reported node edges (some a) = ground (arith, has_edge_lem a node edges, edge_name)

module _ (rt : Runtime) (v : Visit) (edges : Edges) (t : CommsDetector)
    (on : t.config.enabled ≡ true) (rule : contains t.config.rules "undeclared_edge" ≡ true) where
  step_reported :
      (v.thread == "") ≡ false
      → reports "undeclared_edge" (scan rt v.node v.state (traversal edges v) t).0
        ≡ stray edges (get v.thread t.last_node) v.node
  unfolding scan_edge
  step_reported named =
      reports-scan_edge rt v edges t on
      ∙ ground (arith, rule, named, hit_reported v.node edges (get v.thread t.last_node))

  step_config : (scan rt v.node v.state (traversal edges v) t).1.config ≡ t.config
  unfolding scan scan_edge
  step_config = ground arith

  step_last :
      (thread : String)
      → (thread == "") ≡ false
      → get thread (scan rt v.node v.state (traversal edges v) t).1.last_node
        ≡ (if thread == v.thread then some v.node else get thread t.last_node)
  unfolding scan scan_edge
  step_last thread named =
      ground (arith, on, rule, named, get-put thread v.thread v.node t.last_node)

-- With the detector and its rule on, the visits of one named thread are flagged exactly where a node
-- follows another along an edge that is not declared, starting from the thread's last node, whatever
-- other threads visit in between and whatever the states hold.
pub flagged-strays :
    (rt : Runtime) (edges : Edges) (thread : String) (vs : List Visit) (t : CommsDetector)
    → t.config.enabled ≡ true
    → contains t.config.rules "undeclared_edge" ≡ true
    → (thread == "") ≡ false
    → flagged rt edges thread vs t ≡ strays edges (get thread t.last_node) (path_of thread vs)
unfolding flagged
flagged-strays rt edges thread [] t on rule named = ground arith
flagged-strays rt edges thread (v ∷ vs) t on rule named =
    let t' = (scan rt v.node v.state (traversal edges v) t).1 in
    let same = step_config rt v edges t on rule in
    let next = step_last rt v edges t on rule thread named in
    let later =
      flagged-strays rt edges thread vs t' (ap (λ c. c.enabled) same ∙ on)
        (ap (λ c. contains c.rules "undeclared_edge") same ∙ rule) named in
    elim (string_eq.dec v.thread thread) [
      | yes own ↦
          let nonempty = ap (λ x. same_text x "") own ∙ named in
          let here =
            step_reported rt v edges t on rule nonempty
            ∙ ap (λ x. stray edges (get x t.last_node) v.node) own in
          ground (arith, own, here, next, later)
      | no other ↦ ground (arith, other, next, later)
    ]
