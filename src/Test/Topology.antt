-- ===== src/Test/Topology.antt =====
-- A compiled graph with an edge, which is also an end of a branch, and another end.
use langgraph_lens.Prelude.{◌≡◌, true, [], ◌∷◌, contains, string_eq, pair_eq}
use langgraph_lens.Topology.{extract_topology, is_distinct}
use langgraph_lens.Topology.Compiled.{Branches, compiled_graph, extract_topology-compiled_graph}

abbrev routes : Branches
routes = ("plan", ("route", ("yes", "act") ∷ ("no", "stop") ∷ []) ∷ []) ∷ []

extract_topology-compiled_graph_example :
    (contains (extract_topology (compiled_graph (("plan", "act") ∷ []) routes)) ("plan", "stop")
      ≡ true)
    × (is_distinct (extract_topology (compiled_graph (("plan", "act") ∷ []) routes)) ≡ true)
unfolding string_eq pair_eq
extract_topology-compiled_graph_example =
    extract_topology-compiled_graph (("plan", "act") ∷ []) routes "plan" "stop"
