-- ===== src/Topology/Compiled.antt =====
-- integrations/topology.py: the edges that are read from a compiled graph, against those it was built
-- of. A compiled graph is an object with a builder, whose `edges` are pairs and whose `branches` hold,
-- by node and name, an object with a dictionary `ends`.
use langgraph_lens.Prelude.{
  String, ◌≡◌, refl, ap, ◌∙◌, true, ◌||◌, List, [], ◌∷◌, ◌++◌, arith, contains, string_eq, pair_eq,
}
use langgraph_lens.Value.{
  Value, text, list, dict, object, Items, nil, cons, Fields, end, field, lookup,
}
use langgraph_lens.Comms.{Edges}
use langgraph_lens.Topology.{
  dedupe, is_distinct, dedupe_lem, attribute, coerce_pair, pairs_of, edges_to, values, ends_of,
  branch_edges, branches_of, raw_edges, conditional_edges, extract_topology,
}

-- The branches of a graph: by node and by name, the ends under their labels.
abbrev pub Branches : Type 0
Branches = List (String × List (String × List (String × String)))

abbrev edge_items : Edges → Items
edge_items [] = nil
edge_items ((a, b) ∷ es) = cons (list (cons (text a) (cons (text b) nil))) (edge_items es)

abbrev end_fields : List (String × String) → Fields
end_fields [] = end
end_fields ((label, dst) ∷ ends) = field label (text dst) (end_fields ends)

abbrev name_fields : List (String × List (String × String)) → Fields
name_fields [] = end
name_fields ((name, ends) ∷ bs) =
    field name (object name (field "ends" (dict (end_fields ends)) end)) (name_fields bs)

abbrev node_fields : Branches → Fields
node_fields [] = end
node_fields ((src, bs) ∷ nodes) = field src (dict (name_fields bs)) (node_fields nodes)

-- The compiled graph with these edges and branches.
abbrev pub compiled_graph : Edges → Branches → Value
compiled_graph es nodes = object "graph" (
    field "builder"
      (object "builder"
        (field "edges" (list (edge_items es)) (field "branches" (dict (node_fields nodes)) end)))
      end)

-- One edge for each end.
abbrev pub ends_from : String → List (String × String) → Edges
ends_from src [] = []
ends_from src ((label, dst) ∷ ends) = (src, dst) ∷ ends_from src ends

abbrev pub named_ends : String → List (String × List (String × String)) → Edges
named_ends src [] = []
named_ends src ((name, ends) ∷ bs) = ends_from src ends ++ named_ends src bs

abbrev pub branch_ends : Branches → Edges
branch_ends [] = []
branch_ends ((src, bs) ∷ nodes) = named_ends src bs ++ branch_ends nodes

pairs_of-edge_items : (es : Edges) → pairs_of (edge_items es) ≡ es
unfolding pairs_of coerce_pair
pairs_of-edge_items [] = refl
pairs_of-edge_items ((a, b) ∷ es) = ap (λ l. (a, b) ∷ l) (pairs_of-edge_items es)

edges_to-end_fields :
    (src : String) (ends : List (String × String))
    → edges_to src (values (end_fields ends)) ≡ ends_from src ends
unfolding edges_to values
edges_to-end_fields src [] = refl
edges_to-end_fields src ((label, dst) ∷ ends) =
    ap (λ l. (src, dst) ∷ l) (edges_to-end_fields src ends)

branch_edges-name_fields :
    (src : String) (bs : List (String × List (String × String)))
    → branch_edges src (values (name_fields bs)) ≡ named_ends src bs
unfolding branch_edges values ends_of attribute lookup string_eq
branch_edges-name_fields src [] = refl
branch_edges-name_fields src ((name, ends) ∷ bs) =
    rw (edges_to-end_fields src ends, branch_edges-name_fields src bs) refl

branches_of-node_fields : (nodes : Branches) → branches_of (node_fields nodes) ≡ branch_ends nodes
unfolding branches_of
branches_of-node_fields [] = refl
branches_of-node_fields ((src, bs) ∷ nodes) =
    rw (branch_edges-name_fields src bs, branches_of-node_fields nodes) refl

contains-append :
    (es fs : Edges) (x : String × String) → contains (es ++ fs) x ≡ (contains es x || contains fs x)
contains-append [] fs x = refl
contains-append (e ∷ es) fs x = ground (arith, contains-append es fs x)

extract_topology-dedupe :
    (es : Edges) (nodes : Branches)
    → extract_topology (compiled_graph es nodes) ≡ dedupe (es ++ branch_ends nodes)
unfolding extract_topology attribute lookup string_eq raw_edges conditional_edges
extract_topology-dedupe es nodes = rw (pairs_of-edge_items es, branches_of-node_fields nodes) refl

-- What is read from a compiled graph holds an edge exactly if it is an edge of the graph or leads to
-- an end of a branch, and holds no edge twice.
pub extract_topology-compiled_graph :
    (es : Edges) (nodes : Branches) (a b : String)
    → let read = extract_topology (compiled_graph es nodes) in
      (contains read (a, b) ≡ (contains es (a, b) || contains (branch_ends nodes) (a, b)))
      × (is_distinct read ≡ true)
extract_topology-compiled_graph es nodes a b =
    let (same, once) = dedupe_lem (es ++ branch_ends nodes) in
    (
      rw (extract_topology-dedupe es nodes)
          (same (a, b) ∙ contains-append es (branch_ends nodes) (a, b)),
      rw (extract_topology-dedupe es nodes) once,
    )
