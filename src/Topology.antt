-- ===== src/Topology.antt =====
-- integrations/topology.py: the declared edges of a graph, each kept once. A graph of LangGraph is
-- any Python value; a tuple or a set is a list here.
pub mod Compiled
use langgraph_lens.Prelude.{
  String, ◌≡◌, refl, Bool, true, false, not, ◌&&◌, [], ◌∷◌, ◌++◌, Option, none, some, arith,
  contains, string_eq, pair_eq,
}
use langgraph_lens.Value.{
  Value, null, text, list, dict, object, Items, nil, cons, Fields, end, field, lookup,
}
use langgraph_lens.Comms.{Edges}

-- The loop of `_dedupe`, with the set `seen`
unfoldable pub dedupe_from : Edges → Edges → Edges
dedupe_from seen [] = []
dedupe_from seen (e ∷ es) = elim (contains seen e) [
  | true ↦ dedupe_from seen es
  | false ↦ e ∷ dedupe_from (e ∷ seen) es
]

-- `_dedupe`
unfoldable pub dedupe : Edges → Edges
dedupe es = dedupe_from [] es

-- No edge occurs twice.
abbrev pub is_distinct : Edges → Bool
is_distinct [] = true
is_distinct (e ∷ es) = not (contains es e) && is_distinct es

contains-dedupe_from :
    (x : String × String) (seen es : Edges)
    → contains (dedupe_from seen es) x ≡ (contains es x && not (contains seen x))
unfolding dedupe_from
contains-dedupe_from x seen [] = refl
contains-dedupe_from x seen (e ∷ es) =
    ground (arith, contains-dedupe_from x seen es, contains-dedupe_from x (e ∷ seen) es)

is_distinct-dedupe_from : (seen es : Edges) → is_distinct (dedupe_from seen es) ≡ true
unfolding dedupe_from
is_distinct-dedupe_from seen [] = refl
is_distinct-dedupe_from seen (e ∷ es) = ground (
  arith,
  is_distinct-dedupe_from seen es,
  is_distinct-dedupe_from (e ∷ seen) es,
  contains-dedupe_from e (e ∷ seen) es,
)

-- The edges that are kept are those that were read, and none is kept twice.
pub dedupe_lem :
    (es : Edges)
    → ((x : String × String) → contains (dedupe es) x ≡ contains es x)
      × (is_distinct (dedupe es) ≡ true)
unfolding dedupe
dedupe_lem es = (λ x. ground (arith, contains-dedupe_from x [] es), is_distinct-dedupe_from [] es)

-- `getattr(value, name, None)`
unfoldable pub attribute : String → Value → Option Value
attribute name (object shown fs) = elim (lookup name fs) [ some null ↦ none | o ↦ o ]
attribute name v = none

-- `_coerce_pair`
unfoldable pub coerce_pair : Value → Edges
coerce_pair (list (cons (text a) (cons (text b) nil))) = (a, b) ∷ []
coerce_pair v = []

unfoldable pub pairs_of : Items → Edges
pairs_of nil = []
pairs_of (cons v vs) = coerce_pair v ++ pairs_of vs

-- The edges from a node to the texts among the values.
unfoldable pub edges_to : String → Items → Edges
edges_to src nil = []
edges_to src (cons (text dst) vs) = (src, dst) ∷ edges_to src vs
edges_to src (cons v vs) = edges_to src vs

-- `values()`
unfoldable pub values : Fields → Items
values end = nil
values (field k v fs) = cons v (values fs)

-- `ends` of a branch, a dictionary or a list
unfoldable pub ends_of : String → Option Value → Edges
ends_of src (some (dict fs)) = edges_to src (values fs)
ends_of src (some (list vs)) = edges_to src vs
ends_of src o = []

unfoldable pub branch_edges : String → Items → Edges
branch_edges src nil = []
branch_edges src (cons branch vs) = ends_of src (attribute "ends" branch) ++ branch_edges src vs

-- The edges of the branches that leave each node.
unfoldable pub branches_of : Fields → Edges
branches_of end = []
branches_of (field src (dict by_branch) fs) = branch_edges src (values by_branch) ++ branches_of fs
branches_of (field src v fs) = branches_of fs

-- `raw_edges`, a list or a set
unfoldable pub raw_edges : Option Value → Edges
raw_edges (some (list vs)) = pairs_of vs
raw_edges o = []

unfoldable pub conditional_edges : Option Value → Edges
conditional_edges (some (dict fs)) = branches_of fs
conditional_edges o = []

abbrev builder_or : Value → Option Value → Value
builder_or graph none = graph
builder_or graph (some builder) = builder

-- `extract_topology`
unfoldable pub extract_topology : Value → Edges
extract_topology graph =
    let builder = builder_or graph (attribute "builder" graph) in
    dedupe
      (raw_edges (attribute "edges" builder) ++ conditional_edges (attribute "branches" builder))
