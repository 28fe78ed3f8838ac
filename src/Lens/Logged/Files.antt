-- ===== src/Lens/Logged/Files.antt =====
-- detectors/supply_chain.py: what is reported of a prompt file can be written to the log as it is.
use langgraph_lens.Prelude.{
  String, refl, not, Option, none, some, List, [], ◌∷◌, contains, string_eq, Option-cases, inl, inr,
}
use langgraph_lens.Prelude.Dict.{get}
use langgraph_lens.Runtime.{Unicode}
use langgraph_lens.Regex.{search_any}
use langgraph_lens.Event.Schema.{Clean, no_more, also, Clean-append, Clean-if}
use langgraph_lens.Detector.SupplyChain

Clean-ssti_hit : (file : String) (m : Option String) → Clean (SupplyChain.ssti_hit file m)
unfolding get string_eq
Clean-ssti_hit file none = no_more
Clean-ssti_hit file (some m) = also refl no_more

Clean-template_hit : (file : String) (m : Option String) → Clean (SupplyChain.template_hit file m)
unfolding get string_eq
Clean-template_hit file none = no_more
Clean-template_hit file (some m) = also refl no_more

Clean-traversal_hit : (path : String) (m : Option String) → Clean (SupplyChain.traversal_hit path m)
unfolding get string_eq
Clean-traversal_hit path none = no_more
Clean-traversal_hit path (some m) = also refl no_more

module _ (u : Unicode) (fs : SupplyChain.FileSystem) (c : SupplyChain.SupplyChainConfig) where
  Clean-scan_string : (body file : String) → Clean (SupplyChain.scan_string u c body file)
  unfolding SupplyChain.scan_string
  Clean-scan_string body file =
      Clean-append
        (Clean-if (contains c.rules "jinja_ssti")
          (Clean-ssti_hit file (search_any (SupplyChain.jinja_ssti_patterns u) body)) no_more)
        (Clean-if (contains c.rules "unsafe_chat_template")
          (Clean-template_hit file (search_any (SupplyChain.unsafe_chat_template_patterns u) body))
          no_more)

  Clean-scan_file : (path : String) → Clean (SupplyChain.scan_file u fs c path)
  unfolding SupplyChain.scan_file
  Clean-scan_file path = elim (Option-cases (fs.read_text path)) [
    | inl unread ↦ rw (SupplyChain.scan_file, unread) no_more
    | inr (body, read) ↦ rw (SupplyChain.scan_file, read) (Clean-scan_string body _)
  ]

  Clean-scan_children : (ps : List String) → Clean (SupplyChain.scan_children u fs c ps)
  unfolding SupplyChain.scan_children
  Clean-scan_children [] = no_more
  Clean-scan_children (p ∷ ps) =
      let suited = contains SupplyChain.template_suffixes (fs.suffix p) in
      Clean-append (Clean-if (fs.is_file p) (Clean-if suited (Clean-scan_file p) no_more) no_more)
        (Clean-scan_children ps)

  pub Clean-supply_chain : (path : String) → Clean (SupplyChain.scan_path u fs c path)
  unfolding SupplyChain.scan_path
  Clean-supply_chain path =
      let below = Clean-if (fs.is_dir path) (Clean-scan_children (fs.rglob path)) no_more in
      Clean-if (not c.enabled) no_more (
        Clean-append
          (Clean-if (contains c.rules "path_traversal") (Clean-traversal_hit path _) no_more)
          (Clean-if (fs.is_file path) (Clean-scan_file path) below))
