-- ===== src/Detector/SupplyChain/Reach.antt =====
-- detectors/supply_chain.py: which files a scan of a path reads, and what it reports of them.
use langgraph_lens.Prelude.{
  ◌≡◌, ◌↔◌, inl, inr, refl, sym, ◌∙◌, subst, Bool, true, false, String, Option, none, some, List,
  [], ◌∷◌, Option-cases, Bool-cases, contains, arith, string_eq, same_text, if◌then◌else◌,
}
use langgraph_lens.Runtime.{Unicode}
use langgraph_lens.Event.{Detection}
use langgraph_lens.Regex.{search_any}
use langgraph_lens.Regex.Search.{OccursAny, search_any_lem}
use langgraph_lens.Detector.Checkpoint.Opcodes.{reports, reports-append}
use langgraph_lens.Detector.SupplyChain.{
  SupplyChainConfig, FileSystem, jinja_ssti_patterns, unsafe_chat_template_patterns,
  path_traversal_patterns, template_suffixes, ssti_hit, template_hit, traversal_hit, scan_string,
  scan_file, scan_children, scan_path,
}

-- The files that a scan of a path reads: the path itself, or the files with the suffix of a template
-- below it, if it is a directory.
pub data IsRead (fs : FileSystem) (path : String) : String → Type 0 where
  itself : fs.is_file path ≡ true → IsRead fs path path
  below :
      (p : String)
      → fs.is_file path ≡ false
      → fs.is_dir path ≡ true
      → contains (fs.rglob path) p ≡ true
      → fs.is_file p ≡ true
      → contains template_suffixes (fs.suffix p) ≡ true
      → IsRead fs path p

-- The file can be read, and a pattern of template injection occurs in its text.
abbrev pub IsInjected : Unicode → FileSystem → String → Type 0
IsInjected u fs p =
    (body : String) × (fs.read_text p ≡ some body) × OccursAny (jinja_ssti_patterns u) body

abbrev is_some : Option String → Bool
is_some none = false
is_some (some s) = true

names :
    (same_text "jinja_ssti" "jinja_ssti" ≡ true)
    × (same_text "unsafe_chat_template" "jinja_ssti" ≡ false)
    × (same_text "path_traversal" "jinja_ssti" ≡ false)
unfolding string_eq
names = (refl, refl, refl)

template_silent :
    (file : String) (o : Option String) → reports "jinja_ssti" (template_hit file o) ≡ false
template_silent file o = ground (arith, names.1)

traversal_silent :
    (path : String) (o : Option String) → reports "jinja_ssti" (traversal_hit path o) ≡ false
traversal_silent path o = ground (arith, names.2)

ssti_reported :
    (file : String) (o : Option String) → reports "jinja_ssti" (ssti_hit file o) ≡ is_some o
ssti_reported file o = ground (arith, names.0)

module _ (u : Unicode) (fs : FileSystem) (c : SupplyChainConfig)
    (rule : contains c.rules "jinja_ssti" ≡ true) where
  string_reported :
      (body file : String)
      → reports "jinja_ssti" (scan_string u c body file)
        ≡ is_some (search_any (jinja_ssti_patterns u) body)
  unfolding scan_string
  string_reported body file =
      let hit = ssti_hit file (search_any (jinja_ssti_patterns u) body) in
      let more =
        if contains c.rules "unsafe_chat_template"
        then template_hit file (search_any (unsafe_chat_template_patterns u) body)
        else [] in
      ground (
        arith,
        rule,
        reports-append "jinja_ssti" hit more,
        ssti_reported file (search_any (jinja_ssti_patterns u) body),
        template_silent file (search_any (unsafe_chat_template_patterns u) body),
      )

  file-IsInjected :
      (p : String) → reports "jinja_ssti" (scan_file u fs c p) ≡ true → IsInjected u fs p
  unfolding scan_file
  file-IsInjected p h = elim (Option-cases (fs.read_text p)) [
    | inl unread ↦ ground (arith, unread, h)
    | inr (body, there) ↦ elim (Option-cases (search_any (jinja_ssti_patterns u) body)) [
      | inl clean ↦ ground (arith, there, clean, string_reported body (fs.path_text p), h)
      | inr (m, goes) ↦ (body, there, (search_any_lem (jinja_ssti_patterns u) body).0 (m, goes))
    ]
  ]

  IsInjected-file :
      (p : String) → IsInjected u fs p → reports "jinja_ssti" (scan_file u fs c p) ≡ true
  unfolding scan_file
  IsInjected-file p (body, there, o) =
      let (m, goes) = (search_any_lem (jinja_ssti_patterns u) body).1 o in
      ground (arith, there, goes, string_reported body (fs.path_text p))

  -- What one entry of a directory adds.
  child_hit : String → List Detection
  child_hit p =
      if fs.is_file p
      then (if contains template_suffixes (fs.suffix p) then scan_file u fs c p else [])
      else []

  -- An entry of the list is a template and is injected.
  InjectedBelow : List String → Type 0
  InjectedBelow ps =
      (p : String) × (contains ps p ≡ true)
      × (fs.is_file p ≡ true)
      × (contains template_suffixes (fs.suffix p) ≡ true)
      × IsInjected u fs p

  children-InjectedBelow :
      (ps : List String) → reports "jinja_ssti" (scan_children u fs c ps) ≡ true → InjectedBelow ps
  unfolding scan_children child_hit InjectedBelow
  children-InjectedBelow [] h = ground (arith, h)
  children-InjectedBelow (p ∷ ps) h =
      let either = sym (reports-append "jinja_ssti" (child_hit p) (scan_children u fs c ps)) ∙ h in
      elim (Bool-cases (reports "jinja_ssti" (child_hit p))) [
        | inl here ↦
            let file : fs.is_file p ≡ true = ground (arith, here) in
            let template : contains template_suffixes (fs.suffix p) ≡ true =
              ground (arith, here, file) in
            let found : reports "jinja_ssti" (scan_file u fs c p) ≡ true =
              ground (arith, here, file, template) in
            (p, ground arith, file, template, file-IsInjected p found)
        | inr miss ↦
            let (q, listed, file, template, bad) =
              children-InjectedBelow ps (ground (arith, miss, either)) in
            (q, ground (arith, listed), file, template, bad)
      ]

  InjectedBelow-children :
      (ps : List String) → InjectedBelow ps → reports "jinja_ssti" (scan_children u fs c ps) ≡ true
  unfolding scan_children child_hit InjectedBelow
  InjectedBelow-children [] (q, listed, file, template, bad) = ground (arith, listed)
  InjectedBelow-children (p ∷ ps) (q, listed, file, template, bad) =
      reports-append "jinja_ssti" (child_hit p) (scan_children u fs c ps)
      ∙ elim (string_eq.dec q p) [
        | yes same ↦
            let bad_p = subst (IsInjected u fs) same bad in
            let file_p = subst (λ x. fs.is_file x ≡ true) same file in
            let template_p =
              subst (λ x. contains template_suffixes (fs.suffix x) ≡ true) same template in
            ground (arith, file_p, template_p, IsInjected-file p bad_p)
        | no other ↦
            let later : contains ps q ≡ true = ground (arith, listed, other) in
            ground (arith, InjectedBelow-children ps (q, later, file, template, bad))
      ]

  path_hit : String → List Detection
  path_hit path =
      if contains c.rules "path_traversal"
      then traversal_hit path (search_any path_traversal_patterns path)
      else []

  path_silent : (path : String) → reports "jinja_ssti" (path_hit path) ≡ false
  unfolding path_hit
  path_silent path = ground (arith, traversal_silent path (search_any path_traversal_patterns path))

  content_hit : String → List Detection
  content_hit path =
      if fs.is_file path
      then scan_file u fs c path
      else if fs.is_dir path
      then scan_children u fs c (fs.rglob path)
      else []

  path_reported :
      (path : String)
      → c.enabled ≡ true
      → reports "jinja_ssti" (scan_path u fs c path) ≡ reports "jinja_ssti" (content_hit path)
  unfolding scan_path path_hit content_hit
  path_reported path on =
      ground (
        arith,
        on,
        reports-append "jinja_ssti" (path_hit path) (content_hit path),
        path_silent path,
      )

  content-IsInjected :
      (path : String)
      → reports "jinja_ssti" (content_hit path) ≡ true
      → (p : String) × IsRead fs path p × IsInjected u fs p
  unfolding content_hit InjectedBelow
  content-IsInjected path h = elim (Bool-cases (fs.is_file path)) [
    | inl file ↦ (path, itself file, file-IsInjected path (ground (arith, file, h)))
    | inr other ↦
        let dir : fs.is_dir path ≡ true = ground (arith, other, h) in
        let (p, listed, file, template, bad) =
          children-InjectedBelow (fs.rglob path) (ground (arith, other, dir, h)) in
        (p, below p other dir listed file template, bad)
  ]

  IsInjected-content :
      (path p : String)
      → IsRead fs path p
      → IsInjected u fs p
      → reports "jinja_ssti" (content_hit path) ≡ true
  unfolding content_hit InjectedBelow
  IsInjected-content path _ (itself file) bad = ground (arith, file, IsInjected-file path bad)
  IsInjected-content path _ (below p other dir listed file template) bad =
      ground
        (arith, other, dir, InjectedBelow-children (fs.rglob path) (p, listed, file, template, bad))

-- With the detector and the rule on, a path is reported for template injection exactly if one of the
-- files that the scan is to read, the path itself or a template below it, can be read and has a text
-- in which one of the patterns accepts some part.
pub scan_path-IsInjected :
    (u : Unicode) (fs : FileSystem) (c : SupplyChainConfig) (path : String)
    → c.enabled ≡ true
    → contains c.rules "jinja_ssti" ≡ true
    → (reports "jinja_ssti" (scan_path u fs c path) ≡ true)
      ↔ ((p : String) × IsRead fs path p × IsInjected u fs p)
scan_path-IsInjected u fs c path on rule =
    let same = path_reported u fs c rule path on in
    (
      λ h. content-IsInjected u fs c rule path (sym same ∙ h),
      λ (p, read, bad). same ∙ IsInjected-content u fs c rule path p read bad,
    )
