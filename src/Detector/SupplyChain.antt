-- ===== src/Detector/SupplyChain.antt =====
-- detectors/supply_chain.py: prompt templates, as texts and as files. What `pathlib` says of a path
-- is a parameter.
pub mod Reach
use langgraph_lens.Prelude.{
  String, Bool, not, Option, none, some, List, [], ◌∷◌, ◌++◌, eqb, contains, if◌then◌else◌,
  string_eq,
}
use langgraph_lens.Runtime.{Unicode}
use langgraph_lens.Regex.{Regex, class, star, start, search_any}
use langgraph_lens.Regex.Classes.{is_word, is_space, lit, all_of, words, plus}
use langgraph_lens.Value.{Value, text}
use langgraph_lens.Event.{Severity, high, critical, Detection}

-- `SupplyChainConfig` of config.py
pub record SupplyChainConfig : Type 0 where
  pub enabled : Bool
  pub rules : List String

-- What `pathlib` says of a path: its text, whether it is a file or a directory, all paths below it
-- in order, its suffix, and the text of the file, or `none` for an `OSError`.
pub record FileSystem : Type 0 where
  pub path_text : String → String
  pub is_file : String → Bool
  pub is_dir : String → Bool
  pub rglob : String → List String
  pub suffix : String → String
  pub read_text : String → Option String

-- `[^}]*`, `[^%]*`
abbrev no_brace : Regex
no_brace = star (class (λ c. not (eqb c b'}')))

abbrev no_percent : Regex
no_percent = star (class (λ c. not (eqb c b'%')))

-- `\{\{[^}]*name[^}]*\}\}`
unfoldable pub braced : String → Regex
braced name = all_of (lit "{{" ∷ no_brace ∷ lit name ∷ no_brace ∷ lit "}}" ∷ [])

-- `_JINJA_SSTI_PATTERNS`
unfoldable pub jinja_ssti_patterns : Unicode → List Regex
jinja_ssti_patterns u =
    let spaces = star (class (is_space u)) in
    let word = plus (class (is_word u)) in
    braced "__class__"
    ∷ braced "__mro__"
    ∷ braced "__subclasses__"
    ∷ braced "__globals__"
    ∷ braced "config.__class__"
    ∷ all_of (
        lit "{%"
        ∷ spaces
        ∷ lit "set"
        ∷ plus (class (is_space u))
        ∷ word
        ∷ spaces
        ∷ lit "="
        ∷ spaces
        ∷ no_percent
        ∷ lit "__"
        ∷ word
        ∷ lit "__"
        ∷ no_percent
        ∷ lit "%}"
        ∷ [])
    ∷ []

-- `_PATH_TRAVERSAL_PATTERNS`
unfoldable pub path_traversal_patterns : List Regex
path_traversal_patterns =
    lit "../"
    ∷ lit "..\\"
    ∷ all_of (start ∷ lit "/" ∷ words ("etc" ∷ "root" ∷ "home" ∷ []) ∷ lit "/" ∷ [])
    ∷ lit "file:///"
    ∷ []

-- `_UNSAFE_CHAT_TEMPLATE_PATTERNS`
unfoldable pub unsafe_chat_template_patterns : Unicode → List Regex
unsafe_chat_template_patterns u =
    let spaces = star (class (is_space u)) in
    all_of (
      lit "{{"
      ∷ spaces
      ∷ lit "messages"
      ∷ spaces
      ∷ lit "|"
      ∷ spaces
      ∷ lit "safe"
      ∷ spaces
      ∷ lit "}}"
      ∷ [])
    ∷ all_of (lit "autoescape" ∷ spaces ∷ lit "=" ∷ spaces ∷ lit "False" ∷ [])
    ∷ []

abbrev pub detect : String → Severity → List (String × Value) → List Detection
detect rule severity extra =
    record { detector = "supply_chain"; rule = rule; severity = severity; extra = extra } ∷ []

abbrev pub ssti_hit : String → Option String → List Detection
ssti_hit file none = []
ssti_hit file (some m) = detect "jinja_ssti" critical (
    ("file", text file)
    ∷ ("match", text m)
    ∷ ("advisory", text "Jinja2 SSTI signature — CVE-2026-34070 shape.")
    ∷ [])

abbrev pub template_hit : String → Option String → List Detection
template_hit file none = []
template_hit file (some m) =
    detect "unsafe_chat_template" high (("file", text file) ∷ ("match", text m) ∷ [])

-- `_scan_string`
unfoldable pub scan_string : Unicode → SupplyChainConfig → String → String → List Detection
scan_string u c body filename =
    (if contains c.rules "jinja_ssti"
      then ssti_hit filename (search_any (jinja_ssti_patterns u) body)
      else [])
    ++ (if contains c.rules "unsafe_chat_template"
        then template_hit filename (search_any (unsafe_chat_template_patterns u) body)
        else [])

-- `scan_text`
unfoldable pub scan_text : Unicode → SupplyChainConfig → String → String → List Detection
scan_text u c body filename = if not c.enabled then [] else scan_string u c body filename

-- `_scan_file`
unfoldable pub scan_file : Unicode → FileSystem → SupplyChainConfig → String → List Detection
scan_file u fs c path = elim (fs.read_text path) [
  | none ↦ []
  | some body ↦ scan_string u c body (fs.path_text path)
]

abbrev pub template_suffixes : List String
template_suffixes = ".jinja2" ∷ ".j2" ∷ ".tmpl" ∷ ".prompt" ∷ ".txt" ∷ ".yaml" ∷ ".yml" ∷ []

-- The files below a directory that have such a suffix
unfoldable pub scan_children :
    Unicode → FileSystem → SupplyChainConfig → List String → List Detection
scan_children u fs c [] = []
scan_children u fs c (p ∷ ps) =
    (if fs.is_file p
      then (if contains template_suffixes (fs.suffix p) then scan_file u fs c p else [])
      else [])
    ++ scan_children u fs c ps

abbrev pub traversal_hit : String → Option String → List Detection
traversal_hit path none = []
traversal_hit path (some m) = detect "path_traversal" high (("path", text path) ∷ [])

-- `scan_path`
unfoldable pub scan_path : Unicode → FileSystem → SupplyChainConfig → String → List Detection
scan_path u fs c path =
    if not c.enabled
    then []
    else (if contains c.rules "path_traversal"
        then traversal_hit path (search_any path_traversal_patterns path)
        else [])
      ++ (if fs.is_file path
          then scan_file u fs c path
          else if fs.is_dir path
          then scan_children u fs c (fs.rglob path)
          else [])
