-- ===== src/Detector/SqlInjection.antt =====
-- detectors/sql_injection.py
pub mod Found
use langgraph_lens.Prelude.{
  String, Bool, not, ◌||◌, List, [], ◌∷◌, ◌++◌, none, some, Option, contains, if◌then◌else◌,
  string_eq,
}
use langgraph_lens.Value.{text}
use langgraph_lens.Event.{Severity, high, critical, Detection}
use langgraph_lens.Runtime.{Unicode}
use langgraph_lens.Regex.{Regex, class, seq, star, boundary, search_text}
use langgraph_lens.Regex.Classes.{
  is_word, is_space, one_of, lit, lit_i, words, words_i, any_of, all_of, any_char,
}

-- `SQLInjectionConfig` of config.py
pub record SqlInjectionConfig : Type 0 where
  pub enabled : Bool
  pub rules : List String
  pub fields : List String

pub record Pattern : Type 0 where
  pub name : String
  pub regex : Regex
  pub severity : Severity

-- `_PATTERNS`
unfoldable pub patterns : Unicode → List Pattern
unfolding one_of lit words words_i
patterns u =
    record {
      name = "union_select";
      regex = all_of (
          boundary (is_word u)
          ∷ lit_i "union"
          ∷ boundary (is_word u)
          ∷ star any_char
          ∷ boundary (is_word u)
          ∷ lit_i "select"
          ∷ boundary (is_word u)
          ∷ []);
      severity = critical;
    }
    ∷ record {
      name = "comment_terminator";
      regex =
          all_of (
            class (one_of "'\";")
            ∷ star (class (is_space u))
            ∷ words ("--" ∷ "#" ∷ "/*" ∷ [])
            ∷ []);
      severity = high;
    }
    ∷ record {
      name = "stacked_query";
      regex = all_of (
          lit ";"
          ∷ star (class (is_space u))
          ∷ words_i ("drop" ∷ "truncate" ∷ "delete" ∷ "update" ∷ "insert" ∷ "alter" ∷ [])
          ∷ boundary (is_word u)
          ∷ []);
      severity = critical;
    }
    ∷ record {
      name = "metadata_escape";
      regex = any_of (
          lit "}'"
          ∷ lit_i "::regclass"
          ∷ seq (lit_i "pg_") (words_i ("sleep" ∷ "read_file" ∷ []))
          ∷ lit_i "information_schema"
          ∷ []);
      severity = high;
    }
    ∷ []

abbrev pub hit_of : String → Pattern → Option String → List Detection
hit_of field_name p none = []
hit_of field_name p (some m) =
    record {
      detector = "sql_injection";
      rule = p.name;
      severity = p.severity;
      extra = ("field", text field_name) ∷ ("match", text m) ∷ [];
    }
    ∷ []

-- The loop of `scan` over the patterns.
unfoldable pub scan_patterns : List String → String → String → List Pattern → List Detection
scan_patterns rules field_name value [] = []
scan_patterns rules field_name value (p ∷ ps) =
    (if contains rules p.name then hit_of field_name p (search_text p.regex value) else [])
    ++ scan_patterns rules field_name value ps

unfoldable pub scan : Unicode → SqlInjectionConfig → String → String → List Detection
unfolding scan_patterns patterns
scan u c field_name value =
    if not c.enabled || not (contains c.fields field_name)
    then []
    else scan_patterns c.rules field_name value (patterns u)
