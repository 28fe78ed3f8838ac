-- ===== src/Detector/Memory.antt =====
-- detectors/memory.py
use langgraph_lens.Prelude.{
  ℕ, String, Bool, not, ◌&&◌, ◌||◌, Option, none, some, List, [], ◌∷◌, ◌++◌, ltb, eqb, contains,
  if◌then◌else◌, string_eq, ◌==◌,
}
use langgraph_lens.Text.{text_length, split_on}
use langgraph_lens.Value.{Value, text, int}
use langgraph_lens.Event.{medium, high, Detection}
use langgraph_lens.Runtime.{Runtime, Unicode}
use langgraph_lens.Json.{json_dumps}
use langgraph_lens.Regex.{Regex, star, boundary, search_any}
use langgraph_lens.Regex.Classes.{is_word, lit, lit_i, words_i, all_of, opt, dot}

-- `MemoryConfig` of config.py
pub record MemoryConfig : Type 0 where
  pub enabled : Bool
  pub rules : List String
  pub max_entry_bytes : ℕ

-- `_SYSTEM_PROMPT_OVERRIDE_PATTERNS`
unfoldable pub override_patterns : Unicode → List Regex
unfolding words_i lit
override_patterns u =
    let b = boundary (is_word u) in
    all_of (b ∷ lit_i "you are now" ∷ b ∷ [])
    ∷ all_of (
        b
        ∷ lit_i "ignore "
        ∷ opt (lit_i "all ")
        ∷ words_i ("previous" ∷ "prior" ∷ "above" ∷ [])
        ∷ lit_i " instruction"
        ∷ opt (lit_i "s")
        ∷ b
        ∷ [])
    ∷ all_of (b ∷ lit_i "new system prompt" ∷ b ∷ [])
    ∷ all_of (
        b
        ∷ lit_i "act as"
        ∷ b
        ∷ star dot
        ∷ b
        ∷ words_i ("admin" ∷ "root" ∷ "developer mode" ∷ [])
        ∷ b
        ∷ [])
    ∷ all_of
        (lit "<" ∷ opt (lit "|") ∷ lit_i "im_start" ∷ opt (lit "|") ∷ lit ">" ∷ lit_i "system" ∷ [])
    ∷ []

-- `_stringify`
unfoldable pub stringify : Runtime → Value → String
stringify rt (text s) = s
stringify rt v = json_dumps rt.float_repr v

-- `_key_belongs_to`
unfoldable pub key_belongs_to : String → String → Bool
key_belongs_to key owner = contains (split_on (λ c. eqb c b'/' || eqb c b':') key) owner

-- `owner and not _key_belongs_to(key, owner)`
abbrev pub foreign_owner : String → Option String → Option String
foreign_owner key none = none
foreign_owner key (some owner) =
    if not (owner == "") && not (key_belongs_to key owner) then some owner else none

abbrev pub override_hit : String → Option String → List Detection
override_hit key none = []
override_hit key (some m) =
    record {
      detector = "memory";
      rule = "system_prompt_override";
      severity = high;
      extra = ("key", text key) ∷ ("match", text m) ∷ [];
    }
    ∷ []

abbrev pub oversized_hit : MemoryConfig → String → String → List Detection
oversized_hit c key body =
    if contains c.rules "oversized_entry" && ltb c.max_entry_bytes (text_length body)
    then record {
      detector = "memory";
      rule = "oversized_entry";
      severity = medium;
      extra =
          ("key", text key)
          ∷ ("bytes", int (text_length body))
          ∷ ("max_bytes", int c.max_entry_bytes)
          ∷ (
            "advisory",
            text "Oversized memory entries dominate retrieval and crowd out legitimate context.",
          )
          ∷ [];
    }
      ∷ []
    else []

abbrev pub foreign_hit : String → Option String → List Detection
foreign_hit key none = []
foreign_hit key (some owner) =
    record {
      detector = "memory";
      rule = "cross_tenant_key";
      severity = high;
      extra = ("key", text key) ∷ ("owner", text owner) ∷ [];
    }
    ∷ []

unfoldable pub scan : Runtime → MemoryConfig → String → Value → Option String → List Detection
scan rt c key value owner =
    let body = stringify rt value in
    if not c.enabled
    then []
    else (if contains c.rules "system_prompt_override"
        then override_hit key (search_any (override_patterns rt.unicode) body)
        else [])
      ++ (oversized_hit c key body
          ++ (if contains c.rules "cross_tenant_key"
              then foreign_hit key (foreign_owner key owner)
              else []))
