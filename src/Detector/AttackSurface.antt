-- ===== src/Detector/AttackSurface.antt =====
-- detectors/attack_surface.py
use langgraph_lens.Prelude.{
  ℕ, String, Bool, not, ◌&&◌, Option, none, some, List, [], ◌∷◌, ◌++◌, ltb, contains, if◌then◌else◌,
  string_eq, ◌==◌,
}
use langgraph_lens.Prelude.Dict.{Dict}
use langgraph_lens.Value.{Value, text, int}
use langgraph_lens.Event.{Severity, low, medium, high, critical, Detection}

-- `AttackSurfaceConfig` of config.py
pub record AttackSurfaceConfig : Type 0 where
  pub enabled : Bool
  pub rules : List String

pub record RuntimeInfo : Type 0 where
  pub checkpoint_saver : Option String
  pub checkpoint_serializer : Option String
  pub prompt_registry_url : Option String
  pub prompt_registry_signature_required : Bool
  pub template_formats_in_use : List String
  pub recursion_limit : Option ℕ
  pub server_mode : Bool
  pub server_auth_configured : Bool

abbrev pub detect : String → Severity → Dict String Value → Detection
detect rule severity extra = record {
  detector = "attack_surface";
  rule = rule;
  severity = severity;
  extra = extra;
}

abbrev pub pickle_backed : List String
pickle_backed = "JsonPlusSerializer" ∷ "PickleSerializer" ∷ "JsonPlusPickleSerializer" ∷ []

abbrev pub pickle_backend : Option String → Option String → List Detection
pickle_backend (some saver) (some serializer) =
    if contains pickle_backed serializer
      && not (saver == "")
      && not (contains ("MemorySaver" ∷ "InMemorySaver" ∷ []) saver)
    then detect "pickle_checkpoint_backend" high (
        ("saver", text saver)
        ∷ ("serializer", text serializer)
        ∷ (
          "advisory",
          text
              "CVE-2026-27794/28277 affects pickle-fallback serializers in multi-tenant deployments.",
        )
        ∷ [])
      ∷ []
    else []
pickle_backend _ _ = []

abbrev pub unsigned_registry : Bool → Option String → List Detection
unsigned_registry signed none = []
unsigned_registry signed (some url) =
    if not (url == "") && not signed
    then detect "unsigned_prompt_registry" high (("prompt_registry_url", text url) ∷ []) ∷ []
    else []

abbrev pub permissive_limit : Option ℕ → List Detection
permissive_limit none = []
permissive_limit (some limit) =
    if ltb 100 limit
    then detect "permissive_recursion_limit" low (("recursion_limit", int limit) ∷ []) ∷ []
    else []

-- A part of `scan` under its rule.
abbrev pub under : List String → String → List Detection → List Detection
under rules rule found = if contains rules rule then found else []

unfoldable pub scan : AttackSurfaceConfig → RuntimeInfo → List Detection
scan c info =
    if not c.enabled
    then []
    else under c.rules "pickle_checkpoint_backend"
        (pickle_backend info.checkpoint_saver info.checkpoint_serializer)
      ++ (under c.rules "unsigned_prompt_registry"
            (unsigned_registry info.prompt_registry_signature_required info.prompt_registry_url)
          ++ (under c.rules "jinja2_template_format" (
                if contains info.template_formats_in_use "jinja2"
                then detect "jinja2_template_format" medium (
                    (
                      "advisory",
                      text
                          "Jinja2 template_format on user-controllable inputs is the CVE-2026-34070 attack surface.",
                    )
                    ∷ [])
                  ∷ []
                else [])
              ++ (under c.rules "permissive_recursion_limit" (permissive_limit info.recursion_limit)
                  ++ under c.rules "server_without_auth" (
                      if info.server_mode && not info.server_auth_configured
                      then detect "server_without_auth" critical (
                          (
                            "advisory",
                            text
                                "LangGraph Server is bound without auth — any client can resume any thread_id.",
                          )
                          ∷ [])
                        ∷ []
                      else []))))
