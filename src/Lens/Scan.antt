-- ===== src/Lens/Scan.antt =====
-- lens.py: the scans that belong to no run: of the environment, and of prompt files.
use langgraph_lens.Prelude.{◌+◌, String, ◌<>◌, true, ◌||◌, none, [], map, if◌then◌else◌, string_eq}
use langgraph_lens.Prelude.Dict.{setdefault}
use langgraph_lens.Runtime.{Runtime}
use langgraph_lens.Value.{text}
use langgraph_lens.Event.{Detection, Event, attack_surface_scan, prompt_scan}
use langgraph_lens.Detector.AttackSurface
use langgraph_lens.Detector.AttackSurface.{RuntimeInfo}
use langgraph_lens.Detector.SupplyChain
use langgraph_lens.Detector.SupplyChain.{FileSystem}
use langgraph_lens.Lens.{Lens, emit, new_event, tick}

-- `new_correlation_id(prefix=prefix)`
abbrev pub fresh_id : Runtime → String → Lens → String
fresh_id rt prefix l = prefix <> rt.token_hex l.tokens_read

abbrev pub take_token : Lens → Lens
take_token l = record l { tokens_read = l.tokens_read + 1 }

-- `scan_attack_surface`
unfoldable pub scan_attack_surface : Runtime → RuntimeInfo → Lens → Event × Lens
scan_attack_surface rt info l =
    let ds = AttackSurface.scan l.config.attack_surface info in
    let e = new_event rt attack_surface_scan (fresh_id rt "boot-" l) none none ds l in
    (e, emit rt e (tick (take_token l)))

-- The runtime information that the environment gives.
abbrev pub environment_info : Runtime → RuntimeInfo
environment_info rt = record {
  checkpoint_saver = none;
  checkpoint_serializer = none;
  prompt_registry_url = none;
  prompt_registry_signature_required = true;
  template_formats_in_use = [];
  recursion_limit = none;
  server_mode = rt.env_set "LANGGRAPH_SERVER";
  server_auth_configured = rt.env_set "LANGGRAPH_AUTH" || rt.env_set "LANGGRAPH_API_KEY";
}

-- `_maybe_auto_scan_attack_surface`
unfoldable pub auto_scan : Runtime → Lens → Lens
auto_scan rt l =
    let (e, l') =
      scan_attack_surface rt (environment_info rt) (record l { attack_surface_scanned = true }) in
    if l.attack_surface_scanned then l else l'

-- `d.extra.setdefault(key, value)`
abbrev pub tagged : String → String → Detection → Detection
tagged key value d = record d { extra = setdefault key (text value) d.extra }

-- `scan_prompt`
unfoldable pub scan_prompt : Runtime → FileSystem → String → Lens → Event × Lens
scan_prompt rt fs path l =
    let ds = SupplyChain.scan_path rt.unicode fs l.config.supply_chain path in
    let e =
      new_event rt prompt_scan (fresh_id rt "load-" l) none none
        (map (tagged "prompt_path" path) ds) l in
    (e, emit rt e (tick (take_token l)))
