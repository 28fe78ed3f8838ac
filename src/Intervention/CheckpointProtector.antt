-- ===== src/Intervention/CheckpointProtector.antt =====
-- interventions/checkpoint_protector.py: refusal of unsafe checkpoints, and the signature of the raw
-- ones. `none` is the `TypeError` that `hmac.compare_digest` raises on a text beyond ASCII.
pub mod Signing
use Prim.Native.Char.{code}
use langgraph_lens.Prelude.{
  ℕ, String, Bool, true, false, not, ◌&&◌, ◌||◌, Option, none, some, List, [], ◌∷◌, ◌++◌, ltb,
  if◌then◌else◌, string_eq, ◌==◌,
}
use langgraph_lens.Runtime.{Runtime}
use langgraph_lens.Value.{Value, text, Fields, end, lookup}
use langgraph_lens.Event.{Detection}
use langgraph_lens.Decision.{LensDecision, pass}
use langgraph_lens.Detector.Checkpoint
use langgraph_lens.Detector.Checkpoint.{CheckpointConfig, Blob, raw, decoded}
use langgraph_lens.Intervention.{PolicyMode, matching, triggers, conclude}

-- `CheckpointProtectorConfig` of config.py
pub record CheckpointProtectorConfig : Type 0 where
  pub enabled : Bool
  pub mode : PolicyMode
  pub block_on_rules : List String
  pub require_hmac : Bool
  pub signing_key : String

-- `direction`, "write" or "read"
pub data Direction : Type 0 where
  write_direction read_direction : Direction

abbrev pub is_read : Direction → Bool
is_read read_direction = true
is_read write_direction = false

-- `_HMAC_KEY`
abbrev pub hmac_key : String
hmac_key = "lens_hmac"

-- `metadata or {}`
abbrev pub or_empty : Option Fields → Fields
or_empty none = end
or_empty (some fs) = fs

unfoldable pub is_ascii : String → Bool
is_ascii String.[] = true
is_ascii (String.◌∷◌ c s) = ltb (code c) 128 && is_ascii s

-- `_verify_hmac`
unfoldable pub verify_hmac : Runtime → List ℕ → String → String → Option Bool
verify_hmac rt blob expected key =
    if is_ascii expected && is_ascii (rt.hmac_hex key blob)
    then some (rt.hmac_hex key blob == expected)
    else none

-- `not isinstance(expected, str) or not _verify_hmac(...)`
unfoldable pub is_forged : Runtime → List ℕ → Option Value → String → Option Bool
is_forged rt blob (some (text expected)) key = elim (verify_hmac rt blob expected key) [
  | none ↦ none
  | some same ↦ some (not same)
]
is_forged rt blob _ key = some true

-- Whether the signature is wrong; only raw bytes that are read are looked at.
unfoldable pub mismatch :
    Runtime → CheckpointProtectorConfig → Blob → Fields → Direction → Option Bool
mismatch rt c (decoded fs) metadata direction = some false
mismatch rt c (raw blob) metadata direction =
    if c.require_hmac && is_read direction
    then is_forged rt blob (lookup hmac_key metadata) c.signing_key
    else some false

-- `evaluate`, behind the guard and the signature: the decision on what the detector found
unfoldable pub judge :
    CheckpointProtectorConfig → List Detection → Bool → LensDecision × List Detection
judge c found forged =
    let ds = matching c.block_on_rules found in
    let wrong = if forged then "checkpoint_protector.hmac_mismatch" ∷ [] else [] in
    conclude c.mode "checkpoint_rejected" 503 (triggers "checkpoint_protector." ds ++ wrong) ds

unfoldable pub evaluate :
    Runtime
    → CheckpointProtectorConfig
    → CheckpointConfig
    → Blob
    → Option Fields
    → Direction
    → Option String
    → Option (LensDecision × List Detection)
evaluate rt c detector blob metadata direction thread_id =
    if not c.enabled
    then some (pass, [])
    else elim (mismatch rt c blob (or_empty metadata) direction) [
      | none ↦ none
      | some forged ↦ some (judge c (Checkpoint.scan rt detector blob thread_id) forged)
    ]

-- `sign`
unfoldable pub sign : Runtime → CheckpointProtectorConfig → List ℕ → Option String
sign rt c blob =
    if not c.enabled || not c.require_hmac then none else some (rt.hmac_hex c.signing_key blob)
