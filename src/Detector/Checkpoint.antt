-- ===== src/Detector/Checkpoint.antt =====
-- detectors/checkpoint.py: the structural checks of a checkpoint, raw or decoded.
pub mod Opcodes
use langgraph_lens.Prelude.{
  ℕ, zero, suc, String, Bool, true, false, not, ◌&&◌, ◌||◌, Option, none, some, List, [], ◌∷◌, ◌++◌,
  map, ltb, leb, eqb, length, contains, if◌then◌else◌, string_eq, ◌==◌,
}
use langgraph_lens.Prelude.Dict.{Dict}
use langgraph_lens.Text.{sorted_set}
use langgraph_lens.Value.{Value, text, int, list, texts, Fields, field, end, keys}
use langgraph_lens.Event.{Severity, low, medium, critical, Detection}
use langgraph_lens.Runtime.{Runtime}

-- `CheckpointConfig` of config.py
pub record CheckpointConfig : Type 0 where
  pub enabled : Bool
  pub scan_on_write : Bool
  pub scan_on_read : Bool
  pub rules : List String
  pub max_blob_bytes : ℕ

-- `bytes | dict[str, Any]`
pub data Blob : Type 0 where
  raw : List ℕ → Blob
  decoded : Fields → Blob

-- `_DANGEROUS_OPCODES`
abbrev pub dangerous_opcodes : List (ℕ × String)
dangerous_opcodes =
    (b'R', "REDUCE")
    ∷ (b'c', "GLOBAL")
    ∷ (0x93, "STACK_GLOBAL")
    ∷ (b'b', "BUILD")
    ∷ (b'i', "INST")
    ∷ (b'o', "OBJ")
    ∷ []

-- `opcode in raw`
abbrev pub has_byte : ℕ → List ℕ → Bool
has_byte b [] = false
has_byte b (x ∷ xs) = eqb b x || has_byte b xs

-- `hits`
unfoldable pub opcode_hits : List ℕ → List (ℕ × String) → List String
opcode_hits blob [] = []
opcode_hits blob ((b, name) ∷ ops) =
    let rest = opcode_hits blob ops in if has_byte b blob then name ∷ rest else rest

-- The first byte of a stream of protocol 0 that `_looks_like_pickle` knows.
abbrev pub is_legacy_start : ℕ → Bool
is_legacy_start b = eqb b b'(' || eqb b b']' || eqb b b'd' || eqb b b'}'

-- `_looks_like_pickle`
unfoldable pub looks_like_pickle : List ℕ → Bool
looks_like_pickle [] = false
looks_like_pickle (b ∷ []) = is_legacy_start b
looks_like_pickle (b ∷ v ∷ []) = is_legacy_start b
looks_like_pickle (b ∷ v ∷ x ∷ xs) = (eqb b 0x80 && leb v 5) || is_legacy_start b

abbrev pub known_kinds : List String
known_kinds =
    "json" ∷ "msgpack" ∷ "json+" ∷ "json_plus" ∷ "JsonPlusSerializer" ∷ "EncryptedSerializer" ∷ []

-- `head.split(b"|", 1)[0]`, if `b"|" in head`, in the first `n` bytes
unfoldable pub before_bar : ℕ → List ℕ → Option (List ℕ)
before_bar zero blob = none
before_bar (suc n) [] = none
before_bar (suc n) (b ∷ blob) =
    let rest = before_bar n blob in
    if eqb b b'|' then some [] else elim rest [ none ↦ none | some p ↦ some (b ∷ p) ]

-- `first[5:]`, if `first.startswith(b"kind:")`
unfoldable pub after_kind : List ℕ → Option (List ℕ)
after_kind (k ∷ i ∷ n ∷ d ∷ c ∷ rest) =
    if eqb k b'k' && eqb i b'i' && eqb n b'n' && eqb d b'd' && eqb c b':' then some rest else none
after_kind _ = none

abbrev pub framed_kind : Runtime → Option (List ℕ) → Option String
framed_kind rt none = none
framed_kind rt (some first) = elim (after_kind first) [
  | none ↦ none
  | some kind ↦ some (rt.decode_ascii kind)
]

-- `_peek_serializer_kind`
unfoldable pub peek_serializer_kind : Runtime → List ℕ → Option String
unfolding before_bar after_kind
peek_serializer_kind rt [] = none
peek_serializer_kind rt (b ∷ blob) =
    if eqb b b'{'
    then some "json"
    else if eqb b 0x82 || eqb b 0x83
    then some "msgpack"
    else framed_kind rt (before_bar 64 (b ∷ blob))

abbrev pub detect : String → Severity → Dict String Value → List Detection
detect rule severity extra =
    record { detector = "checkpoint"; rule = rule; severity = severity; extra = extra } ∷ []

-- `not thread_id`
abbrev pub is_blank : Option String → Bool
is_blank none = true
is_blank (some s) = s == ""

unfoldable pub scan_thread : CheckpointConfig → Option String → List Detection
scan_thread c thread_id =
    if contains c.rules "missing_thread_id" && is_blank thread_id
    then detect "missing_thread_id" medium (
        (
          "advisory",
          text "Checkpoint emitted without thread_id — cannot tie back to a user-facing run.",
        )
        ∷ [])
    else []

unfoldable pub scan_size : CheckpointConfig → List ℕ → List Detection
scan_size c blob =
    if contains c.rules "oversized_blob" && ltb c.max_blob_bytes (length blob)
    then detect "oversized_blob" medium
        (("bytes", int (length blob)) ∷ ("max_bytes", int c.max_blob_bytes) ∷ [])
    else []

abbrev pub opcode_detection : List String → List Detection
opcode_detection [] = []
opcode_detection (h ∷ hs) = detect "unsafe_pickle_opcode" critical (
    ("opcodes", list (texts (sorted_set (h ∷ hs))))
    ∷ (
      "advisory",
      text
          "Pickle opcodes that can execute arbitrary code on deserialisation. CVE-2026-27794/28277.",
    )
    ∷ [])

unfoldable pub scan_opcodes : CheckpointConfig → List ℕ → List Detection
scan_opcodes c blob =
    if contains c.rules "unsafe_pickle_opcode" && looks_like_pickle blob
    then opcode_detection (opcode_hits blob dangerous_opcodes)
    else []

abbrev pub kind_detection : Option String → List Detection
kind_detection none = []
kind_detection (some kind) =
    if contains known_kinds kind
    then []
    else detect "unknown_serializer_kind" medium (("kind", text kind) ∷ [])

unfoldable pub scan_kind : Runtime → CheckpointConfig → List ℕ → List Detection
unfolding peek_serializer_kind
scan_kind rt c blob =
    if contains c.rules "unknown_serializer_kind"
    then kind_detection (peek_serializer_kind rt blob)
    else []

-- `expected - present`
unfoldable pub missing_keys : List String → List String → List String
missing_keys present [] = []
missing_keys present (k ∷ ks) =
    let rest = missing_keys present ks in if contains present k then rest else k ∷ rest

unfoldable pub scan_schema : CheckpointConfig → Fields → List Detection
unfolding missing_keys
scan_schema c fs = elim (missing_keys (keys fs) ("v" ∷ "ts" ∷ "channel_values" ∷ [])) [
  | [] ↦ []
  | m ∷ ms ↦
      if contains c.rules "schema_drift"
      then detect "schema_drift" low (
          ("missing", list (texts (sorted_set (m ∷ ms))))
          ∷ ("present", list (texts (sorted_set (keys fs))))
          ∷ [])
      else []
]

unfoldable pub scan_blob : Runtime → CheckpointConfig → Blob → List Detection
scan_blob rt c (raw blob) = scan_size c blob ++ (scan_opcodes c blob ++ scan_kind rt c blob)
scan_blob rt c (decoded fs) = scan_schema c fs

unfoldable pub scan : Runtime → CheckpointConfig → Blob → Option String → List Detection
scan rt c blob thread_id =
    if not c.enabled then [] else scan_thread c thread_id ++ scan_blob rt c blob
