-- ===== src/Detector/Checkpoint/Opcodes.antt =====
-- The rule on unsafe opcodes, on raw blobs.
use langgraph_lens.Prelude.{
  ℕ, ◌≡◌, refl, ◌∙◌, Bool, true, false, ◌&&◌, ◌||◌, none, some, Option, String, List, [], ◌∷◌, ◌++◌,
  arith, contains, string_eq, same_text, ◌==◌, Bool-cases, inl, inr,
}
use langgraph_lens.Runtime.{Runtime}
use langgraph_lens.Event.{Detection}
use langgraph_lens.Detector.Checkpoint.{
  CheckpointConfig, raw, scan, scan_thread, scan_blob, scan_size, scan_opcodes, scan_kind,
  looks_like_pickle, opcode_hits, opcode_detection, dangerous_opcodes, has_byte, kind_detection,
  peek_serializer_kind,
}

-- Some detection of the list is of the rule.
abbrev pub reports : String → List Detection → Bool
reports rule [] = false
reports rule (d ∷ ds) = d.rule == rule || reports rule ds

pub reports-append :
    (rule : String) (xs ys : List Detection)
    → reports rule (xs ++ ys) ≡ (reports rule xs || reports rule ys)
reports-append rule [] ys = refl
reports-append rule (x ∷ xs) ys = ground (arith, reports-append rule xs ys)

-- The stream holds one of the opcodes that can run code.
abbrev pub is_dangerous : List ℕ → Bool
is_dangerous b =
    has_byte b'R' b
    || has_byte b'c' b
    || has_byte 0x93 b
    || has_byte b'b' b
    || has_byte b'i' b
    || has_byte b'o' b

-- The names of the other rules, and of the rule itself.
rule_names :
    (same_text "missing_thread_id" "unsafe_pickle_opcode" ≡ false)
    × (same_text "oversized_blob" "unsafe_pickle_opcode" ≡ false)
    × (same_text "unknown_serializer_kind" "unsafe_pickle_opcode" ≡ false)
    × (same_text "unsafe_pickle_opcode" "unsafe_pickle_opcode" ≡ true)
unfolding string_eq
rule_names = (refl, refl, refl, refl)

pub thread_silent :
    (c : CheckpointConfig) (thread_id : Option String)
    → reports "unsafe_pickle_opcode" (scan_thread c thread_id) ≡ false
unfolding scan_thread
thread_silent c thread_id = ground (arith, rule_names.0)

size_silent :
    (c : CheckpointConfig) (blob : List ℕ)
    → reports "unsafe_pickle_opcode" (scan_size c blob) ≡ false
unfolding scan_size
size_silent c blob = ground (arith, rule_names.1)

kind_silent : (o : Option String) → reports "unsafe_pickle_opcode" (kind_detection o) ≡ false
kind_silent none = refl
kind_silent (some kind) = ground (arith, rule_names.2)

scan_kind_silent :
    (rt : Runtime) (c : CheckpointConfig) (blob : List ℕ)
    → reports "unsafe_pickle_opcode" (scan_kind rt c blob) ≡ false
unfolding scan_kind
scan_kind_silent rt c blob = elim (Bool-cases (contains c.rules "unknown_serializer_kind")) [
  | inl e ↦ simp e (kind_silent (peek_serializer_kind rt blob))
  | inr e ↦ simp e
]

hits_reported :
    (blob : List ℕ)
    → reports "unsafe_pickle_opcode" (opcode_detection (opcode_hits blob dangerous_opcodes))
      ≡ is_dangerous blob
unfolding opcode_hits
hits_reported blob = ground (arith, rule_names.3)

opcodes_reported :
    (c : CheckpointConfig) (blob : List ℕ)
    → contains c.rules "unsafe_pickle_opcode" ≡ true
    → reports "unsafe_pickle_opcode" (scan_opcodes c blob)
      ≡ (looks_like_pickle blob && is_dangerous blob)
unfolding scan_opcodes
opcodes_reported c blob rule = simp rule (ground (arith, hits_reported blob))

-- With the rule on, an enabled detector reports `unsafe_pickle_opcode` on raw bytes exactly if they
-- look like a pickle stream and hold a dangerous opcode, whatever the other rules say.
pub reports-scan :
    (rt : Runtime) (c : CheckpointConfig) (blob : List ℕ) (thread_id : Option String)
    → c.enabled ≡ true
    → contains c.rules "unsafe_pickle_opcode" ≡ true
    → reports "unsafe_pickle_opcode" (scan rt c (raw blob) thread_id)
      ≡ (looks_like_pickle blob && is_dangerous blob)
unfolding scan scan_blob
reports-scan rt c blob thread_id on rule =
    simp
      (
        on,
        reports-append,
        thread_silent c thread_id,
        size_silent c blob,
        opcodes_reported c blob rule,
        scan_kind_silent rt c blob,
      )
      (ground arith)

start_unknown :
    (rest : List ℕ) → (looks_like_pickle (b'c' ∷ rest) && is_dangerous (b'c' ∷ rest)) ≡ false
unfolding looks_like_pickle
start_unknown [] = refl
start_unknown (v ∷ []) = refl
start_unknown (v ∷ x ∷ xs) = refl

-- A stream of protocol 0 that begins with the opcode GLOBAL, such as `cos\nsystem\n(S'id'\ntR.`, is
-- never reported, although GLOBAL is among the opcodes that the rule looks for.
pub global_first_unseen :
    (rt : Runtime) (c : CheckpointConfig) (rest : List ℕ) (thread_id : Option String)
    → c.enabled ≡ true
    → contains c.rules "unsafe_pickle_opcode" ≡ true
    → (is_dangerous (b'c' ∷ rest) ≡ true)
      × (reports "unsafe_pickle_opcode" (scan rt c (raw (b'c' ∷ rest)) thread_id) ≡ false)
global_first_unseen rt c rest thread_id on rule =
    (ground arith, reports-scan rt c (b'c' ∷ rest) thread_id on rule ∙ start_unknown rest)
