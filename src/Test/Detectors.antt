-- ===== src/Test/Detectors.antt =====
-- The detectors at small inputs.
use langgraph_lens.Prelude.{
  ◌<◌, ◌≡◌, ◌↔◌, refl, ◌≢◌, true, false, none, some, String, [], ◌∷◌, arith, string_eq,
}
use langgraph_lens.Prelude.Dict.{get}
use langgraph_lens.Time.{ticks}
use langgraph_lens.Regex.{empty}
use langgraph_lens.Runtime.{Runtime}
use langgraph_lens.Window.{recent}
use langgraph_lens.Window.Laws.{IsWindow, empty-IsWindow}
use langgraph_lens.Tool.{ToolDetector, window_of, scan_enumeration}
use langgraph_lens.Tool.Enumeration.{scan_enumeration_refines}
use langgraph_lens.Detector.Checkpoint.{CheckpointConfig, raw, scan}
use langgraph_lens.Detector.Checkpoint.Opcodes.{is_dangerous, reports, global_first_unseen}
use langgraph_lens.Test.Patterns.{ascii_only}

abbrev pub runtime : Runtime
runtime = record {
  unicode = ascii_only;
  clock = λ n. n;
  token_hex = λ n. "00";
  sha256_hex = λ s. s;
  hmac_hex = λ key blob. key;
  float_repr = λ x. "0.0";
  repr = λ v. "";
  compile = λ s. empty;
  decode_ascii = λ blob. "";
  opens = λ path. false;
  env_set = λ name. false;
  otel_installed = false;
  post_raises = λ w b t. false;
  copies = λ fs. true;
}

abbrev pub config : CheckpointConfig
config = record {
  enabled = true;
  scan_on_write = true;
  scan_on_read = true;
  rules = "unsafe_pickle_opcode" ∷ [];
  max_blob_bytes = 1000;
}

global_first_unseen_example :
    (is_dangerous (b'c' ∷ b'o' ∷ b's' ∷ []) ≡ true)
    × (reports "unsafe_pickle_opcode" (scan runtime config (raw (b'c' ∷ b'o' ∷ b's' ∷ [])) none)
        ≡ false)
global_first_unseen_example =
    global_first_unseen runtime config (b'o' ∷ b's' ∷ []) none refl (unfold string_eq in refl)

abbrev detector : ToolDetector
detector = record {
  config = record {
    enabled = true;
    rules = "enumeration" ∷ [];
    enumeration_window_seconds = 10;
    enumeration_threshold = 2;
    max_arg_bytes = 1000;
  };
  enum_windows = [];
}

scan_enumeration_refines_example :
    IsWindow
      (ticks 10)
      (window_of "a" (scan_enumeration 7 "search" (some "a") detector).1.enum_windows)
      7
      ((7, "search") ∷ [])
    × ((other : String)
        → other ≢ "a"
        → get other (scan_enumeration 7 "search" (some "a") detector).1.enum_windows ≡ get other [])
    × (((scan_enumeration 7 "search" (some "a") detector).0 ≡ []) ↔ (1 < 2))
scan_enumeration_refines_example =
    scan_enumeration_refines 7 3 "search" "a" detector [] (unfold string_eq in refl)
      (unfold string_eq in refl) (unfold get in empty-IsWindow _ 3) (omega arith) ("search" ∷ [])
      (refl, λ z. unfold recent in refl)
