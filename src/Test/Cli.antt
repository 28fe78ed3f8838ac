-- ===== src/Test/Cli.antt =====
-- The command line at small inputs.
use langgraph_lens.Prelude.{
  ◌≡◌, refl, false, Option, none, some, ℕ, List, [], ◌∷◌, string_eq, nat_eq,
}
use langgraph_lens.Cli.{
  Outside, Exit, main, scan_checkpoint_at, cmd_scan_checkpoint, quiet_config, scan_lines,
  rstrip_newline, exit_code, any_grave, is_grave,
}
use langgraph_lens.Prelude.Dict.{get}
use langgraph_lens.Detector.Checkpoint
use langgraph_lens.Lens.{correlation_for}
use langgraph_lens.Lens.Inspect.{inspect_checkpoint, checkpoint_detections}
use langgraph_lens.Test.Detectors.{runtime}
use langgraph_lens.Test.Lens.{config}

abbrev outside : List (List ℕ) → Outside
outside lines = record {
  from_yaml = λ path. some config;
  files = record {
    path_text = λ p. p;
    is_file = λ p. false;
    is_dir = λ p. false;
    rglob = λ p. [];
    suffix = λ p. "";
    read_text = λ p. none;
  };
  read_lines = λ path. some lines;
  fetch = λ port. none;
  version_text = "0.3.0";
}

-- The exit code of a command that raises nothing.
abbrev code_of : Option Exit → Option ℕ
code_of none = none
code_of (some e) = some e.code

blank_lines :
    code_of (main (outside ((10 ∷ []) ∷ [] ∷ [])) runtime (scan_checkpoint_at "export" (some "c")))
    ≡ some 0
unfolding main cmd_scan_checkpoint quiet_config scan_lines rstrip_newline exit_code string_eq nat_eq
blank_lines = refl

dangerous_line :
    code_of (
      main
        (outside ((10 ∷ []) ∷ (0x80 ∷ 4 ∷ b'c' ∷ b'.' ∷ 10 ∷ []) ∷ []))
        runtime
        (scan_checkpoint_at "export" (some "c")))
    ≡ some 1
unfolding main cmd_scan_checkpoint quiet_config scan_lines rstrip_newline exit_code string_eq nat_eq
    any_grave is_grave inspect_checkpoint correlation_for get checkpoint_detections Checkpoint.scan
    Checkpoint.scan_thread Checkpoint.scan_blob Checkpoint.scan_size Checkpoint.scan_opcodes
    Checkpoint.looks_like_pickle Checkpoint.opcode_hits
dangerous_line = refl
