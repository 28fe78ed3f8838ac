-- ===== src/Cli.antt =====
-- cli.py: the commands and their exit codes. Reading the configuration is third-party: `none` is an
-- exception of `LensConfig.from_yaml`, also of a file that is not there. What is printed on
-- standard output is kept as a list of lines or of events.
use langgraph_lens.Prelude.{
  ℕ, suc, String, ◌<>◌, Bool, true, false, ◌||◌, Option, none, some, List, [], ◌∷◌, if◌then◌else◌,
  string_eq, nat_eq, ◌==◌,
}
use langgraph_lens.Runtime.{Runtime}
use langgraph_lens.Text.{is_infix}
use langgraph_lens.Value.{field, end, int, text}
use langgraph_lens.Message.{str}
use langgraph_lens.Event.{Severity, low, medium, high, critical, Detection, Event}
use langgraph_lens.Detector.Checkpoint.{raw}
use langgraph_lens.Detector.SupplyChain.{FileSystem}
use langgraph_lens.Intervention.CheckpointProtector.{read_direction}
use langgraph_lens.Config.{default_config}
use langgraph_lens.Lens
use langgraph_lens.Lens.{Lens, LensConfig}
use langgraph_lens.Lens.Inspect.{CheckpointCall, inspect_checkpoint}
use langgraph_lens.Lens.Scan.{scan_prompt}

-- What the commands ask of the outside: the configuration of a file, the files,
-- the lines of a file with their ends, and the answer of the metrics server on a port.
pub record Outside : Type 0 where
  pub from_yaml : String → Option LensConfig
  pub files : FileSystem
  pub read_lines : String → Option (List (List ℕ))
  pub fetch : ℕ → Option String
  pub version_text : String

-- The arguments of the program.
pub data Command : Type 0 where
  validate : String → Command
  scan_prompt_at scan_checkpoint_at : String → Option String → Command
  check : ℕ → Command
  version : Command

-- What a command leaves: its exit code, the texts and the events that it prints.
pub record Exit : Type 0 where
  pub code : ℕ
  pub texts : List String
  pub events : List Event

-- `_quiet_config`
unfoldable pub quiet_config : Outside → Option String → Option LensConfig
quiet_config o path =
    let read = elim path as (λ _. Option LensConfig) [
      | none ↦ some default_config
      | some p ↦ if p == "" then some default_config else o.from_yaml p
    ] in
    elim read [
      | none ↦ none
      | some c ↦ some (record c {
        prometheus = record c.prometheus { enabled = false };
        logging = record c.logging { enabled = false };
      })
    ]

-- `_cmd_validate`
unfoldable pub cmd_validate : Outside → String → Exit
cmd_validate o path = elim (o.from_yaml path) [
  | none ↦ record { code = 1; texts = []; events = [] }
  | some c ↦ record { code = 0; texts = "ok" ∷ []; events = [] }
]

-- `d.severity.value in ("high", "critical")`
unfoldable pub is_grave : Severity → Bool
is_grave low = false
is_grave medium = false
is_grave high = true
is_grave critical = true

unfoldable pub any_grave : List Detection → Bool
any_grave [] = false
any_grave (d ∷ ds) = is_grave d.severity || any_grave ds

-- `_cmd_scan_prompt`; `none` is an exception.
unfoldable pub cmd_scan_prompt : Outside → Runtime → String → Option String → Option Exit
cmd_scan_prompt o rt path config_path = elim (quiet_config o config_path) [
  | none ↦ none
  | some c ↦
      let (e, l) = scan_prompt rt o.files path (Lens.init rt c) in
      some (record { code = if any_grave e.detections then 1 else 0; texts = []; events = e ∷ [] })
]

-- `line.rstrip(b"\n")`
unfoldable pub rstrip_newline : List ℕ → List ℕ
rstrip_newline [] = []
rstrip_newline (b ∷ bs) = elim (rstrip_newline bs) as (λ _. List ℕ) [
  | [] ↦ if b == 10 then [] else b ∷ []
  | c ∷ cs ↦ b ∷ c ∷ cs
]

-- The call of `inspect_checkpoint` for the line of a number.
abbrev pub line_call : Runtime → ℕ → List ℕ → CheckpointCall
line_call rt i blob =
    let id = "line-" <> str rt (int i) in
    record {
      blob = raw blob;
      metadata = some (field "checkpoint_id" (text id) end);
      run_id = none;
      thread_id = none;
      checkpoint_id = some id;
      direction = read_direction;
    }

-- The events of the lines, from the line of a number on; blank lines are counted and skipped.
unfoldable pub scan_lines : Runtime → ℕ → List (List ℕ) → Lens → List Event
scan_lines rt i [] l = []
scan_lines rt i (line ∷ lines) l = elim (rstrip_newline line) [
  | [] ↦ scan_lines rt (suc i) lines l
  | b ∷ bs ↦
      let (e, l') = inspect_checkpoint rt (line_call rt i (b ∷ bs)) l in
      e ∷ scan_lines rt (suc i) lines l'
]

-- `rc` behind the loop
unfoldable pub exit_code : List Event → ℕ
exit_code [] = 0
exit_code (e ∷ es) = if any_grave e.detections then 1 else exit_code es

-- `_cmd_scan_checkpoint`; `none` is an exception.
unfoldable pub cmd_scan_checkpoint : Outside → Runtime → String → Option String → Option Exit
cmd_scan_checkpoint o rt path config_path = elim (quiet_config o config_path) [
  | none ↦ none
  | some c ↦ elim (o.read_lines path) [
    | none ↦ none
    | some lines ↦
        let es = scan_lines rt 0 lines (Lens.init rt c) in
        some (record { code = exit_code es; texts = []; events = es })
  ]
]

-- `_cmd_check`
unfoldable pub cmd_check : Outside → ℕ → Exit
cmd_check o port = elim (o.fetch port) [
  | none ↦ record { code = 1; texts = []; events = [] }
  | some body ↦
      if is_infix "langgraph_lens_" body
      then record { code = 0; texts = "ok" ∷ []; events = [] }
      else record { code = 1; texts = []; events = [] }
]

-- `main`, behind the parser of the arguments
unfoldable pub main : Outside → Runtime → Command → Option Exit
main o rt (validate path) = some (cmd_validate o path)
main o rt (scan_prompt_at path config) = cmd_scan_prompt o rt path config
main o rt (scan_checkpoint_at path config) = cmd_scan_checkpoint o rt path config
main o rt (check port) = some (cmd_check o port)
main o rt version = some (record { code = 0; texts = o.version_text ∷ []; events = [] })
