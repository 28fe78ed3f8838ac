-- ===== src/Detector/Pii.antt =====
-- detectors/pii.py: the built-in and custom patterns, and their matches in a text. A custom pattern
-- is compiled by `re.compile`, which the runtime stands for; it has no capturing group.
pub mod Luhn
pub mod Patterns
use Prim.Native.Char.{code}
use langgraph_lens.Prelude.{
  ℕ, ◌+◌, ◌-◌, ◌*◌, ◌%◌, String, Bool, not, ◌&&◌, ◌||◌, Option, none, some, List, [], ◌∷◌, ◌++◌,
  keep, length, eqb, ltb, leb, if◌then◌else◌, string_eq, ◌==◌,
}
use langgraph_lens.Prelude.Dict.{Dict, get}
use langgraph_lens.Runtime.{Runtime, Unicode}
use langgraph_lens.Regex.{Regex, class, seq, star, boundary, not_ahead}
use langgraph_lens.Regex.Classes.{
  is_digit, is_word, is_space, is_upper, is_lower, lit, all_of, any_of, plus, opt, times, between,
  one_of,
}
use langgraph_lens.Regex.Segments.{find_all}
use langgraph_lens.Value.{text, int}
use langgraph_lens.Event.{Severity, low, medium, high, Detection}
use langgraph_lens.Detector.Pii.Patterns.{
  ssn_pattern, card_pattern, phone_us_pattern, phone_intl_pattern, email_pattern, ip_pattern,
}

-- `PIIPattern` of config.py
pub record PiiPattern : Type 0 where
  pub type_name : Option String
  pub name : Option String
  pub regex : Option String

-- `PIIConfig` of config.py
pub record PiiConfig : Type 0 where
  pub enabled : Bool
  pub scan_ingress : Bool
  pub scan_egress : Bool
  pub scan_checkpoints : Bool
  pub patterns : List PiiPattern
  pub custom_patterns : List PiiPattern

-- `_CompiledPattern`
pub record CompiledPattern : Type 0 where
  pub name : String
  pub pattern : Regex
  pub severity : Severity

abbrev pub named : String → Regex → Severity → String × CompiledPattern
named name pattern severity = (name, record { name = name; pattern = pattern; severity = severity })

-- `_BUILTIN`
unfoldable pub builtin : Unicode → Dict String CompiledPattern
builtin u =
    named "ssn" (ssn_pattern u) high
    ∷ named "credit_card" (card_pattern u) high
    ∷ named "phone_us" (phone_us_pattern u) medium
    ∷ named "phone_intl" (phone_intl_pattern u) medium
    ∷ named "email" (email_pattern u) medium
    ∷ named "ip_address" (ip_pattern u) low
    ∷ []

-- `[int(c) for c in card if c.isdigit()]`
unfoldable pub card_digits : Unicode → String → List ℕ
card_digits u String.[] = []
card_digits u (String.◌∷◌ c s) =
    let rest = card_digits u s in
    let n = code c in
    if is_digit u n then (if ltb n 128 then n - 48 else u.digit_value n) ∷ rest else rest

-- The digit that is added for `d` at a doubled place.
abbrev pub doubled : ℕ → ℕ
doubled d = if ltb 9 (d * 2) then d * 2 - 9 else d * 2

unfoldable pub checksum : ℕ → ℕ → List ℕ → ℕ
checksum parity i [] = 0
checksum parity i (d ∷ ds) =
    (if eqb (i % 2) parity then doubled d else d) + checksum parity (i + 1) ds

-- `_luhn`
unfoldable pub luhn : Unicode → String → Bool
luhn u card =
    let ds = card_digits u card in
    not (ltb (length ds) 13) && eqb (checksum (length ds % 2) 0 ds % 10) 0

-- `p.name or "custom"`
abbrev pub custom_name : Option String → String
custom_name none = "custom"
custom_name (some s) = if s == "" then "custom" else s

-- The pattern of a regular expression that is there and not empty.
unfoldable pub compile_custom : Runtime → PiiPattern → List CompiledPattern
compile_custom rt p = elim p.regex [
  | none ↦ []
  | some regex ↦
      if regex == ""
      then []
      else record { name = custom_name p.name; pattern = rt.compile regex; severity = medium } ∷ []
]

-- `_compile`, with no element for `None`
unfoldable pub compile : Runtime → PiiPattern → List CompiledPattern
compile rt p = elim p.type_name [
  | none ↦ compile_custom rt p
  | some t ↦ elim (get t (builtin rt.unicode)) [ none ↦ compile_custom rt p | some cp ↦ cp ∷ [] ]
]

unfoldable pub compile_all : Runtime → List PiiPattern → List CompiledPattern
compile_all rt [] = []
compile_all rt (p ∷ ps) = compile rt p ++ compile_all rt ps

-- `self._compiled`
unfoldable pub compiled : Runtime → PiiConfig → List CompiledPattern
compiled rt c = compile_all rt c.patterns ++ compile_all rt c.custom_patterns

-- `direction`
pub data Direction : Type 0 where
  ingress egress at_checkpoint : Direction

abbrev pub direction_name : Direction → String
direction_name ingress = "ingress"
direction_name egress = "egress"
direction_name at_checkpoint = "checkpoint"

abbrev pub is_scanned : PiiConfig → Direction → Bool
is_scanned c ingress = c.scan_ingress
is_scanned c egress = c.scan_egress
is_scanned c at_checkpoint = c.scan_checkpoints

-- The matches that count: of a card number, those with a right checksum.
unfoldable pub real_matches : Runtime → CompiledPattern → String → List String
real_matches rt cp body =
    let ms = find_all cp.pattern body in
    if cp.name == "credit_card" then keep (luhn rt.unicode) ms else ms

unfoldable pub pattern_hit : Direction → CompiledPattern → List String → List Detection
pattern_hit direction cp [] = []
pattern_hit direction cp (m ∷ ms) =
    record {
      detector = "pii";
      rule = cp.name;
      severity = cp.severity;
      extra =
          ("type", text cp.name)
          ∷ ("direction", text (direction_name direction))
          ∷ ("match_count", int (length (m ∷ ms)))
          ∷ ("match", text m)
          ∷ [];
    }
    ∷ []

unfoldable pub scan_patterns : Runtime → Direction → String → List CompiledPattern → List Detection
scan_patterns rt direction body [] = []
scan_patterns rt direction body (cp ∷ cps) =
    pattern_hit direction cp (real_matches rt cp body) ++ scan_patterns rt direction body cps

unfoldable pub scan : Runtime → PiiConfig → String → Direction → List Detection
scan rt c body direction =
    if not c.enabled || not (is_scanned c direction)
    then []
    else scan_patterns rt direction body (compiled rt c)
