-- ===== src/Test/Tools.antt =====
-- Tool calls, card numbers, queries, alerts, spans, moves and loads at small inputs.
use langgraph_lens.Prelude.{
  ℕ, ◌+◌, List, eqb, pair_eq, ◌≡◌, ◌↔◌, String, refl, true, false, none, some, [], ◌∷◌, arith,
  string_eq, nat_eq, contains,
}
use langgraph_lens.Prelude.Dict.{get}
use langgraph_lens.Text.{text_length}
use langgraph_lens.Text.{sorted_set}
use langgraph_lens.Alerts
use langgraph_lens.Alerts.{
  Hook, AlertsConfig, AlertSender, maybe_send, send_kinds, send, relevant, waiting,
}
use langgraph_lens.Alerts.Due.{Posted, posts_about, maybe_send_posts}
use langgraph_lens.Alerts.Cooldown.{spaced, maybe_sends, maybe_sends-spaced}
use langgraph_lens.Detector.Checkpoint.Opcodes.{reports}
use langgraph_lens.Detector.SqlInjection
use langgraph_lens.Detector.SqlInjection.{SqlInjectionConfig, patterns}
use langgraph_lens.Detector.SqlInjection.Found.{OccursNamed, reports-OccursNamed}
use langgraph_lens.Event.{high}
use langgraph_lens.Value.{Value, end}
use langgraph_lens.Comms.{CommsDetector, Edges}
use langgraph_lens.Comms.Walk.{Visit, flagged, flagged-strays}
use langgraph_lens.Regex.{class, match_at, match_here, step, take_text}
use langgraph_lens.Regex.Segments.{find_all, segments, segments_from, match_length}
use langgraph_lens.Intervention.PiiRedactor.{scrub}
use langgraph_lens.Intervention.PiiRedactor.Silent.{scrub-silent}
use langgraph_lens.Detector.Checkpoint
use langgraph_lens.Detector.Checkpoint.{decoded}
use langgraph_lens.Integrations.{Lenses}
use langgraph_lens.Integrations.Saver.{Loaded, checkpoint_tuple}
use langgraph_lens.Lens.{emit}
use langgraph_lens.Lens.Secrecy.{strip, emit-strip}
use langgraph_lens.Detector.Pii.{
  CompiledPattern, ingress, luhn, card_digits, checksum, real_matches, scan_patterns, pattern_hit,
}
use langgraph_lens.Detector.Pii.Luhn.{changed, luhn-Slip}
use langgraph_lens.Regex.Classes.{is_digit}
use langgraph_lens.Lens.{Lens}
use langgraph_lens.Test.Detectors.{runtime}
use langgraph_lens.Test.Event.{event}
use langgraph_lens.Test.Lens.{silent}

-- Only the rate limiter is on, and every call is above its capacity.
abbrev busy : Lens
busy = record silent {
  rate_limiter = record silent.rate_limiter {
    config = record silent.rate_limiter.config { enabled = true; capacity = 0 };
  };
}

abbrev config : AlertsConfig
config = record {
  enabled = true;
  slack_webhook = "https://hooks.example";
  cooldown_seconds = 300;
  alert_on = "pii" ∷ [];
}

abbrev sender : AlertSender
sender = Alerts.init config

maybe_sends-spaced_example :
    spaced 300000000
      (maybe_sends runtime.post_raises
        ((400000000, event) ∷ (500000000, event) ∷ (700000000, event) ∷ [])
        sender).posts
    ≡ true
maybe_sends-spaced_example =
    maybe_sends-spaced runtime.post_raises config
      ((400000000, event) ∷ (500000000, event) ∷ (700000000, event) ∷ [])

abbrev card : String
card = "4111111111111111"

is_card : luhn runtime.unicode card ≡ true
unfolding luhn card_digits checksum is_digit
is_card = refl

luhn-Slip_example : luhn runtime.unicode "4111111111111112" ≡ false
luhn-Slip_example =
    luhn-Slip runtime.unicode card "4111111111111112"
      (changed "411111111111111" "" "1" "2" (omega arith, omega arith) (omega arith, omega arith)
        (λ e. omega arith))
      is_card

abbrev queries : SqlInjectionConfig
queries = record { enabled = true; rules = "stacked_query" ∷ []; fields = "where" ∷ [] }

reports-OccursNamed_example :
    (reports "stacked_query" (SqlInjection.scan runtime.unicode queries "where" "1; drop table t")
      ≡ true)
    ↔ ((true ≡ true)
        × (contains queries.fields "where" ≡ true)
        × (contains queries.rules "stacked_query" ≡ true)
        × OccursNamed "stacked_query" (patterns runtime.unicode) "1; drop table t")
reports-OccursNamed_example =
    reports-OccursNamed runtime.unicode queries "where" "1; drop table t" "stacked_query"

emit-strip_example :
    ((emit runtime (strip event) silent).alerts ≡ (emit runtime event silent).alerts)
    × ((emit runtime (strip event) silent).otel ≡ (emit runtime event silent).otel)
emit-strip_example = emit-strip runtime event silent

abbrev visit : String → String → Visit
visit thread node = record {
  thread = thread;
  node = node;
  state = end;
  recursion_limit = none;
  recursion_depth = none;
  initial_state_size = none;
}

abbrev declared : Edges
declared = ("plan", "act") ∷ ("act", "plan") ∷ []

abbrev watcher : CommsDetector
watcher = record {
  config = record {
    enabled = true;
    rules = "undeclared_edge" ∷ [];
    state_growth_multiplier = record { num = 10; den = 1 };
  };
  last_node = [];
}

-- The thread `a` goes from `act` to `act`, which is not declared; the thread `b` goes elsewhere.
abbrev visits : List Visit
visits =
    visit "a" "plan" ∷ visit "b" "send" ∷ visit "a" "act" ∷ visit "b" "plan" ∷ visit "a" "act" ∷ []

flagged-strays_example : flagged runtime declared "a" visits watcher ≡ false ∷ false ∷ true ∷ []
unfolding string_eq pair_eq get
flagged-strays_example =
    flagged-strays runtime declared "a" visits watcher refl (unfold string_eq in refl)
      (unfold string_eq in refl)

-- A pattern of one letter under the name of the card numbers: no match has the checksum.
abbrev letter : CompiledPattern
letter = record { name = "credit_card"; pattern = class (eqb b'a'); severity = high }

scrub-silent_example : scrub runtime (letter ∷ []) "abc" ≡ ("abc", [])
scrub-silent_example = scrub-silent runtime ingress "abc" (letter ∷ []) (
    unfold scan_patterns real_matches find_all segments segments_from match_length match_here
      match_at step take_text text_length luhn card_digits checksum is_digit pattern_hit
      string_eq in
    refl)

-- A load during which another task installs a lens.
abbrev load : Value → ℕ × Lenses → Loaded × ℕ × Lenses
load _ (n, s) =
    (checkpoint_tuple (some (decoded end)) none, n + 1, record s { global = some silent })

-- A hook to which every post raises.
abbrev broken : Hook
broken webhook body now = true

maybe_send_posts_example :
    let a = maybe_send runtime.post_raises 400000000 event sender in
    Posted 0 (posts_about "pii" a.posts) true a
unfolding get string_eq
maybe_send_posts_example = maybe_send_posts runtime.post_raises "pii" 400000000 event sender

-- The post is tried, and its exception leaves `maybe_send`.
raised_broken : (maybe_send broken 400000000 event sender).raised ≡ true
unfolding maybe_send send_kinds send waiting relevant get string_eq sorted_set
raised_broken = refl
