-- ===== src/Alerts.antt =====
-- alerts.py: which detections are posted, at most once per detector and cooldown. The post goes to a
-- web hook. The source drops `URLError` and `TimeoutError`; any other exception, such as the one that
-- `Request` raises on an address without a scheme, leaves the loop and `maybe_send`. Whether a post
-- raises one is a parameter, a function of the address, the body and the time. The detectors of an
-- event are a set, whose order the language leaves open; it is gone through in alphabetical order.
pub mod Cooldown
pub mod Due
use langgraph_lens.Prelude.{
  ℕ, ◌+◌, String, ◌<>◌, Bool, false, not, ◌||◌, Option, none, some, List, [], ◌∷◌, ◌++◌, map, keep,
  ltb, contains, if◌then◌else◌, string_eq, ◌==◌,
}
use langgraph_lens.Prelude.Dict.{Dict, get, put}
use langgraph_lens.Time.{ticks}
use langgraph_lens.Text.{join, sorted_set}
use langgraph_lens.Event.{Event}

-- `AlertsConfig` of config.py
pub record AlertsConfig : Type 0 where
  pub enabled : Bool
  pub slack_webhook : String
  pub cooldown_seconds : ℕ
  pub alert_on : List String

-- A request to the web hook: the detector it is about, the time and the `text` of its body.
pub record Post : Type 0 where
  pub kind : String
  pub sent_at : ℕ
  pub body : String

-- What a post raises that `_send` does not drop: of the address, the body and the time.
abbrev pub Hook : Type 0
Hook = String → String → ℕ → Bool

-- `posts` are the posts that were tried, the last one first; `raised` says whether the last call of
-- `maybe_send` ended with an exception.
pub record AlertSender : Type 0 where
  pub config : AlertsConfig
  pub last_sent : Dict String ℕ
  pub posts : List Post
  pub raised : Bool

-- `firing_kinds & set(alert_on)`
unfoldable pub relevant : AlertsConfig → Event → List String
relevant c e = sorted_set (keep (contains c.alert_on) (map (λ d. d.detector) e.detections))

-- `if v: extras.append(...)`
abbrev extra_part : String → Option String → List String
extra_part label none = []
extra_part label (some v) = if v == "" then [] else (label <> v) ∷ []

-- `_format_slack`
unfoldable pub format_slack : String → Event → String
format_slack kind e =
    let rules = sorted_set (map (λ d. d.rule) (keep (λ d. d.detector == kind) e.detections)) in
    let suffix = join " | " (
      extra_part "thread_id: " e.thread_id
      ++ (extra_part "node: " e.node ++ extra_part "run_id: " e.run_id)) in
    "[langgraph-lens] "
    <> kind
    <> " detection — rules: "
    <> join ", " rules
    <> " | correlation_id: "
    <> e.correlation_id
    <> (if suffix == "" then "" else " | " <> suffix)

-- `self._last_sent.get(kind, 0.0)`
abbrev pub last_of : Option ℕ → ℕ
last_of none = 0
last_of (some t) = t

-- `AlertSender(config)`
abbrev pub init : AlertsConfig → AlertSender
init c = record { config = c; last_sent = []; posts = []; raised = false }

-- `now - last < self.config.cooldown_seconds`
unfoldable pub waiting : ℕ → String → AlertSender → Bool
waiting now kind a = ltb now (last_of (get kind a.last_sent) + ticks a.config.cooldown_seconds)

-- `self._last_sent[kind] = now` and `_send`
unfoldable pub send : Hook → ℕ → Event → String → AlertSender → AlertSender
send hook now e kind a =
    let body = format_slack kind e in
    let post : Post = record { kind = kind; sent_at = now; body = body } in
    record a {
      last_sent = put kind now a.last_sent;
      posts = post ∷ a.posts;
      raised = hook a.config.slack_webhook body now;
    }

-- The loop over the relevant kinds: a kind in its cooldown is passed over, and an exception of a post
-- ends the loop.
unfoldable pub send_kinds : Hook → ℕ → Event → List String → AlertSender → AlertSender
send_kinds hook now e [] a = a
send_kinds hook now e (kind ∷ kinds) a =
    let a' = if waiting now kind a then a else send hook now e kind a in
    let rest = send_kinds hook now e kinds a' in if a'.raised then a' else rest

-- No exception is under way.
abbrev pub calm : AlertSender → AlertSender
calm a = record a { raised = false }

unfoldable pub maybe_send : Hook → ℕ → Event → AlertSender → AlertSender
maybe_send hook now e a =
    if not a.config.enabled || (a.config.slack_webhook == "")
    then calm a
    else send_kinds hook now e (relevant a.config e) (calm a)
