-- ===== src/Lens/Secrecy.antt =====
-- lens.py, `_emit`: what the extras of a detection, such as the matched text, do not reach, and the
-- spans of the emitted events.
use langgraph_lens.Prelude.{
  ◌||◌, ℕ, String, ◌≡◌, refl, ap, arith, List, [], ◌∷◌, map, keep, if◌then◌else◌, string_eq, ◌==◌,
}
use langgraph_lens.Runtime.{Runtime}
use langgraph_lens.Event.{Detection, Event}
use langgraph_lens.Alerts.{
  Hook, calm, AlertsConfig, AlertSender, relevant, format_slack, waiting, send, send_kinds,
  maybe_send,
}
use langgraph_lens.Tracing.{OtelBridge, export, span_of, span_event}
use langgraph_lens.Lens.{Lens, alerted, emit}

-- A detection without its extras.
abbrev pub bare : Detection → Detection
bare d = record d { extra = [] }

abbrev pub strip : Event → Event
strip e = record e { detections = map bare e.detections }

map_bare : (ds : List Detection) → map (λ d. d.detector) (map bare ds) ≡ map (λ d. d.detector) ds
map_bare [] = refl
map_bare (d ∷ ds) = ground (arith, map_bare ds)

rules_bare :
    (kind : String) (ds : List Detection)
    → map (λ d. d.rule) (keep (λ d. d.detector == kind) (map bare ds))
      ≡ map (λ d. d.rule) (keep (λ d. d.detector == kind) ds)
rules_bare kind [] = refl
rules_bare kind (d ∷ ds) = ground (arith, rules_bare kind ds)

events_bare : (ds : List Detection) → map span_event (map bare ds) ≡ map span_event ds
unfolding span_event
events_bare [] = refl
events_bare (d ∷ ds) = ap (λ es. span_event d ∷ es) (events_bare ds)

relevant-strip : (c : AlertsConfig) (e : Event) → relevant c (strip e) ≡ relevant c e
unfolding relevant
relevant-strip c e = rw (map_bare e.detections) refl

format_slack-strip : (kind : String) (e : Event) → format_slack kind (strip e) ≡ format_slack kind e
unfolding format_slack
format_slack-strip kind e = rw (rules_bare kind e.detections) refl

send_kinds-strip :
    (hook : Hook) (now : ℕ) (e : Event) (kinds : List String) (a : AlertSender)
    → send_kinds hook now (strip e) kinds a ≡ send_kinds hook now e kinds a
unfolding send_kinds send
send_kinds-strip hook now e [] a = refl
send_kinds-strip hook now e (kind ∷ kinds) a =
    let a' = if waiting now kind a then a else send hook now e kind a in
    rw (format_slack-strip kind e, send_kinds-strip hook now e kinds a') refl

maybe_send-strip :
    (hook : Hook) (now : ℕ) (e : Event) (a : AlertSender)
    → maybe_send hook now (strip e) a ≡ maybe_send hook now e a
unfolding maybe_send
maybe_send-strip hook now e a =
    rw (relevant-strip a.config e, send_kinds-strip hook now e (relevant a.config e) (calm a)) refl

span_of-strip : (e : Event) → span_of (strip e) ≡ span_of e
unfolding span_of
span_of-strip e = rw (events_bare e.detections) refl

export-strip : (e : Event) (b : OtelBridge) → export (strip e) b ≡ export e b
unfolding export
export-strip e b = ground (arith, span_of-strip e)

alerted-strip :
    (hook : Hook) (now : ℕ) (e : Event) (ds : List Detection) (a : AlertSender)
    → alerted hook now (strip e) (map bare ds) a ≡ alerted hook now e ds a
unfolding alerted
alerted-strip hook now e [] a = refl
alerted-strip hook now e (d ∷ ds) a = maybe_send-strip hook now e a

-- Nothing that a detection has in its extras, the matched text among them, reaches an alert or a span:
-- without the extras the event leaves the same alerts and the same spans.
pub emit-strip :
    (rt : Runtime) (e : Event) (l : Lens)
    → ((emit rt (strip e) l).alerts ≡ (emit rt e l).alerts)
      × ((emit rt (strip e) l).otel ≡ (emit rt e l).otel)
unfolding emit
emit-strip rt e l =
    let same = alerted-strip rt.post_raises (rt.clock l.ticks_read) e e.detections l.alerts in
    (
      ap {A = AlertSender} (λ a. record a { raised = l.alerts.raised || a.raised }) same,
      rw same (ground (arith, export-strip e l.otel)),
    )
