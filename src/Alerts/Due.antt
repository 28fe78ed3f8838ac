-- ===== src/Alerts/Due.antt =====
-- alerts.py: what one call of `maybe_send` posts.
use langgraph_lens.Prelude.{
  ap, ℕ, ◌+◌, String, Bool, true, false, not, ◌&&◌, List, [], ◌∷◌, contains, count, keep, map,
  if◌then◌else◌, string_eq, ◌==◌, ◌≤◌, leb, ◌≡◌, ◌∙◌, sym, arith,
}
use langgraph_lens.Prelude.Dict.{get, get-put}
use langgraph_lens.Time.{ticks}
use langgraph_lens.Text.Order.{is_distinct, contains-sorted_set, is_distinct-sorted_set}
use langgraph_lens.Text.Sets.{contains-keep}
use langgraph_lens.Event.{Event}
use langgraph_lens.Alerts.{
  Hook, calm, last_of, AlertsConfig, AlertSender, Post, waiting, send, send_kinds, maybe_send,
  relevant,
}

-- The number of posts about a detector.
abbrev pub posts_about : String → List Post → ℕ
posts_about kind = count (λ p. p.kind == kind)

abbrev pub one_if : Bool → ℕ
one_if b = if b then 1 else 0

-- The time of the last post about the detector, if any, is the cooldown or more ago.
abbrev pub is_due : String → ℕ → AlertSender → Bool
is_due kind now a = leb (last_of (get kind a.last_sent) + ticks a.config.cooldown_seconds) now

-- From `before` to `after` posts, for `due` of them, of which an exception leaves out one at most.
abbrev pub Posted : ℕ → ℕ → Bool → AlertSender → Type 0
Posted before after due a =
    (after ≤ before + one_if due) × (before + one_if due ≤ after + one_if a.raised)

posts_about-send_kinds :
    (hook : Hook) (kind : String) (now : ℕ) (e : Event) (kinds : List String) (a : AlertSender)
    → is_distinct kinds ≡ true
    → let a' = send_kinds hook now e kinds a in
      Posted
        (posts_about kind a.posts)
        (posts_about kind a'.posts)
        (contains kinds kind && is_due kind now a)
        a'
unfolding send_kinds send waiting
posts_about-send_kinds hook kind now e [] a d = ground arith
posts_about-send_kinds hook kind now e (j ∷ kinds) a d = elim (string_eq.dec kind j) [
  | yes same ↦
      let new : contains kinds kind ≡ false = ground (arith, ap (contains kinds) same) in
      let both : is_due kind now a ≡ is_due j now a = ap (λ k. is_due k now a) same in
      ground (
        arith,
        same,
        sym same,
        new,
        both,
        posts_about-send_kinds hook kind now e kinds a,
        posts_about-send_kinds hook kind now e kinds (send hook now e j a),
      )
  | no differ ↦ ground (
    arith,
    differ,
    get-put kind j now a.last_sent,
    posts_about-send_kinds hook kind now e kinds a,
    posts_about-send_kinds hook kind now e kinds (send hook now e j a),
  )
]

contains-relevant :
    (c : AlertsConfig) (e : Event) (kind : String)
    → contains (relevant c e) kind
      ≡ (contains (map (λ d. d.detector) e.detections) kind && contains c.alert_on kind)
unfolding relevant
contains-relevant c e kind =
    contains-sorted_set (keep (contains c.alert_on) (map (λ d. d.detector) e.detections)) kind
    ∙ contains-keep (contains c.alert_on) (map (λ d. d.detector) e.detections) kind

-- A post about a detector is due if the alerts are enabled with a web hook, the detector is in
-- `alert_on` and has a detection in the event, and the time of its last post and the cooldown add up
-- to no more than the time now. A call posts about the detector once if that is due, unless the call
-- ends with an exception of a post, which may leave it out; if it is not due the call does not post.
pub maybe_send_posts :
    (hook : Hook) (kind : String) (now : ℕ) (e : Event) (a : AlertSender)
    → let a' = maybe_send hook now e a in
      Posted
        (posts_about kind a.posts)
        (posts_about kind a'.posts)
        (a.config.enabled
          && not (a.config.slack_webhook == "")
          && contains a.config.alert_on kind
          && contains (map (λ d. d.detector) e.detections) kind
          && is_due kind now a)
        a'
unfolding maybe_send relevant
maybe_send_posts hook kind now e a = ground (
  arith,
  contains-relevant a.config e kind,
  posts_about-send_kinds hook kind now e (relevant a.config e) (calm a) (
      is_distinct-sorted_set
        (keep (contains a.config.alert_on) (map (λ d. d.detector) e.detections))),
)
