-- ===== src/Alerts/Cooldown.antt =====
-- alerts.py: the cooldown of a detector, over whatever calls of `maybe_send`.
use langgraph_lens.Prelude.{
  subst, nat_eq, ap, ℕ, ◌+◌, String, Bool, true, false, not, ◌&&◌, ◌||◌, List, [], ◌∷◌, ltb, leb,
  if◌then◌else◌, string_eq, ◌==◌, ◌≡◌, ◌∙◌, refl, arith,
}
use langgraph_lens.Prelude.Dict.{Dict, get, put, get-put}
use langgraph_lens.Time.{ticks}
use langgraph_lens.Event.{Event}
use langgraph_lens.Alerts.{
  Hook, calm, AlertsConfig, AlertSender, Post, init, last_of, waiting, format_slack, send,
  send_kinds, maybe_send, relevant,
}

-- The posts of one detector are all at least `w` ticks before this one.
unfoldable pub clear_before : ℕ → Post → List Post → Bool
clear_before w p [] = true
clear_before w p (q ∷ qs) =
    (not (q.kind == p.kind) || leb (q.sent_at + w) p.sent_at) && clear_before w p qs

-- Any two posts of one detector are at least `w` ticks apart, the newest first.
unfoldable pub spaced : ℕ → List Post → Bool
spaced w [] = true
spaced w (p ∷ ps) = clear_before w p ps && spaced w ps

-- The calls of `maybe_send`, each with its reading of the clock.
unfoldable pub maybe_sends : Hook → List (ℕ × Event) → AlertSender → AlertSender
maybe_sends hook [] a = a
maybe_sends hook ((now, e) ∷ calls) a = maybe_sends hook calls (maybe_send hook now e a)

-- No post is later than the entry of its detector in the table.
unfoldable pub recorded : Dict String ℕ → List Post → Bool
recorded d [] = true
recorded d (p ∷ ps) = leb p.sent_at (last_of (get p.kind d)) && recorded d ps

abbrev pub Spaced : AlertSender → Type 0
Spaced a =
    (spaced (ticks a.config.cooldown_seconds) a.posts ≡ true)
    × (recorded a.last_sent a.posts ≡ true)

recorded-clear_before :
    (w now : ℕ) (kind body : String) (d : Dict String ℕ) (ps : List Post)
    → recorded d ps ≡ true
    → ltb now (last_of (get kind d) + w) ≡ false
    → clear_before w (record { kind = kind; sent_at = now; body = body }) ps ≡ true
unfolding recorded clear_before
recorded-clear_before w now kind body d [] h k = refl
recorded-clear_before w now kind body d (p ∷ ps) h k = elim (string_eq.dec p.kind kind) [
  | yes e ↦
      let same : last_of (get p.kind d) ≡ last_of (get kind d) = ap (λ x. last_of (get x d)) e in
      ground (arith, h, k, same, recorded-clear_before w now kind body d ps)
  | no n ↦ ground (arith, h, k, recorded-clear_before w now kind body d ps)
]

recorded-put :
    (w now : ℕ) (kind : String) (d : Dict String ℕ) (ps : List Post)
    → recorded d ps ≡ true
    → ltb now (last_of (get kind d) + w) ≡ false
    → recorded (put kind now d) ps ≡ true
unfolding recorded
recorded-put w now kind d [] h k = refl
recorded-put w now kind d (p ∷ ps) h k = elim (string_eq.dec p.kind kind) [
  | yes e ↦
      let same : last_of (get p.kind d) ≡ last_of (get kind d) = ap (λ x. last_of (get x d)) e in
      ground (arith, h, k, same, get-put p.kind kind now d, recorded-put w now kind d ps)
  | no n ↦ ground (arith, h, k, get-put p.kind kind now d, recorded-put w now kind d ps)
]

Spaced-send :
    (hook : Hook) (now : ℕ) (e : Event) (kind : String) (a : AlertSender)
    → waiting now kind a ≡ false
    → Spaced a
    → Spaced (send hook now e kind a)
unfolding waiting send spaced recorded
Spaced-send hook now e kind a k (h, g) = (
  ground (
    arith,
    h,
    recorded-clear_before (ticks a.config.cooldown_seconds) now kind (format_slack kind e)
        a.last_sent a.posts g k,
  ),
  ground (
    arith,
    get-put kind kind now a.last_sent,
    recorded-put (ticks a.config.cooldown_seconds) now kind a.last_sent a.posts g k,
  ),
)

Spaced-if :
    (b : Bool) (x y : AlertSender)
    → (b ≡ true → Spaced x)
    → (b ≡ false → Spaced y)
    → Spaced (if b then x else y)
Spaced-if true x y f g = f refl
Spaced-if false x y f g = g refl

Spaced-send_kinds :
    (hook : Hook) (now : ℕ) (e : Event) (kinds : List String) (a : AlertSender)
    → Spaced a
    → Spaced (send_kinds hook now e kinds a)
unfolding send_kinds
Spaced-send_kinds hook now e [] a h = h
Spaced-send_kinds hook now e (kind ∷ kinds) a h =
    let a' = if waiting now kind a then a else send hook now e kind a in
    let next =
      Spaced-if (waiting now kind a) a (send hook now e kind a) (λ on. h)
        (λ off. Spaced-send hook now e kind a off h) in
    Spaced-if a'.raised a' (send_kinds hook now e kinds a') (λ out. next)
      (λ on. Spaced-send_kinds hook now e kinds a' next)

pub Spaced-maybe_send :
    (hook : Hook) (now : ℕ) (e : Event) (a : AlertSender)
    → Spaced a
    → Spaced (maybe_send hook now e a)
unfolding maybe_send
Spaced-maybe_send hook now e a h =
    Spaced-if (not a.config.enabled || (a.config.slack_webhook == "")) (calm a)
      (send_kinds hook now e (relevant a.config e) (calm a)) (λ off. h)
      (λ on. Spaced-send_kinds hook now e (relevant a.config e) (calm a) h)

Spaced-maybe_sends :
    (hook : Hook) (calls : List (ℕ × Event)) (a : AlertSender)
    → Spaced a
    → Spaced (maybe_sends hook calls a)
unfolding maybe_sends
Spaced-maybe_sends hook [] a h = h
Spaced-maybe_sends hook ((now, e) ∷ calls) a h =
    Spaced-maybe_sends hook calls (maybe_send hook now e a) (Spaced-maybe_send hook now e a h)

config-send_kinds :
    (hook : Hook) (now : ℕ) (e : Event) (kinds : List String) (a : AlertSender)
    → (send_kinds hook now e kinds a).config ≡ a.config
unfolding send_kinds send
config-send_kinds hook now e [] a = refl
config-send_kinds hook now e (kind ∷ kinds) a = ground (
  arith,
  config-send_kinds hook now e kinds a,
  config-send_kinds hook now e kinds (send hook now e kind a),
)

pub config-maybe_send :
    (hook : Hook) (now : ℕ) (e : Event) (a : AlertSender)
    → (maybe_send hook now e a).config ≡ a.config
unfolding maybe_send
config-maybe_send hook now e a =
    ground (arith, config-send_kinds hook now e (relevant a.config e) (calm a))

config-maybe_sends :
    (hook : Hook) (calls : List (ℕ × Event)) (a : AlertSender)
    → (maybe_sends hook calls a).config ≡ a.config
unfolding maybe_sends
config-maybe_sends hook [] a = refl
config-maybe_sends hook ((now, e) ∷ calls) a =
    config-maybe_sends hook calls (maybe_send hook now e a) ∙ config-maybe_send hook now e a

-- However the clock is set, whatever posts raise an exception and whatever events a new sender is
-- called with, any two of its posts about one detector were sent at least `cooldown_seconds` apart.
pub maybe_sends-spaced :
    (hook : Hook) (c : AlertsConfig) (calls : List (ℕ × Event))
    → spaced (ticks c.cooldown_seconds) (maybe_sends hook calls (init c)).posts ≡ true
unfolding spaced recorded
maybe_sends-spaced hook c calls =
    subst (λ x. spaced (ticks x.cooldown_seconds) (maybe_sends hook calls (init c)).posts ≡ true)
      (config-maybe_sends hook calls (init c))
      (Spaced-maybe_sends hook calls (init c) (refl, refl)).0
