-- ===== src/Lens/Safe.antt =====
-- lens.py: what every method of the orchestrator keeps, over its breaker, its alerts and its buffers.
pub mod Methods
pub mod Decisions
pub mod History
use langgraph_lens.Prelude.{
  ℕ, ◌+◌, ◌-◌, ◌≤◌, String, ◌≡◌, refl, ap, sym, ◌∙◌, subst, Bool, true, false, Option, none, some,
  List, [], ◌∷◌, ◌++◌, length, length-append, length-drop, drop, arith, string_eq, option_eq, ◌==◌,
  Bool-cases, Option-cases, inl, inr, if◌then◌else◌,
}
use langgraph_lens.Prelude.Dict.{get, put, get-put}
use langgraph_lens.Runtime.{Runtime}
use langgraph_lens.Event.{Event, Detection}
use langgraph_lens.Alerts.{Hook, AlertSender, AlertsConfig, maybe_send}
use langgraph_lens.Alerts.Cooldown.{Spaced, Spaced-maybe_send, config-maybe_send}
use langgraph_lens.Breaker.{Breaker}
use langgraph_lens.Breaker.Invariant.{Inv}
use langgraph_lens.Lens.{
  Lens, LensConfig, alerted, emit, correlation_for, events_for_thread, events_of, named,
}
use langgraph_lens.Lens.Emit.{latest, events-emit}
use langgraph_lens.Lens.Outcome.{extend, extend_last, extend_buffer}

-- The sender has the configuration, and keeps the cooldown of each detector.
abbrev pub Keeps : AlertsConfig → AlertSender → Type 0
Keeps c a = (a.config ≡ c) × Spaced a

-- No buffer of a named thread is longer than its limit.
abbrev pub Short : Lens → Type 0
Short l = (thread : String) → (thread == "") ≡ false → length (events_for_thread thread l) ≤ 256

abbrev pub Safe : LensConfig → Lens → Type 0
Safe c l = Inv c.tier2.circuit_breaker l.circuit_breaker × Keeps c.alerts l.alerts × Short l

Keeps-alerted :
    (c : AlertsConfig) (hook : Hook) (now : ℕ) (e : Event) (ds : List Detection) (a : AlertSender)
    → Keeps c a
    → Keeps c (alerted hook now e ds a)
unfolding alerted
Keeps-alerted c hook now e [] a h = h
Keeps-alerted c hook now e (d ∷ ds) a (same, h) =
    (config-maybe_send hook now e a ∙ same, Spaced-maybe_send hook now e a h)

latest_bounded : (es : List Event) → length (latest es) ≤ 256
latest_bounded es = omega (arith, length-drop (length es - 256) es)

Short-emit : (rt : Runtime) (e : Event) (l : Lens) → Short l → Short (emit rt e l)
Short-emit rt e l h thread named =
    let both = latest_bounded (events_for_thread thread l ++ e ∷ []) in
    ground (arith, events-emit rt e l thread named, both, h thread named)

pub Safe-emit :
    (c : LensConfig) (rt : Runtime) (e : Event) (l : Lens) → Safe c l → Safe c (emit rt e l)
unfolding emit
Safe-emit c rt e l (probes, kept, short) = (
  probes,
  Keeps-alerted c.alerts rt.post_raises (rt.clock l.ticks_read) e e.detections l.alerts kept,
  Short-emit rt e l short,
)

-- Nothing that `Safe` speaks of is changed.
abbrev pub Same : Lens → Lens → Type 0
Same l l' =
    (l.circuit_breaker ≡ l'.circuit_breaker)
    × (l.alerts ≡ l'.alerts)
    × (l.thread_events ≡ l'.thread_events)

pub Safe-Same : (c : LensConfig) (l l' : Lens) → Same l l' → Safe c l → Safe c l'
unfolding events_for_thread
Safe-Same c l l' (breaker, alerts, events) (probes, kept, short) = (
  subst (Inv c.tier2.circuit_breaker) breaker probes,
  subst (Keeps c.alerts) alerts kept,
  λ thread named. subst (λ d. length (events_of (get thread d)) ≤ 256) events (short thread named),
)

-- The state is that after an event was emitted, with nothing changed before that `Safe` speaks of.
abbrev pub Emitted : Runtime → Lens → Lens → Type 0
Emitted rt l m = (e : Event) × (l' : Lens) × (m ≡ emit rt e l') × Same l l'

pub Safe-Emitted :
    (c : LensConfig) (rt : Runtime) (l m : Lens) → Emitted rt l m → Safe c l → Safe c m
Safe-Emitted c rt l m (e, l', same, kept) h =
    subst (Safe c) (sym same) (Safe-emit c rt e l' (Safe-Same c l l' kept h))

pub Safe-if {ℓ} :
    {A : Type ℓ} (c : LensConfig) (b : Bool) (x y : A × Lens)
    → Safe c x.1
    → Safe c y.1
    → Safe c (if b then x else y).1
Safe-if c true x y h k = h
Safe-if c false x y h k = k

-- One of two ends: an event is emitted, or nothing is changed.
pub Safe-branch {ℓ} :
    {A : Type ℓ} (c : LensConfig) (rt : Runtime) (l : Lens) (b : Bool) (m x y : A × Lens)
    → m ≡ (if b then x else y)
    → Emitted rt l x.1
    → Same l y.1
    → Safe c l
    → Safe c m.1
Safe-branch c rt l true m x y e sent same h =
    subst (λ r. Safe c r.1) (sym e) (Safe-Emitted c rt l x.1 sent h)
Safe-branch c rt l false m x y e sent same h =
    subst (λ r. Safe c r.1) (sym e) (Safe-Same c l y.1 same h)

pub Safe-either :
    (c : LensConfig) (b : Bool) (l l' : Lens) → Safe c l → Safe c l' → Safe c (if b then l else l')
Safe-either c true l l' h k = h
Safe-either c false l l' h k = k

length-extend_last :
    (ds : List Detection) (es : List Event) → length (extend_last ds es) ≡ length es
unfolding extend_last
length-extend_last ds [] = refl
length-extend_last ds (e ∷ []) = refl
length-extend_last ds (e ∷ f ∷ es) = ground (arith, length-extend_last ds (f ∷ es))

unextended :
    (thread_id : Option String) (ds : List Detection) (l : Lens)
    → (l.circuit_breaker ≡ (extend_buffer thread_id ds l).circuit_breaker)
      × (l.alerts ≡ (extend_buffer thread_id ds l).alerts)
unfolding extend_buffer
unextended thread_id ds l = (ground arith, ground arith)

length-extend_buffer :
    (thread_id : Option String) (ds : List Detection) (l : Lens) (thread : String)
    → length (events_for_thread thread (extend_buffer thread_id ds l))
      ≡ length (events_for_thread thread l)
unfolding extend_buffer events_for_thread
length-extend_buffer thread_id ds l thread = elim (Option-cases (named thread_id)) [
  | inl unnamed ↦ ground (arith, unnamed)
  | inr (t, there) ↦
      let es = extend_last ds (events_of (get t l.thread_events)) in
      let long = length-extend_last ds (events_of (get t l.thread_events)) in
      let written = get-put thread t es l.thread_events in
      elim (string_eq.dec thread t) [
        | yes own ↦
            let same = ap (λ x. length (events_of (get x l.thread_events))) own in
            ground (arith, there, own, written, long, same)
        | no other ↦ ground (arith, there, other, written)
      ]
]

pub Safe-extend_buffer :
    (c : LensConfig) (thread_id : Option String) (ds : List Detection) (l : Lens)
    → Safe c l
    → Safe c (extend_buffer thread_id ds l)
Safe-extend_buffer c thread_id ds l (probes, kept, short) =
    let (breaker, alerts) = unextended thread_id ds l in
    (
      subst (Inv c.tier2.circuit_breaker) breaker probes,
      subst (Keeps c.alerts) alerts kept,
      λ thread named. omega (arith, length-extend_buffer thread_id ds l thread, short thread named),
    )
