-- ===== src/RateLimiter/Limit.antt =====
-- The whole limiter: one call and its buckets, the total granted to a key, the wait of a refused
-- call.
use langgraph_lens.Prelude.{
  ℕ, ◌+◌, ◌-◌, ◌*◌, ◌≤◌, ◌<◌, ◌≡◌, refl, sym, subst, ◌∙◌, Bool, true, false, ◌&&◌, Option, some,
  String, List, [], ◌∷◌, arith, if◌then◌else◌, leb, Bool-cases, inl, inr, string_eq, ◌==◌,
}
use langgraph_lens.Prelude.Int.{pos_part}
use langgraph_lens.Prelude.Dict.{get, get-put}
use langgraph_lens.Time.{Fraction}
use langgraph_lens.Event.{Detection}
use langgraph_lens.Args.{Args, stringify_args}
use langgraph_lens.Decision.{LensDecision, is_allow, pass}
use langgraph_lens.RateLimiter.{
  Bucket, Limiter, Mode, RateLimitConfig, make_key, cost, refilled, charged, affords, full, spend,
  evaluate, one_token, retry_after, refusal,
}
use langgraph_lens.RateLimiter.Balance.{
  IsSound, IsSound-later, available, affords_later, charged_poor, available_later, available_now,
  last_refill-charged, refilled-IsSound, charged-IsSound,
}

-- One call of `evaluate`, with its reading of the clock.
pub record Request : Type 0 where
  pub now : ℕ
  pub tool : String
  pub args : Args
  pub thread_id : Option String
  pub tenant : Option String

-- Every bucket is sound at `now`.
pub record IsLimiter (now : ℕ) (l : Limiter) : Type 0 where
  pub on : l.config.enabled ≡ true
  pub sound : (k : String) (b : Bucket) → get k l.buckets ≡ some b → IsSound l.config now b

spend_lem :
    (l : Limiter) (key : String) (tokens : ℕ) (b : Bucket)
    → let price = tokens * one_token in
      ((spend l key tokens b).0
        ≡ (if affords b price then pass else refusal l.config.mode (retry_after l.config price b)))
      × ((spend l key tokens b).2.config ≡ l.config)
      × ((k : String)
          → get k (spend l key tokens b).2.buckets
            ≡ (if k == key then some (charged b price) else get k l.buckets))
unfolding spend
spend_lem l key tokens b = elim (Bool-cases (affords b (tokens * one_token))) [
  | inl e ↦ rw e (refl, refl, λ k. get-put k key _ l.buckets)
  | inr e ↦ rw e (refl, refl, λ k. get-put k key _ l.buckets)
]

refusal_inv :
    (m : Mode) (rich : Bool) (w wait : Fraction)
    → (if rich then pass else refusal m w) ≡ refusal m wait
    → (rich ≡ false) × (w ≡ wait)
refusal_inv m rich w wait e = ground arith

pub allow_if :
    (m : Mode) (rich : Bool) (w : Fraction)
    → is_allow (if rich then pass else refusal m w).action ≡ rich
allow_if m rich w = ground arith

module _ (float_repr : Fraction → String) where
  abbrev pub call : Request → Limiter → LensDecision × List Detection × Limiter
  call q = evaluate float_repr q.now q.tool q.args q.thread_id q.tenant

  abbrev pub key_of : Limiter → Request → String
  key_of l q = make_key l.config q.tool q.thread_id q.tenant

  -- The price of a call, in units of a balance.
  abbrev pub price_of : Limiter → Request → ℕ
  price_of l q = cost l.config (stringify_args float_repr q.args) * one_token

  abbrev pub bucket_of : Limiter → Request → Bucket
  bucket_of l q = refilled l.config q.now (get (key_of l q) l.buckets)

  call_on :
      (l : Limiter) (q : Request)
      → l.config.enabled ≡ true
      → call q l
        ≡ spend l (key_of l q) (cost l.config (stringify_args float_repr q.args)) (bucket_of l q)
  unfolding evaluate
  call_on l q on = simp on

  -- On an enabled limiter, a call passes exactly if the refilled bucket of its key covers the
  -- price; then the price is taken from it. Otherwise it is refused with the time that the
  -- shortfall takes to refill. Every other bucket stays as it is.
  pub call_lem :
      (l : Limiter) (q : Request)
      → l.config.enabled ≡ true
      → let b = bucket_of l q in
        let price = price_of l q in
        ((call q l).0 ≡ (
          if affords b price then pass else refusal l.config.mode (retry_after l.config price b)))
        × ((call q l).2.config ≡ l.config)
        × ((k : String)
            → get k (call q l).2.buckets
              ≡ (if k == key_of l q then some (charged b price) else get k l.buckets))
  call_lem l q on =
      rw (call_on l q on) (
        spend_lem l (key_of l q) (cost l.config (stringify_args float_repr q.args)) (bucket_of l q))

  -- The price of the call if it passes.
  abbrev pub granted : Request → Limiter → ℕ
  granted q l = if is_allow (call q l).0.action then price_of l q else 0

  -- What the calls on the key `k` are granted, in total.
  pub spent : String → List Request → Limiter → ℕ
  spent k [] l = 0
  spent k (q ∷ qs) l =
      let rest = spent k qs (call q l).2 in (if k == key_of l q then granted q l else 0) + rest

  -- The calls come in the order of time, from `start` up to `end`.
  abbrev pub InOrder : ℕ → List Request → ℕ → Type 0
  InOrder start [] end = start ≤ end
  InOrder start (q ∷ qs) end = (start ≤ q.now) × InOrder q.now qs end

  module _ (l : Limiter) (q : Request) (h : IsLimiter q.now l) where
    refilled-IsSound_bucket :
        IsSound l.config q.now (bucket_of l q)
        × (pos_part (bucket_of l q).tokens ≤ available l.config q.now (get (key_of l q) l.buckets))
        × ((bucket_of l q).last_refill ≡ q.now)
    refilled-IsSound_bucket = refilled-IsSound l.config q.now _ (λ b e. h.sound (key_of l q) b e)

    charged-IsSound_bucket :
        IsSound l.config q.now (charged (bucket_of l q) (price_of l q))
        × (pos_part (charged (bucket_of l q) (price_of l q)).tokens
              + (if affords (bucket_of l q) (price_of l q) then price_of l q else 0)
            ≤ pos_part (bucket_of l q).tokens)
    charged-IsSound_bucket =
        charged-IsSound l.config q.now (bucket_of l q) (price_of l q) refilled-IsSound_bucket.0

    IsSound-after :
        (k : String) (b : Bucket) → get k (call q l).2.buckets ≡ some b → IsSound l.config q.now b
    IsSound-after k b e =
        let g = (call_lem l q h.on).2 k in
        elim (string_eq.dec k (key_of l q)) [
          | yes p ↦ subst (IsSound l.config q.now) (ground (arith, e, g)) charged-IsSound_bucket.0
          | no n ↦ h.sound k b (ground (arith, e, g))
        ]

    -- A call on an enabled limiter with sound buckets keeps every bucket sound.
    pub call-IsLimiter : IsLimiter q.now (call q l).2
    call-IsLimiter = record {
      on = rw (call_lem l q h.on).1 h.on;
      sound = λ k b e. rw (call_lem l q h.on).1 (IsSound-after k b e);
    }

    granted_lem : granted q l ≡ (if affords (bucket_of l q) (price_of l q) then price_of l q else 0)
    granted_lem = rw (call_lem l q h.on).0 (ground arith)

    -- What is granted comes out of what was available.
    step_bound :
        (k : String)
        → (if k == key_of l q then granted q l else 0)
            + available l.config q.now (get k (call q l).2.buckets)
          ≤ available l.config q.now (get k l.buckets)
    step_bound k =
        let left = available_now l.config q.now (charged (bucket_of l q) (price_of l q)) (
          last_refill-charged l.config q.now (bucket_of l q) (price_of l q)
          ∙ refilled-IsSound_bucket.2) in
        elim (string_eq.dec k (key_of l q)) [
          | yes p ↦
              rw ((call_lem l q h.on).2 k, p)
                (ground
                  (arith, granted_lem, left, charged-IsSound_bucket.1, refilled-IsSound_bucket.1))
          | no n ↦ rw ((call_lem l q h.on).2 k) (ground arith)
        ]

  IsLimiter-later : (t now : ℕ) (l : Limiter) → t ≤ now → IsLimiter t l → IsLimiter now l
  IsLimiter-later t now l h v = record {
    on = v.on;
    sound = λ k b e. IsSound-later l.config t now b h (v.sound k b e);
  }

  InOrder-le : (start : ℕ) (qs : List Request) (end : ℕ) → InOrder start qs end → start ≤ end
  InOrder-le start [] end o = o
  InOrder-le start (q ∷ qs) end o = omega (arith, InOrder-le q.now qs end o.1)

  refill_split : (a b c r : ℕ) → a ≤ b → b ≤ c → (c - b) * r + (b - a) * r ≡ (c - a) * r
  refill_split a b c r h k = let e : c - a ≡ (c - b) + (b - a) = omega arith in rw e (grind arith)

  spent-available :
      (k : String) (qs : List Request) (l : Limiter) (start end : ℕ)
      → IsLimiter start l
      → InOrder start qs end
      → spent k qs l
        ≤ available l.config start (get k l.buckets) + (end - start) * l.config.refill_per_second
  unfolding spent
  spent-available k [] l start end h o = omega arith
  spent-available k (q ∷ qs) l start end h o =
      let hq = IsLimiter-later start q.now l o.0 h in
      let rest =
        rw (call_lem l q hq.on).1 at
          (spent-available k qs (call q l).2 q.now end (call-IsLimiter l q hq) o.1) in
      omega (
        arith,
        rest,
        step_bound l q hq k,
        available_later l.config start q.now (get k l.buckets) o.0 (h.sound k),
        refill_split start q.now end l.config.refill_per_second o.0 (InOrder-le q.now qs end o.1),
      )

  -- Whatever calls a new, enabled limiter gets between `start` and `end`, on a clock that is not
  -- set back, those on one key are granted no more than the capacity and the refill of that time.
  pub spent_bound :
      (k : String) (qs : List Request) (c : RateLimitConfig) (start end : ℕ)
      → c.enabled ≡ true
      → InOrder start qs end
      → spent k qs (record { config = c; buckets = [] })
        ≤ full c + (end - start) * c.refill_per_second
  unfolding get
  spent_bound k qs c start end on o =
      spent-available k qs (record { config = c; buckets = [] }) start end
        (record { on = on; sound = λ j b e. cc }) o

  -- On an enabled limiter with sound buckets and a positive refill, a refused call that is repeated
  -- at `t`, not earlier and with nothing in between, passes exactly if its price is not
  -- above the capacity and `retry_after` is over by then. A price above the capacity never passes,
  -- although each refusal gives a time.
  pub retry_exact :
      (l : Limiter) (q : Request) (t : ℕ) (wait : Fraction)
      → IsLimiter q.now l
      → q.now ≤ t
      → 0 < l.config.refill_per_second
      → (call q l).0 ≡ refusal l.config.mode wait
      → is_allow (call (record q { now = t }) (call q l).2).0.action
        ≡ (leb (price_of l q) (full l.config) && leb wait.num ((t - q.now) * wait.den))
  retry_exact l q t wait h later rate refused =
      let r = call_lem l q h.on in
      let l' = (call q l).2 in
      let q' : Request = record q { now = t } in
      let (poor, same) = refusal_inv l.config.mode _ _ wait (sym r.0 ∙ refused) in
      let left = charged_poor l.config (bucket_of l q) (price_of l q) poor in
      let there : get (key_of l q) l'.buckets ≡ some (bucket_of l q) =
        r.2 (key_of l q) ∙ ground (arith, left) in
      rw ((call_lem l' q' (rw r.1 h.on)).0, r.1, there)
        (rw (← same) (
          allow_if l.config.mode _ _
          ∙ affords_later l.config q.now t (price_of l q) (bucket_of l q)
              (refilled-IsSound_bucket l q h).0 (refilled-IsSound_bucket l q h).2 later rate poor))
