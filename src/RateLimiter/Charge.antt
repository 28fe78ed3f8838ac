-- ===== src/RateLimiter/Charge.antt =====
-- What one call of the limiter takes from which bucket, in natural numbers.
use langgraph_lens.Prelude.{
  ℕ, ◌+◌, ◌-◌, ◌*◌, ◌≡◌, refl, ◌∙◌, Option, none, some, String, arith, if◌then◌else◌, leb,
  Bool-cases, inl, inr, string_eq, ◌==◌, ap,
}
use langgraph_lens.Prelude.Int.{pos, pos_part, sub_ℕ, ◌-ℤ◌}
use langgraph_lens.Prelude.Dict.{get}
use langgraph_lens.Time.{Fraction}
use langgraph_lens.Decision.{is_allow}
use langgraph_lens.RateLimiter.{Bucket, Limiter, RateLimitConfig, refilled, charged, affords, full}
use langgraph_lens.RateLimiter.Balance.{IsSound, tokens-refilled}
use langgraph_lens.RateLimiter.Limit.{
  Request, IsLimiter, call, call_lem, key_of, price_of, allow_if,
}

-- What a bucket holds at `now`: the capacity if it is new, else the old balance and the refill of
-- the time since, at most the capacity.
abbrev pub held : RateLimitConfig → ℕ → Option Bucket → ℕ
held c now none = full c
held c now (some b) =
    let grown = pos_part b.tokens + (now - b.last_refill) * c.refill_per_second in
    if leb (full c) grown then full c else grown

bucket-refilled :
    (c : RateLimitConfig) (now : ℕ) (o : Option Bucket)
    → ((b : Bucket) → o ≡ some b → IsSound c now b)
    → refilled c now o ≡ record { tokens = pos (held c now o); last_refill = now }
unfolding refilled
bucket-refilled c now none h = refl
bucket-refilled c now (some b) h =
    ap (λ n. record { tokens = n; last_refill = now }) (tokens-refilled c now b (h b refl))

bucket-charged :
    (before price last : ℕ)
    → charged (record { tokens = pos before; last_refill = last }) price ≡ record {
      tokens = pos (if leb price before then before - price else before);
      last_refill = last;
    }
unfolding charged ◌-ℤ◌ sub_ℕ
bucket-charged before price last = elim (Bool-cases (leb price before)) [
  | inl rich ↦ ground (arith, rich)
  | inr poor ↦ ground (arith, poor)
]

affords_pos :
    (before price last : ℕ)
    → affords (record { tokens = pos before; last_refill = last }) price ≡ leb price before
affords_pos before price last = ground arith

-- On an enabled limiter with sound buckets, a call passes exactly if its price is at most what the
-- bucket of its key holds after the refill. The bucket then holds the price less, or as much as
-- before if the call is refused, and is dated to the call; every other bucket stays as it was.
pub call_charges :
    (float_repr : Fraction → String) (l : Limiter) (q : Request)
    → IsLimiter q.now l
    → let key = key_of float_repr l q in
      let price = price_of float_repr l q in
      let before = held l.config q.now (get key l.buckets) in
      let (d, ds, l') = call float_repr q l in
      (is_allow d.action ≡ leb price before)
      × ((k : String)
          → get k l'.buckets ≡ (
              if k == key
              then some (record {
                tokens = pos (if leb price before then before - price else before);
                last_refill = q.now;
              })
              else get k l.buckets))
call_charges float_repr l q h =
    let key = key_of float_repr l q in
    let price = price_of float_repr l q in
    let before = held l.config q.now (get key l.buckets) in
    let (verdict, config, buckets) = call_lem float_repr l q h.on in
    let bucket = bucket-refilled l.config q.now (get key l.buckets) (λ b e. h.sound key b e) in
    let rest = ap (λ b. charged b price) bucket ∙ bucket-charged before price q.now in
    (
      ap (λ d. is_allow d.action) verdict
          ∙ (allow_if l.config.mode _ _
              ∙ (ap (λ b. affords b price) bucket ∙ affords_pos before price q.now)),
      λ k. buckets k ∙ ap (λ b. if k == key then some b else get k l.buckets) rest,
    )
