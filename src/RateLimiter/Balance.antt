-- ===== src/RateLimiter/Balance.antt =====
-- One bucket: its balance, the refill and the charge.
use langgraph_lens.Prelude.{
  ℕ, ◌+◌, ◌-◌, ◌*◌, ◌≤◌, ◌<◌, ◌≡◌, refl, false, Option, none, some, arith, max, if◌then◌else◌, leb,
  ◌&&◌,
}
use langgraph_lens.Prelude.Int.{
  pos, pos_part, neg_part, sub_ℕ, ◌+ℤ◌, ◌-ℤ◌, min_ℤ, -ℤ_parts, sub_ℕ_of_le, scale-pos,
}
use langgraph_lens.RateLimiter.{
  Bucket, RateLimitConfig, refilled, charged, affords, full, retry_after,
}

-- The balance of a bucket that was last touched at or before `now`.
pub record IsSound (c : RateLimitConfig) (now : ℕ) (b : Bucket) : Type 0 where
  pub nonneg : neg_part b.tokens ≡ 0
  pub capped : pos_part b.tokens ≤ full c
  pub touched : b.last_refill ≤ now

-- The balance with the refill up to `t`, without the cap.
abbrev pub available : RateLimitConfig → ℕ → Option Bucket → ℕ
available c t none = full c
available c t (some b) = pos_part b.tokens + (t - b.last_refill) * c.refill_per_second

module _ (c : RateLimitConfig) (now : ℕ) where
  -- A sound bucket is refilled to what is available, up to the capacity.
  pub tokens-refilled :
      (b : Bucket)
      → IsSound c now b
      → (refilled c now (some b)).tokens
        ≡ pos (if leb (full c) (available c now (some b)) then full c else available c now (some b))
  unfolding refilled min_ℤ ◌+ℤ◌
  tokens-refilled b v =
      rw (sub_ℕ_of_le now b.last_refill v.touched, scale-pos) (ground (arith, v.nonneg))

  pub refilled-IsSound :
      (o : Option Bucket)
      → ((b : Bucket) → o ≡ some b → IsSound c now b)
      → IsSound c now (refilled c now o)
        × (pos_part (refilled c now o).tokens ≤ available c now o)
        × ((refilled c now o).last_refill ≡ now)
  refilled-IsSound none h =
      unfold refilled in
      (record { nonneg = refl; capped = omega arith; touched = omega arith }, omega arith, refl)
  refilled-IsSound (some b) h =
      let e = tokens-refilled b (h b refl) in
      let l : (refilled c now (some b)).last_refill ≡ now = unfold refilled in refl in
      (
        record { nonneg = rw e refl; capped = rw e (ground arith); touched = omega arith },
        rw e (ground arith),
        l,
      )

  pub charged-IsSound :
      (b : Bucket) (price : ℕ)
      → IsSound c now b
      → IsSound c now (charged b price)
        × (pos_part (charged b price).tokens + (if affords b price then price else 0)
            ≤ pos_part b.tokens)
  unfolding charged
  charged-IsSound b price h = ground (arith, -ℤ_parts b.tokens (pos price))

  pub last_refill-charged : (b : Bucket) (price : ℕ) → (charged b price).last_refill ≡ b.last_refill
  unfolding charged
  last_refill-charged b price = ground arith

  -- Of a bucket that was just refilled, the balance is available.
  pub available_now :
      (b : Bucket) → b.last_refill ≡ now → available c now (some b) ≡ pos_part b.tokens
  available_now b e = rw e (grind arith)

module _ (c : RateLimitConfig) where
  pub IsSound-later : (t now : ℕ) (b : Bucket) → t ≤ now → IsSound c t b → IsSound c now b
  IsSound-later t now b h v = record { nonneg = v.nonneg; capped = v.capped; touched = omega arith }

  -- Time adds at most its refill to what is available.
  pub available_later :
      (t now : ℕ) (o : Option Bucket)
      → t ≤ now
      → ((b : Bucket) → o ≡ some b → IsSound c t b)
      → available c now o ≤ available c t o + (now - t) * c.refill_per_second
  available_later t now none h v = omega arith
  available_later t now (some b) h v =
      let touched = (v b refl).touched in
      let e : now - b.last_refill ≡ (t - b.last_refill) + (now - t) = omega arith in
      rw e (grind arith)

  -- After a refusal at `now`, the bucket covers the price at `t` exactly if the price is not above
  -- the capacity and the time that the refusal gave is over.
  pub affords_later :
      (now t price : ℕ) (b : Bucket)
      → IsSound c now b
      → b.last_refill ≡ now
      → now ≤ t
      → 0 < c.refill_per_second
      → affords b price ≡ false
      → affords (refilled c t (some b)) price ≡ (
          leb price (full c)
          && leb (retry_after c price b).num ((t - now) * (retry_after c price b).den))
  unfolding retry_after
  affords_later now t price b v last h rate poor =
      let den : max c.refill_per_second 1 ≡ c.refill_per_second = omega arith in
      let num : pos_part (pos price -ℤ b.tokens) ≡ price - pos_part b.tokens =
        unfold ◌-ℤ◌ sub_ℕ in ground (arith, v.nonneg) in
      rw (tokens-refilled c t b (IsSound-later now t b h v), last, num, den)
        (ground (arith, v.nonneg))

  pub charged_poor : (b : Bucket) (price : ℕ) → affords b price ≡ false → charged b price ≡ b
  unfolding charged
  charged_poor b price poor = rw poor
