-- ===== src/RateLimiter.antt =====
-- interventions/rate_limiter.py: a token bucket for each key. Configured token numbers are in
-- billionths of a token, the least step that `max(refill_per_second, 1e-9)` lets through; a balance
-- is in units of a billionth of a token times a tick, so that a refill is a whole number.
pub mod Balance
pub mod Limit
pub mod Charge
use langgraph_lens.Prelude.{
  ℕ, ◌+◌, ◌*◌, ◌/◌, max, String, ◌<>◌, Bool, true, false, not, ◌&&◌, Option, none, some, List, [],
  ◌∷◌, ◌++◌, if◌then◌else◌, string_eq, ◌==◌,
}
use langgraph_lens.Prelude.Int.{ℤ, pos, pos_part, sub_ℕ, ◌+ℤ◌, ◌-ℤ◌, scale, min_ℤ, leb_ℤ}
use langgraph_lens.Prelude.Dict.{Dict, get, put}
use langgraph_lens.Time.{Fraction, ticks_per_second}
use langgraph_lens.Text.{text_length, join}
use langgraph_lens.Event.{medium, Detection}
use langgraph_lens.Value.{text, float}
use langgraph_lens.Args.{Args, stringify_args}
use langgraph_lens.Decision.{LensDecision, block, throttle, pass}

pub data Mode : Type 0 where
  throttle_mode block_mode : Mode

-- `RateLimitConfig` of config.py
pub record RateLimitConfig : Type 0 where
  pub enabled : Bool
  pub mode : Mode
  pub capacity : ℕ
  pub refill_per_second : ℕ
  pub size_divisor : ℕ
  pub key_by_tenant : Bool
  pub key_by_thread : Bool
  pub key_by_tool : Bool

-- Units of a balance in one token.
abbrev pub one_token : ℕ
one_token = 1000000000 * ticks_per_second

pub record Bucket : Type 0 where
  pub tokens : ℤ
  pub last_refill : ℕ

pub record Limiter : Type 0 where
  pub config : RateLimitConfig
  pub buckets : Dict String Bucket

-- `parts.append(...)` under a flag, for a component that is there and not empty
abbrev pub key_part : Bool → String → Option String → List String
key_part flag prefix none = []
key_part flag prefix (some s) = if flag && not (s == "") then (prefix <> s) ∷ [] else []

-- `_make_key`
unfoldable pub make_key : RateLimitConfig → String → Option String → Option String → String
make_key c tool thread_id tenant =
    let parts =
      key_part c.key_by_tenant "t=" tenant
      ++ (key_part c.key_by_thread "th=" thread_id
          ++ (if c.key_by_tool then ("tl=" <> tool) ∷ [] else [])) in
    let key = join "|" parts in if key == "" then "global" else key

-- `extra` of `_cost`
unfoldable pub extra_tokens : RateLimitConfig → String → ℕ
extra_tokens c arg_text = text_length arg_text / max c.size_divisor 1

-- `_cost`, in tokens
unfoldable pub cost : RateLimitConfig → String → ℕ
unfolding extra_tokens
cost c arg_text = 1 + extra_tokens c arg_text

abbrev pub full : RateLimitConfig → ℕ
full c = c.capacity * ticks_per_second

-- The bucket of a key at `now`: a full one for a new key, else refilled for the time since.
unfoldable pub refilled : RateLimitConfig → ℕ → Option Bucket → Bucket
refilled c now none = record { tokens = pos (full c); last_refill = now }
refilled c now (some b) = record {
  tokens = min_ℤ (pos (full c)) (b.tokens +ℤ scale (sub_ℕ now b.last_refill) c.refill_per_second);
  last_refill = now;
}

-- `shortfall / max(refill_per_second, 1e-9)`, in ticks
unfoldable pub retry_after : RateLimitConfig → ℕ → Bucket → Fraction
retry_after c price b = record {
  num = pos_part (pos price -ℤ b.tokens);
  den = max c.refill_per_second 1;
}

abbrev pub empty_detection : String → ℕ → Fraction → Detection
empty_detection key tokens wait = record {
  detector = "rate_limit";
  rule = "bucket_empty";
  severity = medium;
  extra =
      ("key", text key)
      ∷ ("cost", float (record { num = tokens; den = 1 }))
      ∷ ("retry_after", float wait)
      ∷ [];
}

abbrev pub refusal : Mode → Fraction → LensDecision
refusal block_mode wait = record pass {
  action = block;
  reason = some "rate_limited";
  triggered_by = "rate_limit.bucket_empty" ∷ [];
  status_code = some 429;
  retry_after = some wait;
}
refusal throttle_mode wait = record pass {
  action = throttle;
  reason = some "rate_limited";
  triggered_by = "rate_limit.bucket_empty" ∷ [];
  retry_after = some wait;
}

-- `bucket.tokens >= cost`
abbrev pub affords : Bucket → ℕ → Bool
affords b price = leb_ℤ (pos price) b.tokens

-- The bucket that is left in the dictionary.
unfoldable pub charged : Bucket → ℕ → Bucket
charged b price = if affords b price then record b { tokens = b.tokens -ℤ pos price } else b

-- `evaluate`, on the bucket of `key` after the refill
unfoldable pub spend : Limiter → String → ℕ → Bucket → LensDecision × List Detection × Limiter
unfolding charged retry_after
spend l key tokens b =
    let price = tokens * one_token in
    let wait = retry_after l.config price b in
    let l' = record l { buckets = put key (charged b price) l.buckets } in
    if affords b price
    then (pass, [], l')
    else (refusal l.config.mode wait, empty_detection key tokens wait ∷ [], l')

unfoldable pub evaluate :
    (Fraction → String)
    → ℕ
    → String
    → Args
    → Option String
    → Option String
    → Limiter
    → LensDecision × List Detection × Limiter
evaluate float_repr now tool args thread_id tenant l =
    let key = make_key l.config tool thread_id tenant in
    if not l.config.enabled
    then (pass, [], l)
    else spend l key (cost l.config (stringify_args float_repr args))
        (refilled l.config now (get key l.buckets))
