-- ===== src/Test/RateLimiter.antt =====
-- The rate limiter at small inputs.
use langgraph_lens.Prelude.{
  ◌+◌, ◌*◌, ◌-◌, ◌≤◌, ◌≡◌, refl, true, false, some, String, [], ◌∷◌, arith, if◌then◌else◌,
  string_eq, Bool-cases, inl, inr, ◌==◌,
}
use langgraph_lens.Prelude.Dict.{get}
use langgraph_lens.Prelude.Int.{pos, min_ℤ, ◌+ℤ◌, scale, ◌-ℤ◌}
use langgraph_lens.Time.{Fraction}
use langgraph_lens.Text.{text_length, join}
use langgraph_lens.Args.{str_args, stringify_args}
use langgraph_lens.Decision.{is_allow}
use langgraph_lens.RateLimiter.{
  Bucket, Limiter, block_mode, RateLimitConfig, refilled, full, make_key, cost, evaluate,
}
use langgraph_lens.RateLimiter.{spend}
use langgraph_lens.RateLimiter.Balance.{IsSound}
use langgraph_lens.RateLimiter.Charge.{call_charges}
use langgraph_lens.RateLimiter.Limit.{Request, IsLimiter, call, spent, spent_bound, retry_exact}

abbrev config : RateLimitConfig
config = record {
  enabled = true;
  mode = block_mode;
  capacity = 1000000000;
  refill_per_second = 1000000000;
  size_divisor = 1000;
  key_by_tenant = true;
  key_by_thread = true;
  key_by_tool = false;
}

abbrev fresh : Limiter
fresh = record { config = config; buckets = [] }

-- A float is printed as "0.0"; no argument below holds one.
abbrev zero_repr : Fraction → String
zero_repr x = "0.0"

abbrev search : Request
search = record {
  now = 5;
  tool = "search";
  args = str_args "q";
  thread_id = some "a";
  tenant = some "t";
}

none_held : (k : String) (b : Bucket) → get k fresh.buckets ≡ some b → IsSound config 5 b
unfolding get
none_held k b e = cc

fresh_sound : IsLimiter 5 fresh
fresh_sound = record { on = refl; sound = λ k b e. none_held k b e }

spent_bound_example :
    spent zero_repr "t=t|th=a" (search ∷ search ∷ []) fresh ≤ full config + (9 - 5) * 1000000000
spent_bound_example =
    spent_bound zero_repr "t=t|th=a" (search ∷ search ∷ []) config 5 9 refl
      (omega arith, (omega arith, omega arith))

call_charges_example :
    (is_allow (call zero_repr search fresh).0.action ≡ true)
    × ((k : String)
        → get k (call zero_repr search fresh).2.buckets ≡ (
            if k == "t=t|th=a"
            then some (record { tokens = pos 0; last_refill = 5 })
            else get k []))
unfolding cost stringify_args make_key get text_length string_eq join
call_charges_example = call_charges zero_repr fresh search fresh_sound

-- The limiter after the one token of the key is spent.
abbrev spent_out : Limiter
spent_out = record {
  config = config;
  buckets = ("t=t|th=a", record { tokens = pos 0; last_refill = 5 }) ∷ [];
}

one_held : (k : String) (b : Bucket) → get k spent_out.buckets ≡ some b → IsSound config 5 b
unfolding get
one_held k b e = elim (Bool-cases (k == "t=t|th=a")) [
  | inl h ↦ ground (arith, h, e)
  | inr h ↦ ground (arith, h, e)
]

spent_out_sound : IsLimiter 5 spent_out
spent_out_sound = record { on = refl; sound = λ k b e. one_held k b e }

retry_exact_example :
    is_allow
      (call zero_repr
        (record search { now = 1000005 })
        (call zero_repr search spent_out).2).0.action
    ≡ true
unfolding cost stringify_args text_length string_eq join min_ℤ ◌+ℤ◌ scale ◌-ℤ◌
retry_exact_example =
    retry_exact zero_repr spent_out search 1000005
      (record { num = 1000000000000000; den = 1000000000 }) spent_out_sound (omega arith)
      (omega arith) (unfold evaluate make_key get refilled spend cost stringify_args in refl)
