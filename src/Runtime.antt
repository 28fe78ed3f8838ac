-- ===== src/Runtime.antt =====
-- What the library takes from the process around it: the clock, random tokens, digests, the log
-- file and the environment. Each is an argument of the definitions that use it.
use Prim.Native.Char.{Char}
use langgraph_lens.Prelude.{ℕ, String, Bool, List}
use langgraph_lens.Time.{Fraction}
use langgraph_lens.Value.{Value, Fields}
use langgraph_lens.Regex.{Regex}

-- What the Unicode tables say of the characters from 128 on: whether one is a decimal digit (`\d`)
-- and which, membership in `\w` and in `\s`, and the lower-case text of a character.
pub record Unicode : Type 0 where
  pub digit : ℕ → Bool
  pub digit_value : ℕ → ℕ
  pub word : ℕ → Bool
  pub space : ℕ → Bool
  pub lower : Char → String

pub record Runtime : Type 0 where
  pub unicode : Unicode
  -- the n-th reading of `time.time()`, in ticks
  pub clock : ℕ → ℕ
  -- the n-th `secrets.token_hex(8)`
  pub token_hex : ℕ → String
  -- `hashlib.sha256(text.encode()).hexdigest()`
  pub sha256_hex : String → String
  -- `hmac.new(key.encode(), blob, hashlib.sha256).hexdigest()`
  pub hmac_hex : String → List ℕ → String
  -- `repr` of a float
  pub float_repr : Fraction → String
  -- `repr` of a value of a state
  pub repr : Value → String
  -- `re.compile`, of an expression that it accepts and that has no capturing group
  pub compile : String → Regex
  -- `bytes.decode("ascii", errors="replace")`
  pub decode_ascii : List ℕ → String
  -- whether a path can be opened for appending
  pub opens : String → Bool
  -- `bool(os.environ.get(name))`
  pub env_set : String → Bool
  -- whether the packages of OpenTelemetry can be imported
  pub otel_installed : Bool
  -- whether a post to a web hook, of a body at a time, raises what is no `URLError` or `TimeoutError`
  pub post_raises : String → String → ℕ → Bool
  -- whether `copy.deepcopy` of a state returns
  pub copies : Fields → Bool
