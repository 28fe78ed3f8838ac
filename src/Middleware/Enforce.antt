-- ===== src/Middleware/Enforce.antt =====
-- How a tool call ends that the breaker does not admit.
use langgraph_lens.Runtime.{Runtime}
use langgraph_lens.Lens.{Lens}
use langgraph_lens.Middleware.Callback.{Callback}
