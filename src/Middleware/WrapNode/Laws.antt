-- ===== src/Middleware/WrapNode/Laws.antt =====
-- A wrapped node whose interventions are off, and one that the breaker does not admit.
use langgraph_lens.Prelude.{◌≡◌, ap, ◌∙◌, false, Option, none, some, String, arith}
use langgraph_lens.Runtime.{Runtime}
use langgraph_lens.Value.{Value}
use langgraph_lens.Event.{Event}
use langgraph_lens.Decision.{LensDecision, block}
use langgraph_lens.Breaker.Gate.{admits}
use langgraph_lens.Lens.{Lens}
use langgraph_lens.Lens.Inspect.{NodeCall}
use langgraph_lens.Lens.Decide.{NodeResult, decide_node}
use langgraph_lens.Lens.Nodes.{decide_node_blocked}
use langgraph_lens.Middleware.{stopped, as_state}
use langgraph_lens.Middleware.Callback.{plain_call}
use langgraph_lens.Middleware.WrapNode.{end_wrapped, wrapped}

module _ {ℓ κ} {W : Type ℓ} {R : Type κ} (rt : Runtime) (node : String) (body : Value → W → R × W)
    (thread_id : Option String) (state : Value) (w : W) (l : Lens) where
  end_wrapped-blocked :
      (r : NodeResult) (l1 : Lens)
      → r.decision.action ≡ block
      → end_wrapped rt node body state w (some r, l1) ≡ (stopped r.decision, w, l1)
  unfolding end_wrapped
  end_wrapped-blocked r l1 blocks = ground (arith, blocks)

  -- A wrapped node that the breaker does not admit is not run, and the world is as it was, if no mark
  -- in the state is asked for: the call ends with a decision to block.
  pub wrapped_refused :
      admits (rt.clock l.ticks_read) l.circuit_breaker ≡ false
      → l.config.tier2.audit_signaling.stamp_state ≡ false
      → let (run, w1, l1) = wrapped rt node body thread_id state w l in
        (d : LensDecision) × (run ≡ stopped d) × (d.action ≡ block) × (w1 ≡ w)
  unfolding wrapped
  wrapped_refused refused unmarked =
      let q : NodeCall = plain_call node none thread_id in
      let (r, result, blocks, kept, hashed) =
        decide_node_blocked rt q (as_state state) l refused unmarked in
      let l1 = (decide_node rt q (as_state state) l).1 in
      let same =
        ap (λ o. end_wrapped rt node body state w (o, l1)) result
        ∙ end_wrapped-blocked r l1 blocks in
      (r.decision, ap (λ o. o.0) same, blocks, ap (λ o. o.1) same)
