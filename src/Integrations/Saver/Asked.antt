-- ===== src/Integrations/Saver/Asked.antt =====
-- What a wrapper that has a lens does: the decision on a checkpoint whose signature is not looked at.
use langgraph_lens.Prelude.{
  ◌≡◌, ap, ◌∙◌, String, Bool, true, false, ◌&&◌, Option, none, some, List, [], arith, string_eq,
  Bool-cases, inl, inr,
}
use langgraph_lens.Runtime.{Runtime}
use langgraph_lens.Event.{Detection, Event}
use langgraph_lens.Decision.{LensDecision, pass, merge, is_terminal, is_block}
use langgraph_lens.Detector.Checkpoint
use langgraph_lens.Detector.Checkpoint.{Blob, raw, decoded, looks_like_pickle}
use langgraph_lens.Intervention.Audit.{stamp}
use langgraph_lens.Intervention.Verdict.{is_enforced, caught}
use langgraph_lens.Intervention.CheckpointProtector
use langgraph_lens.Intervention.CheckpointProtector.{
  CheckpointProtectorConfig, Direction, write_direction, read_direction, evaluate, judge, mismatch,
}
use langgraph_lens.Intervention.CheckpointProtector.Signing.{is_terminal-judge}
use langgraph_lens.Lens.{Lens}
use langgraph_lens.Lens.Inspect.{CheckpointCall, inspect_checkpoint}
use langgraph_lens.Lens.Decide.{end_checkpoint, decide_checkpoint, signal_attacks}
use langgraph_lens.Lens.Outcome.{extend}
use langgraph_lens.Lens.Refusal.{action-stamp}
use langgraph_lens.Middleware.{Run, ran, stopped}
use langgraph_lens.Integrations.{Lenses, active}
use langgraph_lens.Integrations.Saver.{Verdict, refuse, crash, verdict, ask_lens, ask}

-- What the protector blocks, if the signature is right or is not looked at.
abbrev pub blocks : Runtime → Lens → Blob → Option String → Bool
blocks rt l blob thread_id =
    let c = l.config.tier2.checkpoint_protector in
    c.enabled
    && (is_enforced c.mode
        && caught c.block_on_rules (Checkpoint.scan rt l.config.checkpoint blob thread_id))

-- The signature of a checkpoint that is written, or decoded, is not looked at.
evaluate_unsigned :
    (rt : Runtime) (l : Lens) (q : CheckpointCall)
    → mismatch rt l.config.tier2.checkpoint_protector q.blob
        (CheckpointProtector.or_empty q.metadata)
        q.direction
      ≡ some false
    → (r : LensDecision × List Detection) × (evaluate rt l.config.tier2.checkpoint_protector
          l.config.checkpoint q.blob q.metadata q.direction q.thread_id
        ≡ some r)
      × (is_terminal r.0 ≡ blocks rt l q.blob q.thread_id)
unfolding evaluate
evaluate_unsigned rt l q plain =
    let c = l.config.tier2.checkpoint_protector in
    let found = Checkpoint.scan rt l.config.checkpoint q.blob q.thread_id in
    elim (Bool-cases c.enabled) [
      | inl on ↦ (
        judge c found false,
        simp (on, plain),
        is_terminal-judge c found false ∙ ground (arith, on),
      )
      | inr off ↦ ((pass, []), simp off, ground (arith, off))
    ]

terminal-merge-pass : (d : LensDecision) → is_terminal (merge pass d) ≡ is_terminal d
unfolding merge
terminal-merge-pass d = ground arith

decide_unsigned :
    (rt : Runtime) (l : Lens) (q : CheckpointCall)
    → mismatch rt l.config.tier2.checkpoint_protector q.blob
        (CheckpointProtector.or_empty q.metadata)
        q.direction
      ≡ some false
    → (d : LensDecision) × (e : Event) × ((decide_checkpoint rt q l).0 ≡ some (d, e))
      × (is_terminal d ≡ blocks rt l q.blob q.thread_id)
unfolding decide_checkpoint end_checkpoint
decide_unsigned rt l q plain =
    let (r, judged, same) = evaluate_unsigned rt l q plain in
    (
      stamp l.config.tier2.audit_signaling (merge pass r.0),
      extend r.1 (inspect_checkpoint rt q (signal_attacks rt r.1 l)).0,
      ap (λ o. (end_checkpoint rt q l o).0) judged,
      ap is_block (action-stamp _ (merge pass r.0)) ∙ terminal-merge-pass r.0 ∙ same,
    )

abbrev pub is_refusal : Verdict → Bool
is_refusal (refuse d) = true
is_refusal _ = false

abbrev pub is_crash : Verdict → Bool
is_crash crash = true
is_crash _ = false

-- A wrapper that has a lens asks it, and one that has none goes on.
pub ask_unsigned :
    (rt : Runtime) (l : Lens) (q : CheckpointCall) (s : Lenses)
    → active s ≡ some l
    → mismatch rt l.config.tier2.checkpoint_protector q.blob
        (CheckpointProtector.or_empty q.metadata)
        q.direction
      ≡ some false
    → (is_refusal (ask rt q s).0 ≡ blocks rt l q.blob q.thread_id)
      × (is_crash (ask rt q s).0 ≡ false)
ask_unsigned rt l q s there plain =
    let (d, e, decided, terminal) = decide_unsigned rt l q plain in
    let asked : (ask rt q s).0 ≡ verdict (some (d, e)) =
      ap (λ o. (ask_lens rt q s o).0) there ∙ (unfold ask_lens in ap verdict decided) in
    (
      ap is_refusal asked ∙ (unfold verdict in ground (arith, terminal)),
      ap is_crash asked ∙ (unfold verdict in ground arith),
    )

abbrev pub is_stopped {κ} : {R : Type κ} → Run R → Bool
is_stopped (stopped d) = true
is_stopped _ = false

abbrev pub result_of {κ} : {R : Type κ} → Run R → Option R
result_of (ran out) = some out
result_of _ = none
