-- ===== src/Integrations/Saver/Guard.antt =====
-- What the wrapper lets a saver write.
use langgraph_lens.Prelude.{
  ℕ, ◌≡◌, refl, sym, ◌∙◌, subst, String, Bool, true, false, ◌&&◌, none, some, List, [], ◌∷◌, arith,
  contains, string_eq, if◌then◌else◌,
}
use langgraph_lens.Runtime.{Runtime}
use langgraph_lens.Value.{Value, Fields}
use langgraph_lens.Event.{Detection}
use langgraph_lens.Detector.Checkpoint
use langgraph_lens.Detector.Checkpoint.{Blob, raw, decoded, looks_like_pickle}
use langgraph_lens.Detector.Checkpoint.Opcodes.{reports, reports-scan, is_dangerous}
use langgraph_lens.Intervention.Verdict.{is_enforced, caught}
use langgraph_lens.Intervention.CheckpointProtector.{
  CheckpointProtectorConfig, write_direction, mismatch,
}
use langgraph_lens.Lens.{Lens}
use langgraph_lens.Middleware.{fields_of}
use langgraph_lens.Integrations.{Lenses, active, thread_id_from_config}
use langgraph_lens.Integrations.Saver.{
  Verdict, proceed, refuse, crash, ask, checkpoint_call, put_on, protected_put,
}
use langgraph_lens.Integrations.Saver.Asked.{
  blocks, is_refusal, is_crash, is_stopped, result_of, ask_unsigned,
}

mismatch_written :
    (rt : Runtime) (c : CheckpointProtectorConfig) (blob : Blob) (metadata : Fields)
    → mismatch rt c blob metadata write_direction ≡ some false
unfolding mismatch
mismatch_written rt c (raw b) metadata = ground arith
mismatch_written rt c (decoded fs) metadata = refl

module _ {ℓ κ} {W : Type ℓ} {R : Type κ} (original : Value → Blob → Value → W → R × W)
    (config : Value) (checkpoint : Blob) (metadata : Value) (w : W) where
  put_on_lem :
      (v : Verdict) (s : Lenses) (b : Bool)
      → is_refusal v ≡ b
      → is_crash v ≡ false
      → let (out, w') = original config checkpoint metadata w in
        let (run, w1, s1) = put_on original config checkpoint metadata w (v, s) in
        (is_stopped run ≡ b)
        × (result_of run ≡ (if b then none else some out))
        × (w1 ≡ (if b then w else w'))
  unfolding put_on
  put_on_lem proceed s b goes whole = ground (arith, goes)
  put_on_lem (refuse d) s b goes whole = ground (arith, goes)
  put_on_lem crash s b goes whole = ground (arith, whole)

  pub put_guarded :
      (rt : Runtime) (s : Lenses) (l : Lens)
      → active s ≡ some l
      → let (out, w') = original config checkpoint metadata w in
        let (run, w1, s1) = protected_put original rt config checkpoint metadata w s in
        let b = blocks rt l checkpoint (thread_id_from_config config) in
        (is_stopped run ≡ b)
        × (result_of run ≡ (if b then none else some out))
        × (w1 ≡ (if b then w else w'))
  unfolding protected_put
  put_guarded rt s l there =
      let q = checkpoint_call config checkpoint (fields_of (some metadata)) write_direction in
      let (refusal, whole) = ask_unsigned rt l q s there (
        mismatch_written rt l.config.tier2.checkpoint_protector checkpoint
          (fields_of (some metadata))) in
      put_on_lem (ask rt q s).0 (ask rt q s).1 _ refusal whole

-- Some rule of the list is reported.
caught-reports :
    (rules : List String) (rule : String) (ds : List Detection)
    → contains rules rule ≡ true
    → reports rule ds ≡ true
    → caught rules ds ≡ true
caught-reports rules rule [] listed reported = ground (arith, reported)
caught-reports rules rule (d ∷ ds) listed reported = elim (string_eq.dec d.rule rule) [
  | yes same ↦
      let here = subst (λ x. contains rules x ≡ true) (sym same) listed in ground (arith, here)
  | no differ ↦ ground (arith, reported, differ, caught-reports rules rule ds listed)
]

-- A pickle stream with an opcode that can run code is not written: with the detector and its rule
-- `unsafe_pickle_opcode` on, and the protector enabled, enforced and blocking on that rule, a write
-- of such bytes through the wrapper raises, and the world is as it was, whatever the saver does.
pub put_pickle_stopped {ℓ κ} :
    {W : Type ℓ} {R : Type κ} (original : Value → Blob → Value → W → R × W) (rt : Runtime)
    (config : Value) (blob : List ℕ) (metadata : Value) (w : W) (s : Lenses) (l : Lens)
    → active s ≡ some l
    → l.config.checkpoint.enabled ≡ true
    → contains l.config.checkpoint.rules "unsafe_pickle_opcode" ≡ true
    → l.config.tier2.checkpoint_protector.enabled ≡ true
    → is_enforced l.config.tier2.checkpoint_protector.mode ≡ true
    → contains l.config.tier2.checkpoint_protector.block_on_rules "unsafe_pickle_opcode" ≡ true
    → (looks_like_pickle blob && is_dangerous blob) ≡ true
    → let (run, w1, s1) = protected_put original rt config (raw blob) metadata w s in
      (is_stopped run ≡ true) × (w1 ≡ w)
put_pickle_stopped original rt config blob metadata w s l there on rule enabled enforced listed
      bad =
    let thread_id = thread_id_from_config config in
    let found = Checkpoint.scan rt l.config.checkpoint (raw blob) thread_id in
    let reported = reports-scan rt l.config.checkpoint blob thread_id on rule ∙ bad in
    let refused : blocks rt l (raw blob) thread_id ≡ true =
      ground (arith, enabled, enforced, caught-reports _ _ found listed reported) in
    let (stops, result, world) = put_guarded original config (raw blob) metadata w rt s l there in
    (stops ∙ refused, world ∙ ground (arith, refused))
