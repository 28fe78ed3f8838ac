-- ===== src/Integrations/Saver/Awaited.antt =====
-- The asynchronous wrappers, beside the synchronous ones.
use langgraph_lens.Prelude.{◌≡◌, refl, ap, ◌∙◌, none, some, if◌then◌else◌}
use langgraph_lens.Runtime.{Runtime}
use langgraph_lens.Value.{Value}
use langgraph_lens.Detector.Checkpoint.{Blob}
use langgraph_lens.Intervention.CheckpointProtector.{write_direction}
use langgraph_lens.Lens.{Lens}
use langgraph_lens.Middleware.{fields_of}
use langgraph_lens.Integrations.{Lenses, active, thread_id_from_config}
use langgraph_lens.Integrations.Saver.{
  Verdict, proceed, refuse, crash, ask, checkpoint_call, put_on, protected_put, aput_on,
  protected_aput,
}
use langgraph_lens.Integrations.Saver.Asked.{blocks, is_stopped, result_of}
use langgraph_lens.Integrations.Saver.Guard.{put_guarded}

module _ {ℓ κ} {W : Type ℓ} {R : Type κ} (original : Value → Blob → Value → W → R × W) where
  -- The original as a task during which no other task touches the lenses.
  abbrev pub alone : Value → Blob → Value → W × Lenses → R × W × Lenses
  alone config checkpoint metadata (w, s) =
      let (out, w') = original config checkpoint metadata w in (out, w', s)

  aput_on-alone :
      (config : Value) (checkpoint : Blob) (metadata : Value) (w : W) (v : Verdict) (s : Lenses)
      → aput_on alone config checkpoint metadata w (v, s)
        ≡ put_on original config checkpoint metadata w (v, s)
  unfolding aput_on put_on
  aput_on-alone config checkpoint metadata w proceed s = refl
  aput_on-alone config checkpoint metadata w (refuse d) s = refl
  aput_on-alone config checkpoint metadata w crash s = refl

  -- If no other task touches the lenses while it waits, `aput` does what `put` does.
  pub protected_aput-alone :
      (rt : Runtime) (config : Value) (checkpoint : Blob) (metadata : Value) (w : W) (s : Lenses)
      → protected_aput alone rt config checkpoint metadata w s
        ≡ protected_put original rt config checkpoint metadata w s
  unfolding protected_aput protected_put
  protected_aput-alone rt config checkpoint metadata w s =
      let q = checkpoint_call config checkpoint (fields_of (some metadata)) write_direction in
      aput_on-alone config checkpoint metadata w (ask rt q s).0 (ask rt q s).1

module _ {ℓ κ} {W : Type ℓ} {R : Type κ}
    (original : Value → Blob → Value → W × Lenses → R × W × Lenses) where
  -- The original, awaited with these lenses.
  abbrev pub awaited : Lenses → Value → Blob → Value → W → R × W
  awaited s config checkpoint metadata w =
      let (out, w', s') = original config checkpoint metadata (w, s) in (out, w')

  aput_on-awaited :
      (config : Value) (checkpoint : Blob) (metadata : Value) (w : W) (v : Verdict) (s : Lenses)
      → let (run, w1, s1) = aput_on original config checkpoint metadata w (v, s) in
        let (run', w2, s2) = put_on (awaited s) config checkpoint metadata w (v, s) in
        (run ≡ run') × (w1 ≡ w2)
  unfolding aput_on put_on
  aput_on-awaited config checkpoint metadata w proceed s = (refl, refl)
  aput_on-awaited config checkpoint metadata w (refuse d) s = (refl, refl)
  aput_on-awaited config checkpoint metadata w crash s = (refl, refl)

  -- An `aput` of a saver that has a lens is refused, before anything is awaited, exactly if the
  -- protector is enabled and enforced and the detector reports one of its rules on the checkpoint:
  -- the world is then as it was. Otherwise it ends as the await ends, with the lenses of the decision
  -- at its start.
  pub aput_guarded :
      (rt : Runtime) (config : Value) (checkpoint : Blob) (metadata : Value) (w : W) (s : Lenses)
      (l : Lens)
      → active s ≡ some l
      → let q = checkpoint_call config checkpoint (fields_of (some metadata)) write_direction in
        let (out, w', s') = original config checkpoint metadata (w, (ask rt q s).1) in
        let (run, w1, s1) = protected_aput original rt config checkpoint metadata w s in
        let b = blocks rt l checkpoint (thread_id_from_config config) in
        (is_stopped run ≡ b)
        × (result_of run ≡ (if b then none else some out))
        × (w1 ≡ (if b then w else w'))
  unfolding protected_aput protected_put
  aput_guarded rt config checkpoint metadata w s l there =
      let q = checkpoint_call config checkpoint (fields_of (some metadata)) write_direction in
      let (v, s1) = ask rt q s in
      let (same_run, same_world) = aput_on-awaited config checkpoint metadata w v s1 in
      let (stops, result, world) =
        put_guarded (awaited s1) config checkpoint metadata w rt s l there in
      (ap is_stopped same_run ∙ stops, ap result_of same_run ∙ result, same_world ∙ world)
