-- ===== src/Integrations/Saver/Loads.antt =====
-- What the wrapper returns of the checkpoints that a saver loads.
use langgraph_lens.Prelude.{◌≡◌, refl, ap, ◌∙◌, Bool, false, none, some, arith, if◌then◌else◌}
use langgraph_lens.Runtime.{Runtime}
use langgraph_lens.Value.{Value, Fields}
use langgraph_lens.Detector.Checkpoint
use langgraph_lens.Detector.Checkpoint.{Blob, decoded}
use langgraph_lens.Intervention.CheckpointProtector.{read_direction, mismatch}
use langgraph_lens.Lens.{Lens}
use langgraph_lens.Integrations.{Lenses, active, thread_id_from_config}
use langgraph_lens.Integrations.Saver.{
  Loaded, Verdict, proceed, refuse, crash, ask, checkpoint_call, get_on, get_found, protected_get,
  extract_blob, extract_metadata,
}
use langgraph_lens.Integrations.Saver.Asked.{
  blocks, is_refusal, is_crash, is_stopped, result_of, ask_unsigned,
}

module _ {ℓ} {W : Type ℓ} (config : Value) (out : Loaded) (w : W) where
  get_on_lem :
      (v : Verdict) (s : Lenses) (b : Bool)
      → is_refusal v ≡ b
      → is_crash v ≡ false
      → let (run, w1, s1) = get_on out w (v, s) in
        (is_stopped run ≡ b) × (result_of run ≡ (if b then none else some out)) × (w1 ≡ w)
  unfolding get_on
  get_on_lem proceed s b goes whole = ground (arith, goes)
  get_on_lem (refuse d) s b goes whole = ground (arith, goes)
  get_on_lem crash s b goes whole = ground (arith, whole)

  -- What was loaded and is a decoded checkpoint is refused exactly if a configured rule is reported.
  pub found_guarded :
      (rt : Runtime) (s : Lenses) (l : Lens) (fs : Fields)
      → active s ≡ some l
      → extract_blob out ≡ some (decoded fs)
      → let (run, w1, s1) = get_found rt config out w s (extract_blob out) in
        let b = blocks rt l (decoded fs) (thread_id_from_config config) in
        (is_stopped run ≡ b) × (result_of run ≡ (if b then none else some out)) × (w1 ≡ w)
  unfolding get_found mismatch
  found_guarded rt s l fs there found =
      let q = checkpoint_call config (decoded fs) (extract_metadata out) read_direction in
      let (refusal, whole) = ask_unsigned rt l q s there refl in
      let judged = get_on_lem (ask rt q s).0 (ask rt q s).1 _ refusal whole in
      let same = ap (get_found rt config out w s) found in
      (
        ap (λ o. is_stopped o.0) same ∙ judged.0,
        ap (λ o. result_of o.0) same ∙ judged.1,
        ap (λ o. o.1) same ∙ judged.2,
      )

-- A read through the wrapper, of a saver that has a lens and returns a decoded checkpoint, is
-- refused exactly if the protector is enabled and enforced and the detector reports one of its
-- rules on that checkpoint, whether or not a signature is required. Refused or not, the original
-- has been called: the world is as the original leaves it.
pub get_guarded {ℓ} :
    {W : Type ℓ} (original : Value → W → Loaded × W) (rt : Runtime) (config : Value) (w : W)
    (s : Lenses) (l : Lens) (fs : Fields)
    → active s ≡ some l
    → extract_blob (original config w).0 ≡ some (decoded fs)
    → let (out, w') = original config w in
      let (run, w1, s1) = protected_get original rt config w s in
      let b = blocks rt l (decoded fs) (thread_id_from_config config) in
      (is_stopped run ≡ b) × (result_of run ≡ (if b then none else some out)) × (w1 ≡ w')
unfolding protected_get
get_guarded original rt config w s l fs there found =
    let (out, w') = original config w in found_guarded config out w' rt s l fs there found
