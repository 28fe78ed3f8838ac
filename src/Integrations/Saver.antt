-- ===== src/Integrations/Saver.antt =====
-- integrations/checkpoint.py: the wrappers of a saver's methods. The methods are third-party: any
-- functions on a world, which holds what was saved. `none` of a decision is the exception of a
-- signature beyond ASCII.
pub mod Asked
pub mod Guard
pub mod Loads
pub mod Awaited
use langgraph_lens.Prelude.{
  String, Bool, true, false, Option, none, some, List, [], ◌∷◌, if◌then◌else◌, string_eq, ◌==◌,
}
use langgraph_lens.Runtime.{Runtime}
use langgraph_lens.Value.{Value, dict, Fields, end}
use langgraph_lens.Decision.{LensDecision, is_terminal}
use langgraph_lens.Event.{Event}
use langgraph_lens.Detector.Checkpoint.{Blob, raw, decoded}
use langgraph_lens.Intervention.CheckpointProtector.{Direction, write_direction, read_direction}
use langgraph_lens.Lens.{Lens}
use langgraph_lens.Lens.Inspect.{CheckpointCall}
use langgraph_lens.Lens.Decide.{decide_checkpoint}
use langgraph_lens.Middleware.{Run, ran, stopped, broken, fields_of}
use langgraph_lens.Integrations.{
  Lenses, active, keep_lens, thread_id_from_config, checkpoint_id_from_config,
}

-- What a saver loads: nothing, a `CheckpointTuple` with its two attributes, or a bare dictionary or
-- bytes.
pub data Loaded : Type 0 where
  nothing : Loaded
  checkpoint_tuple : Option Blob → Option Value → Loaded
  bare : Blob → Loaded

-- `_extract_blob_from_tuple`
unfoldable pub extract_blob : Loaded → Option Blob
extract_blob nothing = none
extract_blob (checkpoint_tuple checkpoint metadata) = checkpoint
extract_blob (bare blob) = some blob

-- `_extract_metadata_from_tuple`
unfoldable pub extract_metadata : Loaded → Fields
extract_metadata (checkpoint_tuple checkpoint metadata) = fields_of metadata
extract_metadata _ = end

-- The call of `decide_checkpoint` that a wrapper makes.
abbrev pub checkpoint_call : Value → Blob → Fields → Direction → CheckpointCall
checkpoint_call config blob metadata direction = record {
  blob = blob;
  metadata = some metadata;
  run_id = none;
  thread_id = thread_id_from_config config;
  checkpoint_id = checkpoint_id_from_config config;
  direction = direction;
}

-- What a wrapper does with a decision.
pub data Verdict : Type 0 where
  proceed : Verdict
  refuse : LensDecision → Verdict
  crash : Verdict

unfoldable pub verdict : Option (LensDecision × Event) → Verdict
verdict none = crash
verdict (some (d, e)) = if is_terminal d then refuse d else proceed

-- The lens is asked, if there is one.
unfoldable pub ask_lens : Runtime → CheckpointCall → Lenses → Option Lens → Verdict × Lenses
ask_lens rt q s none = (proceed, s)
ask_lens rt q s (some l) = let (d, l') = decide_checkpoint rt q l in (verdict d, keep_lens l' s)

abbrev pub ask : Runtime → CheckpointCall → Lenses → Verdict × Lenses
ask rt q s = ask_lens rt q s (active s)

-- `put`: the original is called behind the decision.
module _ {ℓ κ} {W : Type ℓ} {R : Type κ} (original : Value → Blob → Value → W → R × W) where
  unfoldable pub put_on : Value → Blob → Value → W → Verdict × Lenses → Run R × W × Lenses
  put_on config checkpoint metadata w (proceed, s) =
      let (out, w') = original config checkpoint metadata w in (ran out, w', s)
  put_on config checkpoint metadata w (refuse d, s) = (stopped d, w, s)
  put_on config checkpoint metadata w (crash, s) = (broken, w, s)

  unfoldable pub protected_put : Runtime → Value → Blob → Value → W → Lenses → Run R × W × Lenses
  protected_put rt config checkpoint metadata w s =
      put_on config checkpoint metadata w
        (ask rt (checkpoint_call config checkpoint (fields_of (some metadata)) write_direction) s)

-- The end of `get_tuple` and `aget_tuple`, behind the original.
module _ {ℓ} {W : Type ℓ} where
  unfoldable pub get_on : Loaded → W → Verdict × Lenses → Run Loaded × W × Lenses
  get_on out w (proceed, s) = (ran out, w, s)
  get_on out w (refuse d, s) = (stopped d, w, s)
  get_on out w (crash, s) = (broken, w, s)

  -- What was loaded is judged by the checkpoint in it, if there is one.
  unfoldable pub get_found :
      Runtime → Value → Loaded → W → Lenses → Option Blob → Run Loaded × W × Lenses
  get_found rt config out w s none = (ran out, w, s)
  get_found rt config out w s (some blob) =
      get_on out w (ask rt (checkpoint_call config blob (extract_metadata out) read_direction) s)

-- `get_tuple`: the original is called before the decision.
unfoldable pub protected_get {ℓ} :
    {W : Type ℓ} → (Value → W → Loaded × W) → Runtime → Value → W → Lenses → Run Loaded × W × Lenses
protected_get original rt config w s =
    let (out, w') = original config w in get_found rt config out w' s (extract_blob out)

-- `aput` and `aget_tuple`. While the original is awaited other tasks run, which may change the world
-- and the lenses: the original is a function on both. Nothing else runs up to the await.
module _ {ℓ κ} {W : Type ℓ} {R : Type κ}
    (original : Value → Blob → Value → W × Lenses → R × W × Lenses) where
  unfoldable pub aput_on : Value → Blob → Value → W → Verdict × Lenses → Run R × W × Lenses
  aput_on config checkpoint metadata w (proceed, s) =
      let (out, w', s') = original config checkpoint metadata (w, s) in (ran out, w', s')
  aput_on config checkpoint metadata w (refuse d, s) = (stopped d, w, s)
  aput_on config checkpoint metadata w (crash, s) = (broken, w, s)

  unfoldable pub protected_aput : Runtime → Value → Blob → Value → W → Lenses → Run R × W × Lenses
  protected_aput rt config checkpoint metadata w s =
      aput_on config checkpoint metadata w
        (ask rt (checkpoint_call config checkpoint (fields_of (some metadata)) write_direction) s)

unfoldable pub protected_aget {ℓ} :
    {W : Type ℓ}
    → (Value → W × Lenses → Loaded × W × Lenses)
    → Runtime
    → Value
    → W
    → Lenses
    → Run Loaded × W × Lenses
protected_aget original rt config w s =
    let (out, w', s') = original config (w, s) in get_found rt config out w' s' (extract_blob out)
