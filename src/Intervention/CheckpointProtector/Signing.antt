-- ===== src/Intervention/CheckpointProtector/Signing.antt =====
-- Signatures: what `sign` gives, read back with the same or with other bytes, and decoded
-- checkpoints.
use langgraph_lens.Prelude.{
  ℕ, String, ◌≡◌, refl, subst, ◌∙◌, Bool, true, false, not, ◌&&◌, ◌||◌, Option, none, some, List,
  [], ◌∷◌, arith, if◌then◌else◌, string_eq, ◌==◌,
}
use langgraph_lens.Runtime.{Runtime}
use langgraph_lens.Value.{Value, text, Fields, lookup, assign}
use langgraph_lens.Event.{Detection}
use langgraph_lens.Decision.{LensDecision, is_terminal}
use langgraph_lens.Detector.Checkpoint
use langgraph_lens.Detector.Checkpoint.{CheckpointConfig, Blob, raw, decoded}
use langgraph_lens.Intervention.{matching, triggers}
use langgraph_lens.Intervention.Verdict.{
  is_enforced, caught, is_terminal-conclude, is_empty-append, is_empty-triggers,
}
use langgraph_lens.Intervention.CheckpointProtector.{
  CheckpointProtectorConfig, Direction, read_direction, hmac_key, is_ascii, verify_hmac, is_forged,
  mismatch, judge, evaluate, sign,
}

lookup-assign_self : (k : String) (v : Value) (fs : Fields) → lookup k (assign k v fs) ≡ some v
unfolding lookup assign
lookup-assign_self k v Fields.end = ground arith
lookup-assign_self k v (Fields.field j w fs) = ground (arith, lookup-assign_self k v fs)

pub is_terminal-judge :
    (c : CheckpointProtectorConfig) (found : List Detection) (forged : Bool)
    → is_terminal (judge c found forged).0
      ≡ (is_enforced c.mode && (forged || caught c.block_on_rules found))
unfolding judge
is_terminal-judge c found forged =
    is_terminal-conclude c.mode _ _ _ _
    ∙ rw
        (
          is_empty-append (triggers "checkpoint_protector." (matching c.block_on_rules found))
              (if forged then "checkpoint_protector.hmac_mismatch" ∷ [] else []),
          is_empty-triggers "checkpoint_protector." c.block_on_rules found,
        )
        (ground arith)

module _ (rt : Runtime) (c : CheckpointProtectorConfig) (detector : CheckpointConfig)
    (on : c.enabled ≡ true) (checked : c.require_hmac ≡ true)
    (hex : (key : String) (blob : List ℕ) → is_ascii (rt.hmac_hex key blob) ≡ true) where
  sign_lem :
      (blob : List ℕ) (s : String) → sign rt c blob ≡ some s → rt.hmac_hex c.signing_key blob ≡ s
  unfolding sign
  sign_lem blob s signed = ground (arith, signed)

  is_forged_lem :
      (later : List ℕ) (s : String)
      → is_ascii s ≡ true
      → is_forged rt later (some (text s)) c.signing_key
        ≡ some (not (rt.hmac_hex c.signing_key later == s))
  unfolding is_forged verify_hmac
  is_forged_lem later s plain = ground (arith, plain, hex c.signing_key later)

  mismatch_lem :
      (later : List ℕ) (s : String) (metadata : Fields)
      → lookup hmac_key metadata ≡ some (text s)
      → is_ascii s ≡ true
      → mismatch rt c (raw later) metadata read_direction
        ≡ some (not (rt.hmac_hex c.signing_key later == s))
  unfolding mismatch
  mismatch_lem later s metadata there plain = simp (checked, there, is_forged_lem later s plain)

  -- Bytes that are read with the signature that `sign` gave for the bytes `blob` are verified:
  -- the intervention then blocks exactly if it is enforced, and the two digests differ or the
  -- checkpoint detector reports one of the configured rules. Digests are texts in ASCII.
  pub evaluate_signed :
      (blob later : List ℕ) (s : String) (metadata : Fields) (thread_id : Option String)
      → sign rt c blob ≡ some s
      → (d : LensDecision × List Detection) × (evaluate rt c detector
            (raw later)
            (some (assign hmac_key (text s) metadata))
            read_direction
            thread_id
          ≡ some d)
        × (is_terminal d.0 ≡ (
            is_enforced c.mode
            && (not (rt.hmac_hex c.signing_key later == rt.hmac_hex c.signing_key blob)
                || caught c.block_on_rules (Checkpoint.scan rt detector (raw later) thread_id))))
  unfolding evaluate
  evaluate_signed blob later s metadata thread_id signed =
      let digest = sign_lem blob s signed in
      let plain : is_ascii s ≡ true =
        subst (λ x. is_ascii x ≡ true) digest (hex c.signing_key blob) in
      let found = Checkpoint.scan rt detector (raw later) thread_id in
      let forged = not (rt.hmac_hex c.signing_key later == s) in
      (
        judge c found forged,
        simp (
          on,
          mismatch_lem later s (assign hmac_key (text s) metadata)
              (lookup-assign_self hmac_key (text s) metadata) plain,
        ),
        rw digest (is_terminal-judge c found forged),
      )

-- A decoded checkpoint, which is what a saver returns, is judged as if no signature were required,
-- whatever signature it carries.
pub decoded_unverified :
    (rt : Runtime) (c : CheckpointProtectorConfig) (detector : CheckpointConfig) (fs : Fields)
    (metadata : Option Fields) (direction : Direction) (thread_id : Option String)
    → evaluate rt c detector (decoded fs) metadata direction thread_id
      ≡ evaluate rt
          (record c { require_hmac = false })
          detector
          (decoded fs)
          none
          direction
          thread_id
unfolding evaluate mismatch judge
decoded_unverified rt c detector fs metadata direction thread_id = refl
