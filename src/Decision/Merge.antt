-- ===== src/Decision/Merge.antt =====
-- `merge`: what the combination of decisions keeps.
use mathlib.Core.List.{Perm, perm_append_comm}
use mathlib.Core.List.Perm
use langgraph_lens.Prelude.{
  ℕ, String, ◌≡◌, false, Option, none, ◌++◌, arith, leb, Bool-cases, inl, inr,
}
use langgraph_lens.Prelude.Dict.{Dict}
use langgraph_lens.Time.{Fraction}
use langgraph_lens.Decision.{Action, LensDecision, rank, is_terminal, merge}

-- What a caller acts on, but for the triggers and the rewritten state.
pub record Verdict : Type 0 where
  pub action : Action
  pub reason : Option String
  pub headers : Dict String String
  pub status_code : Option ℕ
  pub retry_after : Option Fraction

abbrev pub verdict : LensDecision → Verdict
verdict d = record {
  action = d.action;
  reason = d.reason;
  headers = d.headers;
  status_code = d.status_code;
  retry_after = d.retry_after;
}

-- Whatever is merged, every trigger of both decisions is kept, as often as it was there.
pub merge-perm :
    (a b : LensDecision) → Perm (merge a b).triggered_by (a.triggered_by ++ b.triggered_by)
unfolding merge
merge-perm a b = elim (Bool-cases (is_terminal a)) [
  | inl t ↦ rw t (Perm.refl _)
  | inr n ↦ elim (Bool-cases (is_terminal b)) [
    | inl t ↦ rw (n, t) (Perm.refl _)
    | inr m ↦ elim (Bool-cases (leb (rank b.action) (rank a.action))) [
      | inl l ↦ rw (n, m, l) (Perm.refl _)
      | inr g ↦ rw (n, m, g) (perm_append_comm b.triggered_by a.triggered_by)
    ]
  ]
]

-- The verdict does not depend on how a chain of three decisions is bracketed: the first of the
-- most restrictive ones gives it.
pub verdict-merge_assoc :
    (a b c : LensDecision) → verdict (merge (merge a b) c) ≡ verdict (merge a (merge b c))
unfolding merge
verdict-merge_assoc a b c = ground arith

-- If `a` is not terminal, the merged decision has no rewritten state only if neither had one.
pub modified_state-merge :
    (a b : LensDecision)
    → is_terminal a ≡ false
    → (merge a b).modified_state ≡ none
    → (a.modified_state ≡ none) × (b.modified_state ≡ none)
unfolding merge
modified_state-merge a b h e = ground arith
