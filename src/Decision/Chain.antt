-- ===== src/Decision/Chain.antt =====
-- `merge` over a chain of decisions, as the orchestrator merges those of the interventions.
use mathlib.Core.List.{Perm, perm-append_right_iff}
use mathlib.Core.List.Perm
use langgraph_lens.Prelude.{
  String, ◌≤◌, ◌<◌, ◌≡◌, refl, sym, ap, ◌∙◌, subst, List, [], ◌∷◌, ◌++◌, All, All-append, All-map,
  append_assoc, append-nil, arith, leb, Bool-cases, inl, inr, if◌then◌else◌,
}
use langgraph_lens.Decision.{LensDecision, rank, merge}
use langgraph_lens.Decision.Merge.{verdict, merge-perm}

-- `d.merge(e1)`, then `.merge(e2)`, and so on
unfoldable pub merges : LensDecision → List LensDecision → LensDecision
merges d [] = d
merges d (e ∷ es) = merges (merge d e) es

-- The first of the most restrictive decisions of a list: those before it are less restrictive, and
-- those behind it are not more so.
pub record IsFirst (w : LensDecision) (ds : List LensDecision) : Type 0 where
  pub before : List LensDecision
  pub after : List LensDecision
  pub split : ds ≡ before ++ w ∷ after
  pub weaker : All (λ d. rank d.action < rank w.action) before
  pub no_stronger : All (λ d. rank d.action ≤ rank w.action) after

verdict-merge :
    (a b : LensDecision)
    → verdict (merge a b) ≡ (if leb (rank b.action) (rank a.action) then verdict a else verdict b)
unfolding merge
verdict-merge a b = ground arith

module _ (w e : LensDecision) (seen : List LensDecision) (first : IsFirst w seen) where
  IsFirst-kept : rank e.action ≤ rank w.action → IsFirst w (seen ++ e ∷ [])
  IsFirst-kept le = record {
    before = first.before;
    after = first.after ++ e ∷ [];
    split =
        ap (λ l. l ++ e ∷ []) first.split ∙ append_assoc first.before (w ∷ first.after) (e ∷ []);
    weaker = first.weaker;
    no_stronger = All-append _ first.after (e ∷ []) first.no_stronger (le, tt);
  }

  IsFirst-new : rank w.action < rank e.action → IsFirst e (seen ++ e ∷ [])
  IsFirst-new lt = record {
    before = seen;
    after = [];
    split = refl;
    weaker = subst (All (λ d. rank d.action < rank e.action)) (sym first.split) (
        All-append _ first.before (w ∷ first.after)
          (All-map _ _ first.before (λ d h. omega arith) first.weaker)
          (lt, All-map _ _ first.after (λ d h. omega arith) first.no_stronger));
    no_stronger = tt;
  }

-- The result of a chain that has come so far.
abbrev Result : LensDecision → List LensDecision → Type 0
Result d ds = (w : LensDecision) × IsFirst w ds × (verdict d ≡ verdict w)

Result-merge :
    (d e : LensDecision) (seen : List LensDecision)
    → Result d seen
    → Result (merge d e) (seen ++ e ∷ [])
Result-merge d e seen (w, first, same) =
    let ranks : rank d.action ≡ rank w.action = ap (λ v. rank v.action) same in
    elim (Bool-cases (leb (rank e.action) (rank d.action))) [
      | inl le ↦ (
        w,
        IsFirst-kept w e seen first (ground (arith, ranks)),
        verdict-merge d e ∙ ground (arith, le, same),
      )
      | inr gt ↦
          (e, IsFirst-new w e seen first (ground (arith, ranks)), verdict-merge d e ∙ rw gt refl)
    ]

Result-merges :
    (d : LensDecision) (es seen : List LensDecision)
    → Result d seen
    → Result (merges d es) (seen ++ es)
unfolding merges
Result-merges d [] seen h = subst (Result d) (sym (append-nil seen)) h
Result-merges d (e ∷ es) seen h =
    subst (Result (merges (merge d e) es)) (append_assoc seen (e ∷ []) es)
      (Result-merges (merge d e) es (seen ++ e ∷ []) (Result-merge d e seen h))

-- The triggers of all decisions.
abbrev pub all_triggers : List LensDecision → List String
all_triggers [] = []
all_triggers (d ∷ ds) = d.triggered_by ++ all_triggers ds

Perm-merges :
    (d : LensDecision) (es : List LensDecision)
    → Perm (merges d es).triggered_by (all_triggers (d ∷ es))
unfolding merges
Perm-merges d [] = subst (Perm d.triggered_by) (sym (append-nil d.triggered_by)) (Perm.refl _)
Perm-merges d (e ∷ es) = Perm.trans (Perm-merges (merge d e) es) (
    subst (Perm ((merge d e).triggered_by ++ all_triggers es))
      (append_assoc d.triggered_by e.triggered_by (all_triggers es))
      ((perm-append_right_iff (all_triggers es)).1 (merge-perm d e)))

-- Of a chain of decisions, the first of the most restrictive ones gives action, reason, headers, status
-- code and retry_after, and the triggers of all are kept, each as often as it was there.
pub merges-IsFirst :
    (d : LensDecision) (es : List LensDecision)
    → (w : LensDecision) × IsFirst w (d ∷ es)
      × (verdict (merges d es) ≡ verdict w)
      × Perm (merges d es).triggered_by (all_triggers (d ∷ es))
merges-IsFirst d es =
    let (w, first, same) =
      Result-merges d es (d ∷ []) (
        d,
        record { before = []; after = []; split = refl; weaker = tt; no_stronger = tt },
        refl,
      ) in
    (w, first, same, Perm-merges d es)
