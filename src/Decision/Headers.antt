-- ===== src/Decision/Headers.antt =====
-- `with_audit_headers`: which headers a decision gets.
use langgraph_lens.Prelude.{
  String, ◌≡◌, not, refl, sym, ap, ◌∙◌, ◌≢◌, Option, none, some, List, [], ◌∷◌, ◌&&◌, if◌then◌else◌,
  string_eq, Bool-cases, inl, inr,
}
use langgraph_lens.Prelude.Dict.{
  Dict, get, setdefault, Has, Has-setdefault, Has-setdefault_self, setdefault-Has,
  get-setdefault_kept, get-setdefault_self, get-setdefault_ne,
}
use langgraph_lens.Time.{Fraction}
use langgraph_lens.Decision.{
  LensDecision, with_audit_headers, stamp_headers, action_name, is_empty, is_allow, retry_header,
  reason_entry,
}

retry_header-Has :
    (o : Option Fraction) (k : String) (h : Dict String String) → Has k h → Has k (retry_header o h)
retry_header-Has none k h p = p
retry_header-Has (some d) k h p = Has-setdefault k "Retry-After" _ h p

retry_header_idem :
    (o : Option Fraction) (h : Dict String String)
    → retry_header o (retry_header o h) ≡ retry_header o h
retry_header_idem none h = refl
retry_header_idem (some d) h = setdefault-Has _ _ _ (Has-setdefault_self _ _ h)

reason_entry-Has :
    (r : String) (ts : List String) (k : String) (h : Dict String String)
    → Has k h
    → Has k (reason_entry r ts h)
reason_entry-Has r [] k h p = p
reason_entry-Has r (x ∷ xs) k h p = Has-setdefault k r _ h p

reason_entry_again :
    (o : Option Fraction) (r : String) (ts : List String) (h : Dict String String)
    → reason_entry r ts (retry_header o (reason_entry r ts h))
      ≡ retry_header o (reason_entry r ts h)
reason_entry_again o r [] h = refl
reason_entry_again o r (x ∷ xs) h =
    setdefault-Has r _ _ (retry_header-Has o r _ (Has-setdefault_self r _ h))

get-entries_kept :
    (o : Option Fraction) (r : String) (ts : List String) (k w : String) (h : Dict String String)
    → get k h ≡ some w
    → get k (retry_header o (reason_entry r ts h)) ≡ some w
get-entries_kept none r [] k w h e = e
get-entries_kept none r (x ∷ xs) k w h e = get-setdefault_kept k r _ w h e
get-entries_kept (some d) r [] k w h e = get-setdefault_kept k "Retry-After" _ w h e
get-entries_kept (some d) r (x ∷ xs) k w h e =
    get-setdefault_kept k "Retry-After" _ w _ (get-setdefault_kept k r _ w h e)

module _ (t r a : String) where
  stamp_headers-Has :
      (d : LensDecision) (h : Dict String String) (k : String)
      → Has k (setdefault a (action_name d.action) (setdefault t "true" h))
      → Has k (stamp_headers t r a d h)
  unfolding stamp_headers
  stamp_headers-Has d h k p =
      retry_header-Has d.retry_after k _ (reason_entry-Has r d.triggered_by k _ p)

  stamp_headers_idem :
      (d : LensDecision) (h : Dict String String)
      → stamp_headers t r a d (stamp_headers t r a d h) ≡ stamp_headers t r a d h
  stamp_headers_idem d h =
      let s = stamp_headers t r a d h in
      let has_t : Has t s =
        stamp_headers-Has d h t (Has-setdefault t a _ _ (Has-setdefault_self t "true" h)) in
      let has_a : Has a s = stamp_headers-Has d h a (Has-setdefault_self a _ _) in
      let n = action_name d.action in
      let h2 = setdefault a n (setdefault t "true" h) in
      unfold stamp_headers in
      ap (λ x. retry_header d.retry_after (reason_entry r d.triggered_by x))
        (ap (setdefault a n) (setdefault-Has t "true" s has_t) ∙ setdefault-Has a n s has_a)
      ∙ ap (retry_header d.retry_after) (reason_entry_again d.retry_after r d.triggered_by h2)
      ∙ retry_header_idem d.retry_after (reason_entry r d.triggered_by h2)

  -- A second call adds nothing.
  pub with_audit_headers_idem :
      (d : LensDecision)
      → with_audit_headers t r a (with_audit_headers t r a d) ≡ with_audit_headers t r a d
  unfolding with_audit_headers stamp_headers
  with_audit_headers_idem d = elim (Bool-cases (is_empty d.triggered_by && is_allow d.action)) [
    | inl e ↦ rw (e, e) refl
    | inr e ↦ rw (e, e, stamp_headers_idem d d.headers) refl
  ]

  -- With no header set before, the headers are there exactly if a trigger fired or the action is
  -- not `allow`; then the first two say "true" and the action.
  pub get-with_audit_headers :
      (d : LensDecision)
      → t ≢ a
      → d.headers ≡ []
      → let fired = not (is_empty d.triggered_by && is_allow d.action) in
        let h = (with_audit_headers t r a d).headers in
        (get t h ≡ (if fired then some "true" else none))
        × (get a h ≡ (if fired then some (action_name d.action) else none))
  unfolding with_audit_headers stamp_headers get
  get-with_audit_headers d other fresh =
      let h1 = setdefault t "true" [] in
      let at_t : get t h1 ≡ some "true" = get-setdefault_self t "true" [] refl in
      let a_free : get a h1 ≡ none = get-setdefault_ne a t "true" [] (λ e. other (sym e)) in
      let name = action_name d.action in
      elim (Bool-cases (is_empty d.triggered_by && is_allow d.action)) [
        | inl e ↦ rw (e, fresh) (refl, refl)
        | inr e ↦
            rw (e, fresh)
              (
                get-entries_kept d.retry_after r d.triggered_by t _ _
                    (get-setdefault_kept t a name _ h1 at_t),
                get-entries_kept d.retry_after r d.triggered_by a _ _
                    (get-setdefault_self a name h1 a_free),
              )
      ]
