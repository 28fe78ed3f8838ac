-- ===== src/Lens/Emit.antt =====
-- The tables of the orchestrator: correlation ids and the buffers of events.
use langgraph_lens.Prelude.{
  ℕ, zero, suc, sym, keep, ◌+◌, ◌-◌, ◌≤◌, ◌≡◌, refl, ◌∙◌, ap, Bool, false, Option, none, some,
  String, List, [], ◌∷◌, ◌++◌, arith, length, append-nil, append_assoc, length-append, length-drop,
  drop, if◌then◌else◌, string_eq, pair_eq, option_eq, ◌==◌, Option-cases, Bool-cases, inl, inr,
}
use langgraph_lens.Prelude.Dict.{get, put, get-put}
use langgraph_lens.Runtime.{Runtime}
use langgraph_lens.Event.{Event}
use langgraph_lens.Lens.{
  Lens, emit, append_event, buffer_event, events_of, events_for_thread, named, correlation_for,
  max_events_per_thread,
}

get-put_self :
    (k : Option String × Option String) (v : String)
    (d : List ((Option String × Option String) × String))
    → get k (put k v d) ≡ some v
get-put_self k v d = get-put k k v d ∙ ground arith

correlation_found :
    (rt : Runtime) (run_id thread_id : Option String) (cid : String) (l : Lens)
    → get (run_id, thread_id) l.correlation_pairs ≡ some cid
    → correlation_for rt run_id thread_id l ≡ (cid, l)
unfolding correlation_for
correlation_found rt run_id thread_id cid l e = ground (arith, e)

correlation_new :
    (rt : Runtime) (run_id thread_id : Option String) (l : Lens)
    → get (run_id, thread_id) l.correlation_pairs ≡ none
    → correlation_for rt run_id thread_id l ≡ (
      rt.token_hex l.tokens_read,
      record l {
        correlation_pairs =
            put (run_id, thread_id) (rt.token_hex l.tokens_read) l.correlation_pairs;
        tokens_read = l.tokens_read + 1;
      },
    )
unfolding correlation_for
correlation_new rt run_id thread_id l e = ground (arith, e)

-- The id of a run and a thread is stable: once it was given, it is given again, and nothing changes.
pub correlation_for_stable :
    (rt : Runtime) (run_id thread_id : Option String) (l : Lens)
    → let (cid, l') = correlation_for rt run_id thread_id l in
      correlation_for rt run_id thread_id l' ≡ (cid, l')
correlation_for_stable rt run_id thread_id l =
    elim (Option-cases (get (run_id, thread_id) l.correlation_pairs)) [
      | inl e ↦
          rw (correlation_new rt run_id thread_id l e)
            (correlation_found rt run_id thread_id _ _ (get-put_self (run_id, thread_id) _ _))
      | inr (cid, e) ↦
          rw (correlation_found rt run_id thread_id cid l e)
            (correlation_found rt run_id thread_id cid l e)
    ]

drop-append : (n : ℕ) (xs ys : List Event) → n ≤ length xs → drop n (xs ++ ys) ≡ drop n xs ++ ys
drop-append zero xs ys h = refl
drop-append (suc n) [] ys h = ground (arith, h)
drop-append (suc n) (x ∷ xs) ys h = drop-append n xs ys (omega arith)

drop_nil : (n : ℕ) → drop {A = Event} n [] ≡ []
drop_nil zero = refl
drop_nil (suc n) = refl

drop-drop : (m n : ℕ) (xs : List Event) → drop m (drop n xs) ≡ drop (n + m) xs
drop-drop m zero xs = ap (λ k. drop k xs) (omega arith)
drop-drop m (suc n) [] = drop_nil m ∙ sym (drop_nil (suc n + m))
drop-drop m (suc n) (x ∷ xs) =
    let e : suc n + m ≡ suc (n + m) = omega arith in
    drop-drop m n xs ∙ ap (λ k. drop k (x ∷ xs)) (sym e)

-- The last events of a list, as many as a buffer holds.
abbrev pub latest : List Event → List Event
latest es = drop (length es - max_events_per_thread) es

latest_short : (xs : List Event) → length xs ≤ 256 → latest xs ≡ xs
latest_short xs h = let e : length xs - 256 ≡ 0 = omega arith in ap (λ k. drop k xs) e

latest_twice : (xs ys : List Event) → latest (latest xs ++ ys) ≡ latest (xs ++ ys)
latest_twice xs ys =
    let n = length xs - 256 in
    let counted : n + (length (drop n xs ++ ys) - 256) ≡ length (xs ++ ys) - 256 =
      omega (arith, length-append (drop n xs) ys, length-append xs ys, length-drop n xs) in
    ap (drop (length (drop n xs ++ ys) - 256)) (sym (drop-append n xs ys (omega arith)))
    ∙ drop-drop (length (drop n xs ++ ys) - 256) n (xs ++ ys)
    ∙ ap (λ k. drop k (xs ++ ys)) counted

-- The event belongs to the thread.
abbrev pub is_on : String → Event → Bool
is_on thread e = e.thread_id == some thread

pub buffered :
    (thread : String) (thread_id : Option String) (e : Event) (l : Lens)
    → (thread == "") ≡ false
    → events_of (get thread (buffer_event thread_id e l.thread_events)) ≡ (
        if thread_id == some thread
        then latest (events_of (get thread l.thread_events) ++ e ∷ [])
        else events_of (get thread l.thread_events))
unfolding buffer_event append_event named option_eq
buffered thread none e l ne = ground arith
buffered thread (some t) e l ne = ground (
  arith,
  ne,
  get-put thread t (append_event e (events_of (get t l.thread_events))) l.thread_events,
)

pub events-emit :
    (rt : Runtime) (e : Event) (l : Lens) (thread : String)
    → (thread == "") ≡ false
    → events_for_thread thread (emit rt e l) ≡ (
        if is_on thread e
        then latest (events_for_thread thread l ++ e ∷ [])
        else events_for_thread thread l)
unfolding emit events_for_thread
events-emit rt e l thread ne = buffered thread e.thread_id e l ne

-- The events of a list, emitted one after the other.
pub emits : Runtime → List Event → Lens → Lens
emits rt [] l = l
emits rt (e ∷ es) l = emits rt es (emit rt e l)

-- Whatever events are emitted, the buffer of a named thread holds the last 256 of those that it held
-- and of those of the list that belong to it, in order, if it held no more than 256.
pub emits_refine :
    (rt : Runtime) (es : List Event) (l : Lens) (thread : String)
    → (thread == "") ≡ false
    → length (events_for_thread thread l) ≤ 256
    → events_for_thread thread (emits rt es l)
      ≡ latest (events_for_thread thread l ++ keep (is_on thread) es)
unfolding emits
emits_refine rt [] l thread ne h =
    let xs = events_for_thread thread l in sym (ap latest (append-nil xs) ∙ latest_short xs h)
emits_refine rt (e ∷ es) l thread ne h =
    let xs = events_for_thread thread l in
    let now = events-emit rt e l thread ne in
    elim (Bool-cases (is_on thread e)) [
      | inl mine ↦
          let step : events_for_thread thread (emit rt e l) ≡ latest (xs ++ e ∷ []) =
            rw mine at now in
          let small : length (events_for_thread thread (emit rt e l)) ≤ 256 =
            rw step (omega (arith, length-drop (length (xs ++ e ∷ []) - 256) (xs ++ e ∷ []))) in
          let kept : keep (is_on thread) (e ∷ es) ≡ e ∷ keep (is_on thread) es = rw mine refl in
          emits_refine rt es (emit rt e l) thread ne small
          ∙ ap (λ ys. latest (ys ++ keep (is_on thread) es)) step
          ∙ latest_twice (xs ++ e ∷ []) (keep (is_on thread) es)
          ∙ ap latest (append_assoc xs (e ∷ []) (keep (is_on thread) es))
          ∙ ap (λ ys. latest (xs ++ ys)) (sym kept)
      | inr other ↦
          let step : events_for_thread thread (emit rt e l) ≡ xs = rw other at now in
          let kept : keep (is_on thread) (e ∷ es) ≡ keep (is_on thread) es = rw other refl in
          emits_refine rt es (emit rt e l) thread ne (rw step h)
          ∙ ap (λ ys. latest (ys ++ keep (is_on thread) es)) step
          ∙ ap (λ ys. latest (xs ++ ys)) (sym kept)
    ]
