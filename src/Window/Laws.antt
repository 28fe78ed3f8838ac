-- ===== src/Window/Laws.antt =====
-- With a clock that is not set back, the deque is the window of the whole history.
use langgraph_lens.Prelude.{
  ℕ, ◌+◌, ◌≤◌, ◌≡◌, refl, sym, ap, ◌∙◌, false, List, [], ◌∷◌, ◌++◌, arith, ltb, keep-append,
  Bool-cases, inl, inr,
}
use langgraph_lens.Window.{gc, push, recent, is_recent}

module _ {ℓ} {A : Type ℓ} where
  -- Every stamp is at most `now`.
  abbrev pub Upto : ℕ → List (ℕ × A) → Type 0
  Upto now [] = Unit
  Upto now ((t, a) ∷ q) = (t ≤ now) × Upto now q

  abbrev pub From : ℕ → List (ℕ × A) → Type 0
  From t [] = Unit
  From t ((s, a) ∷ q) = (t ≤ s) × From t q

  -- The stamps are in ascending order.
  abbrev pub Ascending : List (ℕ × A) → Type 0
  Ascending [] = Unit
  Ascending ((t, a) ∷ q) = From t q × Ascending q

  recent_all :
      (width now t : ℕ) (q : List (ℕ × A))
      → From t q
      → ltb (t + width) now ≡ false
      → recent width now q ≡ q
  unfolding recent
  recent_all width now t [] f h = refl
  recent_all width now t ((s, a) ∷ q) f h = ground (arith, recent_all width now t q f.1)

  -- On ascending stamps, dropping from the left removes all that is too old.
  pub gc-eq-recent :
      (width now : ℕ) (q : List (ℕ × A)) → Ascending q → gc width now q ≡ recent width now q
  unfolding gc recent
  gc-eq-recent width now [] h = refl
  gc-eq-recent width now ((t, a) ∷ q) h = elim (Bool-cases (ltb (t + width) now)) [
    | inl old ↦ rw old (gc-eq-recent width now q h.1)
    | inr new ↦ rw new (ap (◌∷◌ (t, a)) (sym (recent_all width now t q h.0 new)))
  ]

  pub recent-recent :
      (width now later : ℕ) (q : List (ℕ × A))
      → now ≤ later
      → recent width later (recent width now q) ≡ recent width later q
  unfolding recent
  recent-recent width now later [] h = refl
  recent-recent width now later ((t, a) ∷ q) h = ground (arith, recent-recent width now later q h)

  pub From-recent : (width now t : ℕ) (q : List (ℕ × A)) → From t q → From t (recent width now q)
  unfolding recent
  From-recent width now t [] h = tt
  From-recent width now t ((s, a) ∷ q) h = ground (arith, From-recent width now t q h.1)

  pub Ascending-recent :
      (width now : ℕ) (q : List (ℕ × A)) → Ascending q → Ascending (recent width now q)
  unfolding recent
  Ascending-recent width now [] h = tt
  Ascending-recent width now ((t, a) ∷ q) h = elim (Bool-cases (ltb (t + width) now)) [
    | inl old ↦ rw old (Ascending-recent width now q h.1)
    | inr new ↦ rw new (From-recent width now t q h.0, Ascending-recent width now q h.1)
  ]

  Upto-recent : (width now t : ℕ) (q : List (ℕ × A)) → Upto t q → Upto t (recent width now q)
  unfolding recent
  Upto-recent width now t [] h = tt
  Upto-recent width now t ((s, a) ∷ q) h = ground (arith, Upto-recent width now t q h.1)

  From-snoc :
      (t now : ℕ) (a : A) (q : List (ℕ × A)) → From t q → t ≤ now → From t (q ++ (now, a) ∷ [])
  From-snoc t now a [] f h = (h, tt)
  From-snoc t now a ((s, b) ∷ q) f h = (f.0, From-snoc t now a q f.1 h)

  pub Ascending-snoc :
      (now : ℕ) (a : A) (q : List (ℕ × A))
      → Ascending q
      → Upto now q
      → Ascending (q ++ (now, a) ∷ [])
  Ascending-snoc now a [] h u = (tt, tt)
  Ascending-snoc now a ((s, b) ∷ q) h u =
      (From-snoc s now a q h.0 u.0, Ascending-snoc now a q h.1 u.1)

  -- One more entry: the deque that held the window of the history holds that of the longer one.
  pub push-recent :
      (width before now : ℕ) (a : A) (history : List (ℕ × A))
      → Ascending history
      → Upto now history
      → before ≤ now
      → push width now a (recent width before history) ≡ recent width now (history ++ (now, a) ∷ [])
  unfolding push
  push-recent width before now a history asc upto h =
      gc-eq-recent width now _ (
        Ascending-snoc now a (recent width before history)
          (Ascending-recent width before history asc) (Upto-recent width before now history upto))
      ∙ unfold recent in
        (keep-append (is_recent width now) (recent width before history) ((now, a) ∷ [])
          ∙ rw (recent-recent width before now history h, recent)
              (sym (keep-append (is_recent width now) history ((now, a) ∷ []))))

  pub Upto-later : (last now : ℕ) (q : List (ℕ × A)) → last ≤ now → Upto last q → Upto now q
  Upto-later last now [] h u = tt
  Upto-later last now ((s, b) ∷ q) h u = (omega arith, Upto-later last now q h u.1)

  pub Upto-snoc : (now : ℕ) (a : A) (q : List (ℕ × A)) → Upto now q → Upto now (q ++ (now, a) ∷ [])
  Upto-snoc now a [] u = (omega arith, tt)
  Upto-snoc now a ((s, b) ∷ q) u = (u.0, Upto-snoc now a q u.1)

-- `deque` is the window at `last` of a history whose stamps ascend up to `last`.
pub record IsWindow {ℓ} {A : Type ℓ} (width : ℕ) (deque : List (ℕ × A)) (last : ℕ)
    (history : List (ℕ × A)) : Type ℓ where
  pub is_recent_part : deque ≡ recent width last history
  pub ascending : Ascending history
  pub upto : Upto last history

module _ {ℓ} {A : Type ℓ} where
  pub empty-IsWindow : (width last : ℕ) → IsWindow {A = A} width [] last []
  unfolding recent
  empty-IsWindow width last = record { is_recent_part = refl; ascending = tt; upto = tt }

  -- The deque after `push` is the window of the longer history.
  pub push-IsWindow :
      (width last now : ℕ) (a : A) (q h : List (ℕ × A))
      → IsWindow width q last h
      → last ≤ now
      → IsWindow width (push width now a q) now (h ++ (now, a) ∷ [])
  push-IsWindow width last now a q h w later =
      let upto : Upto now h = Upto-later last now h later w.upto in
      record {
        is_recent_part =
            rw w.is_recent_part (push-recent width last now a h w.ascending upto later);
        ascending = Ascending-snoc now a h w.ascending upto;
        upto = Upto-snoc now a h upto;
      }

  -- Collecting once more at the same time drops nothing.
  pub gc-IsWindow :
      (width now : ℕ) (q h : List (ℕ × A)) → IsWindow width q now h → gc width now q ≡ q
  gc-IsWindow width now q h w = rw w.is_recent_part (
      gc-eq-recent width now _ (Ascending-recent width now h w.ascending)
      ∙ recent-recent width now now h (omega arith))
