-- ===== src/Window.antt =====
-- The sliding windows of the circuit breaker and the tool detector: a deque of stamped entries,
-- appended at the right and dropped at the left once they are older than the window.
pub mod Laws
use langgraph_lens.Prelude.{ℕ, ◌+◌, Bool, List, [], ◌∷◌, ◌++◌, ltb, not, keep, if◌then◌else◌}

module _ {ℓ} {A : Type ℓ} where
  -- `while q and q[0][0] < now - width: q.popleft()`
  unfoldable pub gc : ℕ → ℕ → List (ℕ × A) → List (ℕ × A)
  gc width now [] = []
  gc width now ((t, a) ∷ q) =
      let rest = gc width now q in if ltb (t + width) now then rest else (t, a) ∷ q

  -- An entry that is not older than the window.
  abbrev pub is_recent : ℕ → ℕ → ℕ × A → Bool
  is_recent width now (t, a) = not (ltb (t + width) now)

  -- The specification: all entries of a history that are not older than the window.
  unfoldable pub recent : ℕ → ℕ → List (ℕ × A) → List (ℕ × A)
  recent width now = keep (is_recent width now)

  -- `q.append((now, a))`, then the loop above
  unfoldable pub push : ℕ → ℕ → A → List (ℕ × A) → List (ℕ × A)
  unfolding gc
  push width now a q = gc width now (q ++ (now, a) ∷ [])
