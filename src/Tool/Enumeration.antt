-- ===== src/Tool/Enumeration.antt =====
-- The tool sweep: the windows of the threads against the histories of their calls.
use langgraph_lens.Prelude.{
  ℕ, ◌≤◌, ◌<◌, ◌≡◌, ◌↔◌, ◌≢◌, ◌∙◌, true, false, some, String, List, [], ◌∷◌, ◌++◌, arith, length,
  map, contains, string_eq, ◌==◌,
}
use langgraph_lens.Prelude.Dict.{get, put, get-put}
use langgraph_lens.Time.{ticks}
use langgraph_lens.Text.Sets.{IsSetOf, length-sorted_set}
use langgraph_lens.Window.{push, recent}
use langgraph_lens.Window.Laws.{IsWindow, push-IsWindow}
use langgraph_lens.Tool.{
  ToolDetector, has_rule, tracked, window_of, scan_enumeration, enumeration_signal, distinct_tools,
}

module _ (now last : ℕ) (tool thread : String) (t : ToolDetector) (h : List (ℕ × String))
    (on : has_rule t.config "enumeration" ≡ true) (named : (thread == "") ≡ false)
    (w : IsWindow
      (ticks t.config.enumeration_window_seconds)
      (window_of thread t.enum_windows)
      last
      h)
    (later : last ≤ now) where
  abbrev longer : List (ℕ × String)
  longer = h ++ (now, tool) ∷ []

  abbrev swept : List (ℕ × String)
  swept =
      push (ticks t.config.enumeration_window_seconds) now tool (window_of thread t.enum_windows)

  tracked_lem : tracked t.config (some thread) ≡ some thread
  unfolding tracked
  tracked_lem = simp (on, named)

  scan_lem : scan_enumeration now tool (some thread) t ≡ (
    enumeration_signal t.config swept,
    record t { enum_windows = put thread swept t.enum_windows },
  )
  unfolding scan_enumeration
  scan_lem = rw (tracked_lem, scan_enumeration)

  swept-IsWindow : IsWindow (ticks t.config.enumeration_window_seconds) swept now longer
  swept-IsWindow = push-IsWindow _ last now tool _ h w later

  window_after : window_of thread (put thread swept t.enum_windows) ≡ swept
  window_after = ground (arith, get-put thread thread swept t.enum_windows)

  -- The different tools of a window, as any list that has each of them once.
  abbrev IsToolSet : List (ℕ × String) → List String → Type 0
  IsToolSet calls = IsSetOf (contains (map (λ (at, name). name) calls))

  signal_lem :
      (tools : List String)
      → IsToolSet swept tools
      → (enumeration_signal t.config swept ≡ []) ↔ (length tools < t.config.enumeration_threshold)
  unfolding enumeration_signal distinct_tools
  signal_lem tools set =
      let long = length-sorted_set (map (λ (at, name). name) swept) tools set in
      (λ e. ground (arith, long), λ l. ground (arith, long))

  -- With the rule on and a clock that is not set back, a call on a named thread, `h` being the
  -- calls of that thread so far: its window is then that of the longer history, the windows of the
  -- other threads stay, and the sweep is reported exactly if the calls of the last
  -- `enumeration_window_seconds` name at least `enumeration_threshold` tools, counted in any list
  -- that has each of these tools once.
  pub scan_enumeration_refines :
      (tools : List String)
      → IsToolSet (recent (ticks t.config.enumeration_window_seconds) now longer) tools
      → let width = ticks t.config.enumeration_window_seconds in
        let (found, t') = scan_enumeration now tool (some thread) t in
        IsWindow width (window_of thread t'.enum_windows) now longer
        × ((other : String) → other ≢ thread → get other t'.enum_windows ≡ get other t.enum_windows)
        × ((found ≡ []) ↔ (length tools < t.config.enumeration_threshold))
  scan_enumeration_refines tools set =
      rw (scan_lem, window_after)
        (
          swept-IsWindow,
          λ other ne. get-put other thread swept t.enum_windows ∙ ground arith,
          signal_lem tools (rw swept-IsWindow.is_recent_part set),
        )
