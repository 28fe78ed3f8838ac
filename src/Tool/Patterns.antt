-- ===== src/Tool/Patterns.antt =====
-- The patterns of detectors/tool.py.
use langgraph_lens.Prelude.{List, [], ◌∷◌}
use langgraph_lens.Runtime.{Unicode}
use langgraph_lens.Regex.{Regex, class, seq, star, boundary}
use langgraph_lens.Regex.Classes.{is_word, is_space, lit, words, all_of, plus, opt, none_of}

-- `_SHELL_METACHAR_PATTERNS`
unfoldable pub shell_metachar_patterns : Unicode → List Regex
unfolding lit words all_of
shell_metachar_patterns u =
    all_of (
      lit ";"
      ∷ star (class (is_space u))
      ∷ words ("rm" ∷ "cat" ∷ "curl" ∷ "wget" ∷ "sh" ∷ "bash" ∷ "nc" ∷ "ncat" ∷ [])
      ∷ boundary (is_word u)
      ∷ [])
    ∷ all_of (
        lit "|"
        ∷ star (class (is_space u))
        ∷ words ("sh" ∷ "bash" ∷ "/bin/sh" ∷ "/bin/bash" ∷ [])
        ∷ boundary (is_word u)
        ∷ [])
    ∷ all_of (lit "$(" ∷ plus (class (none_of ")")) ∷ lit ")" ∷ [])
    ∷ all_of (lit "`" ∷ plus (class (none_of "`")) ∷ lit "`" ∷ [])
    ∷ all_of (
        lit "&&"
        ∷ star (class (is_space u))
        ∷ words ("rm" ∷ "cat" ∷ "curl" ∷ "wget" ∷ "sh" ∷ "bash" ∷ [])
        ∷ boundary (is_word u)
        ∷ [])
    ∷ []

-- `https?://`
abbrev http : Regex
http = seq (lit "http") (seq (opt (lit "s")) (lit "://"))

-- `_SSRF_PATTERNS`
unfoldable pub ssrf_patterns : List Regex
unfolding lit words
ssrf_patterns =
    seq http (words ("127.0.0.1" ∷ "localhost" ∷ "0.0.0.0" ∷ "::1" ∷ []))
    ∷ seq http (lit "169.254.169.254")
    ∷ seq http (lit "metadata.google.internal")
    ∷ lit "file:///"
    ∷ lit "gopher://"
    ∷ []
