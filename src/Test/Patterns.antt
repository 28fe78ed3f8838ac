-- ===== src/Test/Patterns.antt =====
-- The patterns of the detectors at texts that they are meant for.
use langgraph_lens.Prelude.{String, ◌≡◌, refl, false, some}
use langgraph_lens.Runtime.{Unicode}
use langgraph_lens.Regex.{search_any}
use langgraph_lens.Regex.Classes.{is_word, is_space, any_of, one_of}
use langgraph_lens.Tool.Patterns.{shell_metachar_patterns}

abbrev pub ascii_only : Unicode
ascii_only = record {
  digit = λ c. false;
  digit_value = λ c. 0;
  word = λ c. false;
  space = λ c. false;
  lower = λ c. String.◌∷◌ c String.[];
}

shell_remove : search_any (shell_metachar_patterns ascii_only) "ls; rm -rf /" ≡ some "; rm"
unfolding search_any shell_metachar_patterns is_word is_space any_of one_of
shell_remove = refl
