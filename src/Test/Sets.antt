-- ===== src/Test/Sets.antt =====
-- Words, tools and alerts as sets, at small inputs.
use langgraph_lens.Prelude.{◌*◌, ◌≤◌, ◌≡◌, ◌↔◌, refl, true, [], ◌∷◌, arith, string_eq}
use langgraph_lens.Regex.Classes.{is_word}
use langgraph_lens.Message.{nonempty, lower_text}
use langgraph_lens.Text.{split_on}
use langgraph_lens.Detector.GoalHijack.{GoalHijackConfig, lower_words, scan_topic}
use langgraph_lens.Detector.GoalHijack.Topic.{scan_topic-IsSetOf}
use langgraph_lens.Test.Detectors.{runtime}

abbrev half : GoalHijackConfig
half = record {
  enabled = true;
  rules = "off_topic_subgoal" ∷ [];
  user_intent_similarity_threshold = record { num = 1; den = 2 };
  watch_substrings = [];
}

words_of_intent : lower_words runtime.unicode "a b, a" ≡ "a" ∷ "b" ∷ "a" ∷ []
unfolding lower_words split_on is_word nonempty lower_text string_eq
words_of_intent = refl

words_of_action : lower_words runtime.unicode "b" ≡ "b" ∷ []
unfolding lower_words split_on is_word nonempty lower_text string_eq
words_of_action = refl

scan_topic-IsSetOf_example : (scan_topic runtime half "b" "a b, a" ≡ []) ↔ (1 * 2 ≤ 1 * 2)
scan_topic-IsSetOf_example =
    scan_topic-IsSetOf runtime half "b" "a b, a" ("b" ∷ []) ("a" ∷ "b" ∷ []) "b" "b"
      (unfold string_eq in refl) (unfold string_eq in refl)
      (rw words_of_intent (unfold string_eq in refl))
      (rw words_of_action (unfold string_eq in refl))
      (refl, λ z. rw (words_of_intent, words_of_action) (ground arith))
      (unfold string_eq in refl, λ z. rw (words_of_intent, words_of_action) (ground arith))
