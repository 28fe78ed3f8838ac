-- ===== src/Detector/GoalHijack/Topic.antt =====
-- detectors/goal_hijack.py: the similarity of the intent and the pending action, against their sets of
-- words.
use langgraph_lens.Prelude.{
  ◌*◌, ◌≤◌, String, ◌≡◌, ◌↔◌, refl, ◌∙◌, true, false, ◌&&◌, ◌||◌, List, [], ◌∷◌, length, contains,
  eqb, ltb, arith, string_eq, ◌==◌,
}
use langgraph_lens.Runtime.{Runtime, Unicode}
use langgraph_lens.Text.Order.{is_distinct, contains-sorted_set, is_distinct-sorted_set}
use langgraph_lens.Text.Sets.{IsSetOf, length-both, length-either}
use langgraph_lens.Detector.GoalHijack.{
  GoalHijackConfig, lower_words, word_set, overlap, token_jaccard, is_less, scan_topic,
}

some_element : (xs : List String) (z : String) → contains xs z ≡ true → eqb (length xs) 0 ≡ false
some_element [] z h = ground arith
some_element (x ∷ xs) z h = ground arith

overlap-IsSetOf :
    (ta tb both all : List String) (v w : String)
    → is_distinct ta ≡ true
    → is_distinct tb ≡ true
    → contains ta v ≡ true
    → contains tb w ≡ true
    → IsSetOf (λ z. contains ta z && contains tb z) both
    → IsSetOf (λ z. contains ta z || contains tb z) all
    → ((overlap ta tb).num ≡ length both) × ((overlap ta tb).den ≡ length all)
unfolding overlap
overlap-IsSetOf ta tb both all v w ha hb hv hw (db, sb) (da, sa) =
    let common = length-both ta tb ha hb both db sb in
    let total = length-either ta tb ha hb all da sa in
    let a = some_element ta v hv in
    let b = some_element tb w hw in (ground (arith, common, a, b), ground (arith, total, a, b))

module _ (u : Unicode) where
  contains-word_set : (s z : String) → contains (word_set u s) z ≡ contains (lower_words u s) z
  unfolding word_set
  contains-word_set s z = contains-sorted_set (lower_words u s) z

  token_jaccard-IsSetOf :
      (a b : String) (both all : List String) (v w : String)
      → contains (lower_words u a) v ≡ true
      → contains (lower_words u b) w ≡ true
      → IsSetOf (λ z. contains (lower_words u a) z && contains (lower_words u b) z) both
      → IsSetOf (λ z. contains (lower_words u a) z || contains (lower_words u b) z) all
      → ((token_jaccard u a b).num ≡ length both) × ((token_jaccard u a b).den ≡ length all)
  unfolding token_jaccard word_set
  token_jaccard-IsSetOf a b both all v w hv hw (db, sb) (da, sa) =
      overlap-IsSetOf (word_set u a) (word_set u b) both all v w
        (is_distinct-sorted_set (lower_words u a)) (is_distinct-sorted_set (lower_words u b))
        (contains-word_set a v ∙ hv) (contains-word_set b w ∙ hw)
        (db, λ z. ground (arith, sb z, contains-word_set a z, contains-word_set b z))
        (da, λ z. ground (arith, sa z, contains-word_set a z, contains-word_set b z))

-- With the rule on and a pending action that is not empty, intent and action having a word each: the
-- action is not reported exactly if the number of words of both, over that of words of either, is at
-- least the threshold. The words are counted without case, repetition or order: any lists without
-- repetition that hold the words of both and of either give the numbers.
pub scan_topic-IsSetOf :
    (rt : Runtime) (c : GoalHijackConfig) (pending intent : String) (both all : List String)
    (v w : String)
    → contains c.rules "off_topic_subgoal" ≡ true
    → (pending == "") ≡ false
    → contains (lower_words rt.unicode intent) v ≡ true
    → contains (lower_words rt.unicode pending) w ≡ true
    → IsSetOf
        (λ z.
          contains (lower_words rt.unicode intent) z && contains (lower_words rt.unicode pending) z)
        both
    → IsSetOf
        (λ z.
          contains (lower_words rt.unicode intent) z || contains (lower_words rt.unicode pending) z)
        all
    → let least = c.user_intent_similarity_threshold in
      (scan_topic rt c pending intent ≡ []) ↔ (least.num * length all ≤ length both * least.den)
unfolding scan_topic
scan_topic-IsSetOf rt c pending intent both all v w on there hv hw sb sa =
    let (num, den) = token_jaccard-IsSetOf rt.unicode intent pending both all v w hv hw sb sa in
    let least = c.user_intent_similarity_threshold in
    let weighed : is_less (token_jaccard rt.unicode intent pending) least
        ≡ ltb (length both * least.den) (least.num * length all) =
      rw (num, den) refl in
    (λ e. ground (arith, on, there, weighed, e), λ l. ground (arith, on, there, weighed, l))
