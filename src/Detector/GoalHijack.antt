-- ===== src/Detector/GoalHijack.antt =====
-- detectors/goal_hijack.py: whether a state still serves what the user asked for. A similarity is a
-- fraction; the one that is reported is rounded to thousandths, a half to the even side.
pub mod Topic
use langgraph_lens.Prelude.{
  ◌+◌, ◌-◌, ◌*◌, ◌/◌, ◌%◌, String, Bool, not, ◌&&◌, ◌||◌, Option, none, some, List, [], ◌∷◌, ◌++◌,
  map, count, length, contains, eqb, ltb, if◌then◌else◌, string_eq, ◌==◌,
}
use langgraph_lens.Time.{Fraction}
use langgraph_lens.Runtime.{Runtime, Unicode}
use langgraph_lens.Text.{join, sorted_set, is_infix, split_on}
use langgraph_lens.Regex.Classes.{is_word}
use langgraph_lens.Value.{Value, null, text, float, list, dict, Fields, lookup, to_list}
use langgraph_lens.Event.{Severity, medium, high, Detection}
use langgraph_lens.Message.{
  str, is_truthy, entry, items_of, nonempty, has_role, first_content, lower_text,
}

-- `GoalHijackConfig` of config.py
pub record GoalHijackConfig : Type 0 where
  pub enabled : Bool
  pub rules : List String
  pub user_intent_similarity_threshold : Fraction
  pub watch_substrings : List String

-- `str(sub.get("text", "")) if isinstance(sub, dict) else str(sub)`
abbrev sub_text : Runtime → Value → String
sub_text rt (dict fs) = elim (lookup "text" fs) [ none ↦ "" | some v ↦ str rt v ]
sub_text rt v = str rt v

abbrev content_text : Runtime → Option Value → String
content_text rt (some (text s)) = s
content_text rt (some (list vs)) = join "\n" (map (sub_text rt) (to_list vs))
content_text rt _ = ""

-- `_content_of`
unfoldable pub content_of : Runtime → Value → String
content_of rt m = content_text rt (entry "content" "content" m)

abbrev pub messages_of : Fields → List Value
messages_of state = items_of (lookup "messages" state)

system_content : Runtime → List Value → String
system_content rt [] = ""
system_content rt (m ∷ ms) =
    let rest = system_content rt ms in
    if has_role "system" "system" m then content_of rt m else rest

-- `_extract_system_prompt`
unfoldable pub extract_system_prompt : Runtime → Fields → String
unfolding system_content
extract_system_prompt rt state = system_content rt (messages_of state)

abbrev or_null : Option Value → Value
or_null none = null
or_null (some v) = v

-- `call.get("args") or call.get("arguments")`
abbrev pub call_args : Fields → Value
call_args fs =
    let args = or_null (lookup "args" fs) in
    if is_truthy args then args else or_null (lookup "arguments" fs)

unfoldable pub call_texts : Runtime → List Value → List String
call_texts rt [] = []
call_texts rt (dict fs ∷ calls) = rt.repr (call_args fs) ∷ call_texts rt calls
call_texts rt (v ∷ calls) = call_texts rt calls

unfoldable pub tool_call_texts : Runtime → List Value → List String
tool_call_texts rt [] = []
tool_call_texts rt (m ∷ ms) =
    call_texts rt (items_of (entry "tool_calls" "tool_calls" m)) ++ tool_call_texts rt ms

abbrev pending_text : Runtime → Option Value → List String
pending_text rt (some (list vs)) = rt.repr (list vs) ∷ []
pending_text rt _ = []

-- `_extract_tool_calls`
unfoldable pub extract_tool_calls : Runtime → Fields → String
extract_tool_calls rt state =
    join "\n" (
      tool_call_texts rt (messages_of state) ++ pending_text rt (lookup "pending_tool_calls" state))

unfoldable pub reversed : List Value → List Value
reversed [] = []
reversed (v ∷ vs) = reversed vs ++ v ∷ []

abbrev or_blank : Option String → String
or_blank none = ""
or_blank (some s) = s

-- `_extract_pending_action`
unfoldable pub extract_pending_action : Runtime → Fields → String
extract_pending_action rt state =
    or_blank (first_content (content_of rt) "assistant" "ai" (reversed (messages_of state)))

-- `w.lower() for w in _WORD.findall(s)`: the pieces between the characters that are not in `\w`
unfoldable pub lower_words : Unicode → String → List String
lower_words u s = map (lower_text u) (nonempty (split_on (λ c. not (is_word u c)) s))

-- The set of them, in order
unfoldable pub word_set : Unicode → String → List String
word_set u s = sorted_set (lower_words u s)

-- The share of the words that two sets have in common.
unfoldable pub overlap : List String → List String → Fraction
overlap ta tb =
    let common = count (contains tb) ta in
    if eqb (length ta) 0 || eqb (length tb) 0
    then record { num = 1; den = 1 }
    else record { num = common; den = length ta + length tb - common }

-- `_token_jaccard`
unfoldable pub token_jaccard : Unicode → String → String → Fraction
token_jaccard u a b = overlap (word_set u a) (word_set u b)

-- `round(x, 3)`
unfoldable pub round_thousandths : Fraction → Fraction
round_thousandths x =
    let low = x.num * 1000 / x.den in
    let left = x.num * 1000 % x.den * 2 in
    let up = ltb x.den left || (eqb left x.den && eqb (low % 2) 1) in
    record { num = if up then low + 1 else low; den = 1000 }

-- The first watched text that is in `found` and not in `intent`.
unfoldable pub first_watched : String → String → List String → Option String
first_watched found intent [] = none
first_watched found intent (w ∷ ws) =
    let rest = first_watched found intent ws in
    if is_infix w found && not (is_infix w intent) then some w else rest

abbrev pub detect : String → Severity → List (String × Value) → List Detection
detect rule severity extra =
    record { detector = "goal_hijack"; rule = rule; severity = severity; extra = extra } ∷ []

abbrev pub prompt_hit : Option String → List Detection
prompt_hit none = []
prompt_hit (some w) = detect "system_prompt_drift" high (
    ("match", text w)
    ∷ (
      "advisory",
      text "System prompt contains a sensitive directive that wasn't in the user's request.",
    )
    ∷ [])

abbrev pub call_hit : Option String → List Detection
call_hit none = []
call_hit (some w) = detect "tool_call_drift" high (("match", text w) ∷ [])

-- The first watched text in a text of the state, under its rule. An empty text is not searched.
unfoldable pub watched : Runtime → GoalHijackConfig → String → String → String → Option String
watched rt c rule found intent =
    if contains c.rules rule && not (found == "")
    then first_watched (lower_text rt.unicode found) (lower_text rt.unicode intent)
        (map (lower_text rt.unicode) c.watch_substrings)
    else none

-- `sim < self.config.user_intent_similarity_threshold`
abbrev pub is_less : Fraction → Fraction → Bool
is_less x y = ltb (x.num * y.den) (y.num * x.den)

unfoldable pub scan_topic : Runtime → GoalHijackConfig → String → String → List Detection
scan_topic rt c pending intent =
    let similarity = token_jaccard rt.unicode intent pending in
    if contains c.rules "off_topic_subgoal"
      && (not (pending == "") && is_less similarity c.user_intent_similarity_threshold)
    then detect "off_topic_subgoal" medium (
        ("similarity", float (round_thousandths similarity))
        ∷ ("threshold", float c.user_intent_similarity_threshold)
        ∷ [])
    else []

unfoldable pub scan_intent : Runtime → GoalHijackConfig → Fields → String → List Detection
scan_intent rt c state intent =
    prompt_hit (watched rt c "system_prompt_drift" (extract_system_prompt rt state) intent)
    ++ (call_hit (watched rt c "tool_call_drift" (extract_tool_calls rt state) intent)
        ++ scan_topic rt c (extract_pending_action rt state) intent)

unfoldable pub scan : Runtime → GoalHijackConfig → Fields → Option String → List Detection
scan rt c state none = []
scan rt c state (some intent) =
    if not c.enabled || (intent == "") then [] else scan_intent rt c state intent
