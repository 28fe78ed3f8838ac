-- ===== src/Message.antt =====
-- What the program reads of a state and its messages: `_message_content`, `_stringify_state`,
-- `_extract_user_intent` and `_state_size` of lens.py, and what detectors/goal_hijack.py shares with
-- them. A message is a dictionary or an object with attributes.
use Prim.Native.Char.{code}
use Prim.Native.String.{compare}
use Prim.Native.Nat.{Ordering}
use langgraph_lens.Prelude.{
  ℕ, zero, suc, ◌-◌, String, ◌<>◌, Bool, true, false, not, ◌&&◌, ◌||◌, Option, none, some, List, [],
  ◌∷◌, ◌++◌, map, eqb, ltb, if◌then◌else◌, string_eq, ◌==◌,
}
use langgraph_lens.Runtime.{Runtime, Unicode}
use langgraph_lens.Text.{join, text_length}
use langgraph_lens.Json.{json_dumps}
use langgraph_lens.Regex.Classes.{is_upper}
use langgraph_lens.Value.{
  Value, null, bool, int, float, text, list, dict, object, Items, Fields, lookup, to_list,
}

-- `str(v)`
unfoldable pub str : Runtime → Value → String
str rt (text s) = s
str rt (object s fs) = s
str rt v = rt.repr v

-- `bool(v)`
unfoldable pub is_truthy : Value → Bool
is_truthy null = false
is_truthy (bool b) = b
is_truthy (int n) = not (eqb n 0)
is_truthy (float x) = not (eqb x.num 0)
is_truthy (text s) = not (s == "")
is_truthy (list Items.nil) = false
is_truthy (list (Items.cons v vs)) = true
is_truthy (dict Fields.end) = false
is_truthy (dict (Fields.field k v fs)) = true
is_truthy (object s fs) = true

-- `m.get(key) if isinstance(m, dict) else getattr(m, attr, None)`, with `none` for a missing entry
unfoldable pub entry : String → String → Value → Option Value
entry key attr (dict fs) = lookup key fs
entry key attr (object s fs) = lookup attr fs
entry key attr v = none

-- `isinstance(v, str)` and the text
abbrev pub text_of : Option Value → Option String
text_of (some (text s)) = some s
text_of _ = none

-- The elements, if the value is a list.
abbrev pub items_of : Option Value → List Value
items_of (some (list vs)) = to_list vs
items_of _ = []

-- `"text" in sub`, then `str(sub["text"])`; or the text itself
abbrev part_text : Runtime → Value → List String
part_text rt (dict fs) = elim (lookup "text" fs) [ none ↦ [] | some v ↦ str rt v ∷ [] ]
part_text rt (text s) = s ∷ []
part_text rt v = []

unfoldable pub concat_parts : Runtime → List Value → List String
concat_parts rt [] = []
concat_parts rt (v ∷ vs) = part_text rt v ++ concat_parts rt vs

abbrev content_text : Runtime → Option Value → String
content_text rt (some (text s)) = s
content_text rt (some (list vs)) = join "\n" (concat_parts rt (to_list vs))
content_text rt _ = ""

-- `_message_content`
unfoldable pub message_content : Runtime → Value → String
unfolding concat_parts
message_content rt m = content_text rt (entry "content" "content" m)

-- The texts that are not empty.
unfoldable pub nonempty : List String → List String
nonempty [] = []
nonempty (s ∷ ss) = let rest = nonempty ss in if s == "" then rest else s ∷ rest

-- The texts of some keys of a state.
unfoldable pub field_texts : List String → Fields → List String
field_texts [] state = []
field_texts (k ∷ ks) state = elim (text_of (lookup k state)) [
  | none ↦ field_texts ks state
  | some s ↦ s ∷ field_texts ks state
]

-- `_stringify_state`
unfoldable pub stringify_state : Runtime → Fields → String
stringify_state rt state = join "\n" (
    nonempty (map (message_content rt) (items_of (lookup "messages" state)))
    ++ field_texts ("input" ∷ "question" ∷ "query" ∷ "prompt" ∷ "output" ∷ "answer" ∷ []) state)

-- The role of a message is one of two names.
unfoldable pub has_role : String → String → Value → Bool
has_role a b m = elim (text_of (entry "role" "type" m)) [
  | none ↦ false
  | some r ↦ (r == a) || (r == b)
]

-- The content of the first message with a role, where it is not empty.
unfoldable pub first_content : (Value → String) → String → String → List Value → Option String
first_content content a b [] = none
first_content content a b (m ∷ ms) =
    let rest = first_content content a b ms in
    let c = content m in if has_role a b m && not (c == "") then some c else rest

abbrev pub first_text : List String → Option String
first_text [] = none
first_text (s ∷ ss) = some s

-- `_extract_user_intent`
unfoldable pub extract_user_intent : Runtime → Fields → Option String
extract_user_intent rt state =
    elim (first_content (message_content rt) "user" "human" (items_of (lookup "messages" state))) [
      | some c ↦ some c
      | none ↦
          first_text (nonempty (field_texts ("input" ∷ "question" ∷ "query" ∷ "prompt" ∷ []) state))
    ]

-- `_state_size`, and `_approx_size` of detectors/comms.py: `json.dumps` accepts every state here, so
-- that the `repr` fallback is not reached.
unfoldable pub state_size : Runtime → Fields → ℕ
state_size rt state = text_length (json_dumps rt.float_repr (dict state))

-- The `n`-th character of a text.
letter_at : ℕ → String → String
letter_at n String.[] = ""
letter_at zero (String.◌∷◌ c s) = String.◌∷◌ c String.[]
letter_at (suc n) (String.◌∷◌ c s) = letter_at n s

-- `text.lower()`: ASCII letters by the alphabet, the characters from 128 on by what Unicode says of
-- them.
unfoldable pub lower_text : Unicode → String → String
unfolding letter_at
lower_text u String.[] = ""
lower_text u (String.◌∷◌ c s) =
    (if is_upper (code c)
      then letter_at (code c - 65) "abcdefghijklmnopqrstuvwxyz"
      else if ltb (code c) 128
      then String.◌∷◌ c String.[]
      else u.lower c)
    <> lower_text u s

-- The insertion of a field before the first one with a greater key.
unfoldable pub insert_field : String → Value → Fields → Fields
insert_field k v Fields.end = Fields.field k v Fields.end
insert_field k v (Fields.field j w fs) = elim (compare k j) [
  | Ordering.lt ↦ Fields.field k v (Fields.field j w fs)
  | Ordering.eq ↦ Fields.field k v (Fields.field j w fs)
  | Ordering.gt ↦ Fields.field j w (insert_field k v fs)
]

-- A value with the keys of every dictionary in order, as `json.dumps(..., sort_keys=True)` prints
-- it.
unfoldable mutual
  unfolding insert_field

  pub sort_value : Value → Value
  sort_value (list vs) = list (sort_items vs)
  sort_value (dict fs) = dict (sort_fields fs)
  sort_value null = null
  sort_value (bool b) = bool b
  sort_value (int n) = int n
  sort_value (float x) = float x
  sort_value (text s) = text s
  sort_value (object s fs) = object s fs

  pub sort_items : Items → Items
  sort_items Items.nil = Items.nil
  sort_items (Items.cons v vs) = Items.cons (sort_value v) (sort_items vs)

  pub sort_fields : Fields → Fields
  sort_fields Fields.end = Fields.end
  sort_fields (Fields.field k v fs) = insert_field k (sort_value v) (sort_fields fs)

-- `hash_state` of events.py; the `repr` fallback is not reached.
unfoldable pub hash_state : Runtime → Fields → String
hash_state rt state =
    "sha256:" <> rt.sha256_hex (json_dumps rt.float_repr (sort_value (dict state)))
