-- ===== src/Regex/Classes.antt =====
-- The character classes and the notation of Python's `re`, as far as the patterns use them.
use Prim.Native.Char.{code}
use langgraph_lens.Prelude.{
  ℕ, zero, suc, ◌+◌, ◌-◌, String, Bool, true, false, not, ◌&&◌, ◌||◌, List, [], ◌∷◌, eqb, leb, ltb,
  map, if◌then◌else◌,
}
use langgraph_lens.Runtime.{Unicode}
use langgraph_lens.Regex.{Regex, class, empty, seq, alt, star}

-- `\d`, `\w`, `\s` on texts: by the ASCII table below 128, by the Unicode tables from there on.
unfoldable pub is_digit : Unicode → ℕ → Bool
is_digit u c = if ltb c 128 then leb 48 c && leb c 57 else u.digit c

abbrev pub is_upper : ℕ → Bool
is_upper c = leb 65 c && leb c 90

abbrev pub is_lower : ℕ → Bool
is_lower c = leb 97 c && leb c 122

unfoldable pub is_word : Unicode → ℕ → Bool
is_word u c =
    if ltb c 128 then is_upper c || is_lower c || (leb 48 c && leb c 57) || eqb c 95 else u.word c

unfoldable pub is_space : Unicode → ℕ → Bool
is_space u c = if ltb c 128 then (leb 9 c && leb c 13) || (leb 28 c && leb c 32) else u.space c

-- `lower` of an ASCII code
abbrev pub to_lower : ℕ → ℕ
to_lower c = if is_upper c then c + 32 else c

-- `c` under `re.I`: the ASCII letter in either case, and the four letters beyond ASCII that fold to
-- an ASCII one.
unfoldable pub same_letter : ℕ → ℕ → Bool
same_letter c d =
    eqb (to_lower c) (to_lower d)
    || (eqb (to_lower c) 115 && eqb d 0x17f)
    || (eqb (to_lower c) 107 && eqb d 0x212a)
    || (eqb (to_lower c) 105 && (eqb d 0x130 || eqb d 0x131))

-- `[abc]`
unfoldable pub one_of : String → ℕ → Bool
one_of String.[] d = false
one_of (String.◌∷◌ c s) d = eqb (code c) d || one_of s d

abbrev pub none_of : String → ℕ → Bool
none_of s d = not (one_of s d)

-- A text, character by character; with `re.I`.
unfoldable pub lit : String → Regex
lit String.[] = empty
lit (String.◌∷◌ c String.[]) = class (eqb (code c))
lit (String.◌∷◌ c (String.◌∷◌ d s)) = seq (class (eqb (code c))) (lit (String.◌∷◌ d s))

unfoldable pub lit_i : String → Regex
unfolding same_letter
lit_i String.[] = empty
lit_i (String.◌∷◌ c String.[]) = class (same_letter (code c))
lit_i (String.◌∷◌ c (String.◌∷◌ d s)) = seq (class (same_letter (code c))) (lit_i (String.◌∷◌ d s))

-- `(?:a|b|c)`
unfoldable pub any_of : List Regex → Regex
any_of [] = class (λ c. false)
any_of (r ∷ []) = r
any_of (r ∷ s ∷ rs) = alt r (any_of (s ∷ rs))

-- `rs` one after the other
unfoldable pub all_of : List Regex → Regex
all_of [] = empty
all_of (r ∷ []) = r
all_of (r ∷ s ∷ rs) = seq r (all_of (s ∷ rs))

unfoldable pub words : List String → Regex
unfolding lit any_of
words ws = any_of (map lit ws)

unfoldable pub words_i : List String → Regex
unfolding lit_i any_of
words_i ws = any_of (map lit_i ws)

-- `r+`, `r?`
abbrev pub plus : Regex → Regex
plus r = seq r (star r)

abbrev pub opt : Regex → Regex
opt r = alt r empty

-- `r{n}` and `r{n,n+m}`
unfoldable pub up_to : ℕ → Regex → Regex
up_to zero r = empty
up_to (suc m) r = alt (seq r (up_to m r)) empty

unfoldable pub times : ℕ → Regex → Regex
times zero r = empty
times (suc n) r = seq r (times n r)

abbrev pub between : ℕ → ℕ → Regex → Regex
between n m r = seq (times n r) (up_to (m - n) r)

-- `.` without and with the flag `re.S`
abbrev pub dot : Regex
dot = class (λ c. not (eqb c 10))

abbrev pub any_char : Regex
any_char = class (λ c. true)
