-- ===== src/Text.antt =====
-- The methods of Python's `str` that the program calls. Letter case is that of ASCII: the program's
-- keys, enum values and search terms are ASCII, and a letter outside it is left as it is.
pub mod Words
pub mod Search
pub mod Order
use Prim.Native.Char.{Char, char, code, IsScalar}
use Prim.Native.String.{[], ◌∷◌, compare as compare_text}
use Prim.Native.Nat.{Ordering}
use mathlib.Core.List.{[], ◌∷◌}
use native.Mathlib.Decide.{dec_lt}
use sentinel_drive.Prelude.{
  ℕ, zero, suc, ◌+◌, ◌<◌, ◌-◌, String, ◌<>◌, Bool, true, false, ◌&&◌, ◌||◌, List, arith, leb, ◌==◌,
  nat_Eq, string_Eq, if◌then◌else◌,
}

-- `str.isspace`, which `strip` and `split` use.
unfoldable pub is_space : ℕ → Bool
is_space n =
    (leb 9 n && leb n 13)
    || (leb 28 n && leb n 32)
    || n == 133
    || n == 160
    || n == 5760
    || (leb 8192 n && leb n 8202)
    || n == 8232
    || n == 8233
    || n == 8239
    || n == 8287
    || n == 12288

pub small-IsScalar : (n : ℕ) → n < 55296 → IsScalar n
small-IsScalar n h = ground arith

unfoldable pub lower_char : Char → Char
unfolding dec_lt
lower_char c = elim (dec_lt (code c) 91) [
  | yes h ↦
      if leb 65 (code c) then char (code c + 32) (small-IsScalar (code c + 32) (omega arith)) else c
  | no _ ↦ c
]

unfoldable pub upper_char : Char → Char
unfolding dec_lt
upper_char c = elim (dec_lt (code c) 123) [
  | yes h ↦
      if leb 97 (code c) then char (code c - 32) (small-IsScalar (code c - 32) (omega arith)) else c
  | no _ ↦ c
]

unfoldable pub map_text : (Char → Char) → String → String
map_text f [] = []
map_text f (c ∷ s) = f c ∷ map_text f s

-- `s.lower()`
unfoldable pub lower : String → String
unfolding map_text
lower = map_text lower_char

-- `s.upper()`
unfoldable pub upper : String → String
unfolding map_text
upper = map_text upper_char

-- `s.replace("-", "_")`
unfoldable pub dash_char : Char → Char
dash_char c = if code c == b'-' then char b'_' tt else c

unfoldable pub dashes_to_underscores : String → String
unfolding map_text
dashes_to_underscores = map_text dash_char

-- `s.replace(" ", "_")`
unfoldable pub space_char : Char → Char
space_char c = if code c == b' ' then char b'_' tt else c

unfoldable pub spaces_to_underscores : String → String
unfolding map_text
spaces_to_underscores = map_text space_char

unfoldable pub lstrip : String → String
lstrip [] = []
lstrip (c ∷ s) = if is_space (code c) then lstrip s else c ∷ s

abbrev pub is_empty : String → Bool
is_empty [] = true
is_empty (_ ∷ _) = false

unfoldable pub rstrip : String → String
rstrip [] = []
rstrip (c ∷ s) = let r = rstrip s in if is_space (code c) && is_empty r then [] else c ∷ r

-- `s.strip()`
unfoldable pub strip : String → String
unfolding lstrip rstrip
strip s = rstrip (lstrip s)

abbrev pub cons_word : String → List String → List String
cons_word [] ws = ws
cons_word (c ∷ w) ws = (c ∷ w) ∷ ws

-- The word in front of the first white space, and the words behind it.
unfoldable pub word_split : String → String × List String
word_split [] = ([], [])
word_split (c ∷ s) =
    let (w, ws) = word_split s in if is_space (code c) then ([], cons_word w ws) else (c ∷ w, ws)

-- `s.split()`
unfoldable pub split : String → List String
unfolding word_split
split s = cons_word (word_split s).0 (word_split s).1

-- `sep.join(parts)`
unfoldable pub join : String → List String → String
join sep [] = ""
join sep (x ∷ []) = x
join sep (x ∷ y ∷ rest) = x <> (sep <> join sep (y ∷ rest))

-- `s[:n]`
unfoldable pub take_text : ℕ → String → String
take_text zero s = []
take_text (suc n) [] = []
take_text (suc n) (c ∷ s) = c ∷ take_text n s

-- `a or b`
abbrev pub or_text : String → String → String
or_text [] b = b
or_text (c ∷ a) b = c ∷ a

-- The order of texts, by code point.
abbrev pub text_le : String → String → Bool
text_le s t = elim (compare_text s t) [ Ordering.gt ↦ false | _ ↦ true ]

unfoldable pub has_prefix : String → String → Bool
has_prefix [] s = true
has_prefix (c ∷ t) [] = false
has_prefix (c ∷ t) (d ∷ s) = code c == code d && has_prefix t s

-- `term in text`
unfoldable pub is_in : String → String → Bool
unfolding has_prefix
is_in t [] = has_prefix t []
is_in t (d ∷ s) = has_prefix t (d ∷ s) || is_in t s

-- Named on the `unfolding` line of a test that runs code on texts.
unfoldable pub text_runs : Unit {0}
unfolding is_space lower_char upper_char dash_char space_char lower upper strip split join take_text
    dashes_to_underscores spaces_to_underscores is_in
text_runs = tt
