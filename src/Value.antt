-- ===== src/Value.antt =====
-- The dynamic values of the program: database columns of type JSON, table rows as mappings, and
-- the metadata dicts. A float is its number of hundredths (scores have at most two decimals); any
-- object that is none of the others (a UUID) is the text that `str` gives for it. A datetime is its number
-- of microseconds since the epoch: the database returns aware datetimes, which compare as such.
pub mod Equality
pub mod Dict
pub mod Row
use sentinel_drive.Prelude.{
  ℕ, ◌*◌, String, ◌≡◌, Bool, true, false, not, ◌||◌, Option, none, some, List, [], ◌∷◌, ◌==◌,
  string_Eq, nat_Eq, if◌then◌else◌, ℤ, pos, negsuc,
}

mutual
  pub data Value : Type 0 where
    none_value : Value
    bool : Bool → Value
    int : ℤ → Value
    float : ℤ → Value
    str : String → Value
    time : ℕ → Value
    other : String → Value
    list : Values → Value
    dict : Fields → Value

  pub data Values : Type 0 where
    nil : Values
    cons : Value → Values → Values

  pub data Fields : Type 0 where
    end : Fields
    field : String → Value → Fields → Fields

-- What the program uses of Python that has no model here: the texts of numbers and containers,
-- the number that `float` reads from a text, JSON text, and the hexadecimal SHA-256 of a text.
pub record Python : Type 0 where
  pub str_int : ℤ → String
  pub str_float : ℤ → String
  pub str_time : ℕ → String
  pub repr : Value → String
  pub float_of_text : String → Option ℤ
  pub dumps : Value → String
  pub sha256 : String → String

abbrev is_zero : ℤ → Bool
is_zero (pos n) = n == 0
is_zero (negsuc n) = false

-- `bool(value)`
unfoldable pub truthy : Value → Bool
truthy none_value = false
truthy (bool b) = b
truthy (int n) = not (is_zero n)
truthy (float n) = not (is_zero n)
truthy (str s) = not (s == "")
truthy (time t) = true
truthy (other s) = true
truthy (list nil) = false
truthy (list (cons v vs)) = true
truthy (dict end) = false
truthy (dict (field k v fs)) = true

-- `value or other`
abbrev pub or_else : Value → Value → Value
or_else v w = if truthy v then v else w

-- `d.get(key)`, with `None` for a missing key told apart.
unfoldable pub lookup : String → Fields → Option Value
lookup k end = none
lookup k (field j v fs) = if j == k then some v else lookup k fs

abbrev pub value_or_none : Option Value → Value
value_or_none none = none_value
value_or_none (some v) = v

-- `d.get(key)`
unfoldable pub get : Fields → String → Value
unfolding lookup
get fs k = value_or_none (lookup k fs)

-- `key in d`
unfoldable pub has_key : Fields → String → Bool
unfolding lookup
has_key fs k = elim (lookup k fs) [ none ↦ false | some _ ↦ true ]

-- `d[key] = value`
unfoldable pub put : Fields → String → Value → Fields
put end k v = field k v end
put (field j w fs) k v = if j == k then field j v fs else field j w (put fs k v)

-- `{key: item for key, item in d.items() if key != k}`
unfoldable pub without : String → Fields → Fields
without k end = end
without k (field j v fs) = let rest = without k fs in if j == k then rest else field j v rest

-- `d.update(e)`
unfoldable pub update : Fields → Fields → Fields
unfolding put
update d end = d
update d (field k v fs) = update (put d k v) fs

-- A dict literal of texts and values, and a list literal.
abbrev pub from_items : List (String × Value) → Fields
from_items [] = end
from_items ((k, v) ∷ kvs) = field k v (from_items kvs)

abbrev pub from_list : List Value → Values
from_list [] = nil
from_list (v ∷ vs) = cons v (from_list vs)

unfoldable pub to_list : Values → List Value
to_list nil = []
to_list (cons v vs) = v ∷ to_list vs

-- The values of a dict, in insertion order.
unfoldable pub field_values : Fields → List Value
field_values end = []
field_values (field k v fs) = v ∷ field_values fs

-- `value` if it is a dict, and else the empty dict.
abbrev pub dict_or_empty : Value → Fields
dict_or_empty (dict fs) = fs
dict_or_empty _ = end

-- An optional text as a value, and a list of texts.
abbrev pub text_or_none : Option String → Value
text_or_none none = none_value
text_or_none (some s) = str s

module _ (P : Python) where
  -- `str(value)`
  unfoldable pub text : Value → String
  text none_value = "None"
  text (bool true) = "True"
  text (bool false) = "False"
  text (int n) = P.str_int n
  text (float n) = P.str_float n
  text (str s) = s
  text (time t) = P.str_time t
  text (other s) = s
  text (list vs) = P.repr (list vs)
  text (dict fs) = P.repr (dict fs)

  -- `str(value or "")`
  unfoldable pub text_or_empty : Value → String
  unfolding text truthy
  text_or_empty v = if truthy v then text v else ""

-- Named on the `unfolding` line of a test that runs code on values.
unfoldable pub value_runs : Unit {0}
unfolding truthy lookup get has_key put without update to_list field_values text text_or_empty
value_runs = tt
