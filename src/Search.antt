-- ===== src/Search.antt =====
-- What the listing routes of the backend share: backend/app/api/routes/alerts.py and
-- backend/app/api/routes/intelligence.py each define the same helpers.
pub mod Like
pub mod Order
pub mod Pages
pub mod Alerts
use Prim.Native.Char.{Char, char, code}
use Prim.Native.String.{[], ◌∷◌}
use mathlib.Core.List.{[], ◌∷◌}
use sentinel_drive.Prelude.{
  ℕ, zero, suc, ◌+◌, ◌-◌, ◌*◌, String, ◌<>◌, Bool, true, false, ◌&&◌, ◌||◌, not, Option, none, some,
  List, ◌==◌, nat_Eq, string_Eq, if◌then◌else◌, length, take, drop, ltb, keep, sort_by,
}
use sentinel_drive.Text.{strip, lower_char, is_empty}

-- `_clean`: `value.strip() or None`
unfoldable pub clean : Option String → Option String
clean none = none
clean (some value) = let cleaned = strip value in if cleaned == "" then none else some cleaned

-- `s.replace(c, new)` for a character.
unfoldable pub replace_char : ℕ → String → String → String
replace_char n new [] = ""
replace_char n new (c ∷ s) = (if code c == n then new else c ∷ "") <> replace_char n new s

-- `_like_pattern`
unfoldable pub like_pattern : String → String
unfolding replace_char
like_pattern value =
    let slashes = replace_char b'\\' "\\\\" value in
    let percents = replace_char b'%' "\\%" slashes in
    "%" <> (replace_char b'_' "\\_" percents <> "%")

-- LIKE patterns of PostgreSQL: a run of any characters, any one, or the character itself, which it
-- also is behind the escape.
pub data Token : Type 0 where
  run one : Token
  exact : Char → Token

unfoldable pub tokens : Bool → String → List Token
tokens escaped [] = []
tokens true (c ∷ p) = exact c ∷ tokens false p
tokens false (c ∷ p) =
    if code c == b'%'
    then run ∷ tokens false p
    else if code c == b'_'
    then one ∷ tokens false p
    else if code c == b'\\'
    then tokens true p
    else exact c ∷ tokens false p

-- Whether a text matches, in any letter case.
unfoldable pub token_match : List Token → String → Bool
token_match [] s = is_empty s
token_match (exact d ∷ ts) [] = false
token_match (exact d ∷ ts) (c ∷ s) = code (lower_char d) == code (lower_char c) && token_match ts s
token_match (one ∷ ts) [] = false
token_match (one ∷ ts) (c ∷ s) = token_match ts s
token_match (run ∷ ts) [] = token_match ts []
token_match (run ∷ ts) (c ∷ s) = token_match ts (c ∷ s) || token_match (run ∷ ts) s

-- `column.ilike(pattern)`
unfoldable pub ilike : String → String → Bool
unfolding tokens token_match
ilike value pattern = token_match (tokens false pattern) value

-- A page of a result: `OFFSET (page - 1) * limit LIMIT limit`, the number of all results, and whether
-- there are more behind it.
pub record Page {ℓ} (A : Type ℓ) : Type ℓ where
  pub items : List A
  pub page : ℕ
  pub limit : ℕ
  pub total : ℕ
  pub has_next : Bool

unfoldable pub page_of {ℓ} : {A : Type ℓ} → List A → ℕ → ℕ → Page A
page_of results page limit =
    let offset = (page - 1) * limit in
    record {
      items = take limit (drop offset results);
      page = page;
      limit = limit;
      total = length results;
      has_next = ltb (offset + limit) (length results);
    }
