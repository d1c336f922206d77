-- ===== src/Sanitize.antt =====
-- `sanitize_error`, which the collection runtime, the normalisation and the scoring service each
-- define: error messages are redacted before they are stored.
pub mod Clean
use Prim.Native.Char.{Char, code}
use Prim.Native.String.{[], ◌∷◌}
use mathlib.Core.List.{[], ◌∷◌}
use sentinel_drive.Prelude.{
  ℕ, zero, suc, ◌+◌, ◌-◌, String, ◌<>◌, Bool, true, false, ◌&&◌, ◌||◌, Option, none, some, List,
  ◌==◌, nat_Eq, leb, if◌then◌else◌,
}
use sentinel_drive.Text.{is_space, lstrip, take_text, or_text}

-- The letter under `(?i)`: also the long s, the Kelvin sign and the dotless and dotted i.
unfoldable pub fold_code : ℕ → ℕ
fold_code n =
    if leb 65 n && leb n 90
    then n + 32
    else if n == 0x17f
    then b's'
    else if n == 0x212a
    then b'k'
    else if n == 0x130 || n == 0x131
    then b'i'
    else n

unfoldable pub size : String → ℕ
size [] = 0
size (c ∷ s) = suc (size s)

-- What stands behind a word, in any letter case.
unfoldable pub after_word : String → String → Option String
after_word [] s = some s
after_word (c ∷ w) [] = none
after_word (c ∷ w) (d ∷ s) = if fold_code (code d) == code c then after_word w s else none

abbrev pub or_match : Option String → Option String → Option String
or_match none p = p
or_match (some r) p = some r

abbrev pub bind : Option String → (String → Option String) → Option String
bind none f = none
bind (some r) f = f r

-- `[_-]?key`
unfoldable pub after_key : String → Option String
unfolding after_word
after_key [] = none
after_key (c ∷ s) =
    if code c == b'_' || code c == b'-' then after_word "key" s else after_word "key" (c ∷ s)

-- `api[_-]?key|authorization|password|secret|token`
unfoldable pub after_name : String → Option String
unfolding after_word after_key
after_name s = or_match (bind (after_word "api" s) after_key) (
    or_match (after_word "authorization" s) (
      or_match (after_word "password" s) (or_match (after_word "secret" s) (after_word "token" s))))

-- `[:=]`
unfoldable pub after_sign : String → Option String
after_sign [] = none
after_sign (c ∷ s) = if code c == b':' || code c == b'=' then some s else none

-- The longest run of characters that are no white space and do not stop a value.
module _ (stops : ℕ → Bool) where
  unfoldable pub drop_value : String → String
  drop_value [] = []
  drop_value (c ∷ s) = if is_space (code c) || stops (code c) then c ∷ s else drop_value s

  unfoldable pub after_value : String → Option String
  after_value [] = none
  after_value (c ∷ s) = if is_space (code c) || stops (code c) then none else some (drop_value s)

  -- The name, a sign and a value, with white space between.
  unfoldable pub after_assignment : String → Option String
  unfolding after_name after_sign after_value drop_value lstrip
  after_assignment s =
      bind (after_name s) (λ r. bind (after_sign (lstrip r)) (λ v. after_value (lstrip v)))

-- `re.sub`: a match that ends before `rest` is replaced, and the scan goes on there. The number
-- counts the characters of the match that are still to be passed over.
unfoldable pub replace_all : (String → Option String) → String → ℕ → String → String
unfolding size
replace_all m new skip [] = []
replace_all m new zero (c ∷ s) = elim (m (c ∷ s)) [
  | none ↦ c ∷ replace_all m new zero s
  | some rest ↦ new <> replace_all m new (size s - size rest) s
]
replace_all m new (suc skip) (c ∷ s) = replace_all m new skip s

-- The two substitutions and the cut, on `str(error) or error.__class__.__name__`.
unfoldable pub sanitized : (ℕ → Bool) → String → String
unfolding replace_all after_assignment after_name take_text
sanitized stops message =
    let assignments = replace_all (after_assignment stops) "[redacted]=[redacted]" zero message in
    take_text 500 (replace_all after_name "[redacted]" zero assignments)

-- `[^&\s]+` in the services, `\S+` in the collection runtime.
abbrev pub stops_at_ampersand : ℕ → Bool
stops_at_ampersand n = n == b'&'

abbrev pub stops_nowhere : ℕ → Bool
stops_nowhere n = false

-- An exception as its text and the name of its class.
pub record Error : Type 0 where
  pub message : String
  pub class_name : String

unfoldable pub sanitize_error : Error → String
unfolding sanitized
sanitize_error e = sanitized stops_at_ampersand (or_text e.message e.class_name)

-- The runtime's version, which takes no error for `None`.
unfoldable pub sanitize_runtime_error : Option Error → String
unfolding sanitized
sanitize_runtime_error none = "unknown error"
sanitize_runtime_error (some e) = sanitized stops_nowhere (or_text e.message e.class_name)
