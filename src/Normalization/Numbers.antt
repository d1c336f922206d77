-- ===== src/Normalization/Numbers.antt =====
-- CVE and CWE numbers in texts: `normalize_cve`, `find_cve` and `normalize_cwe` of
-- worker/sentineldrive_worker/normalization/dedup.py. The characters of `\w` and `\d` beyond ASCII are
-- Python's: the two classes are a parameter.
use Prim.Native.Char.{code}
use Prim.Native.String.{[], ◌∷◌}
use mathlib.Core.List.{[], ◌∷◌}
use sentinel_drive.Prelude.{
  ℕ, zero, suc, ◌-◌, String, Bool, false, Option, none, some, List, ◌==◌, nat_Eq, string_Eq,
  if◌then◌else◌,
}
use sentinel_drive.Text.{upper, take_text}
use sentinel_drive.Sanitize.{after_word, size, bind}
use sentinel_drive.Value.{
  Python, Value, none_value, bool, int, float, str, time, other, list, dict, Values, nil, cons,
  text,
}

pub record CharClasses : Type 0 where
  pub is_word : ℕ → Bool
  pub is_digit : ℕ → Bool

unfoldable pub after_dash : String → Option String
after_dash [] = none
after_dash (c ∷ s) = if code c == b'-' then some s else none

abbrev pub upper_match : Option String → Option String
upper_match none = none
upper_match (some s) = some (upper s)

-- `a or b`
abbrev pub or_number : Option String → Option String → Option String
or_number none o = o
or_number (some s) o = if s == "" then o else some s

abbrev pub or_later : Option String → Option String → Option String
or_later none o = o
or_later (some m) o = some m

module _ (K : CharClasses) where
  -- `\d{n}`, and the longest `\d*`.
  unfoldable pub after_digits : ℕ → String → Option String
  after_digits zero s = some s
  after_digits (suc n) [] = none
  after_digits (suc n) (c ∷ s) = if K.is_digit (code c) then after_digits n s else none

  unfoldable pub skip_digits : String → String
  skip_digits [] = []
  skip_digits (c ∷ s) = if K.is_digit (code c) then skip_digits s else c ∷ s

  -- `\b` behind a digit.
  unfoldable pub at_boundary : String → Option String
  at_boundary [] = some []
  at_boundary (c ∷ s) = if K.is_word (code c) then none else some (c ∷ s)

  -- What stands behind `CVE-\d{4}-\d{4,}\b`, and behind `CWE-\d+\b`.
  unfoldable pub after_cve : String → Option String
  after_cve s = bind (after_word "cve-" s) (λ a.
      bind (after_digits 4 a) (λ b.
        bind (after_dash b) (λ c. bind (after_digits 4 c) (λ d. at_boundary (skip_digits d)))))

  unfoldable pub after_cwe : String → Option String
  after_cwe s =
      bind (after_word "cwe-" s) (λ a. bind (after_digits 1 a) (λ b. at_boundary (skip_digits b)))

  -- The part of a text in front of its rest.
  abbrev pub matched : String → Option String → Option String
  matched s none = none
  matched s (some rest) = some (take_text (size s - size rest) s)

  -- `pattern.search(text)`, behind a character that is or is not one of a word.
  unfoldable pub search : (String → Option String) → Bool → String → Option String
  search after behind_word [] = none
  search after behind_word (c ∷ s) =
      let later = search after (K.is_word (code c)) s in
      if behind_word then later else or_later (matched (c ∷ s) (after (c ∷ s))) later

  module _ (P : Python) where
    unfoldable pub cve_in : String → Option String
    cve_in s = upper_match (search after_cve false s)

    unfoldable pub normalize_cve : Value → Option String
    normalize_cve none_value = none
    normalize_cve v = cve_in (text P v)

    unfoldable pub find_cve : List Value → Option String
    find_cve [] = none
    find_cve (v ∷ vs) = or_number (normalize_cve v) (find_cve vs)

    unfoldable pub cwe_in : String → Option String
    cwe_in s = upper_match (search after_cwe false s)

    unfoldable mutual
      pub normalize_cwe : Value → Option String
      normalize_cwe none_value = none
      normalize_cwe (list vs) = first_cwe vs
      normalize_cwe (bool b) = cwe_in (text P (bool b))
      normalize_cwe (int n) = cwe_in (text P (int n))
      normalize_cwe (float n) = cwe_in (text P (float n))
      normalize_cwe (str s) = cwe_in s
      normalize_cwe (time t) = cwe_in (text P (time t))
      normalize_cwe (other s) = cwe_in s
      normalize_cwe (dict fs) = cwe_in (text P (dict fs))

      pub first_cwe : Values → Option String
      first_cwe nil = none
      first_cwe (cons v vs) = or_number (normalize_cwe v) (first_cwe vs)
