-- ===== src/Normalization/Cleaning.antt =====
-- The helpers of the normalisers, worker/sentineldrive_worker/normalization/normalizers.py.
use Prim.Native.String.{[], ◌∷◌}
use mathlib.Core.List.{[], ◌∷◌}
use sentinel_drive.Prelude.{
  ℕ, ◌*◌, ◌+◌, String, ◌<>◌, Bool, true, false, ◌||◌, not, Option, none, some, List, map, ◌⊎◌, inl,
  inr, ◌==◌, nat_Eq, string_Eq, if◌then◌else◌, ℤ, pos, negsuc, any, contains, keep, sort_by,
}
use sentinel_drive.Text.{
  strip, lower, split, join, take_text, is_in, is_empty, text_le, spaces_to_underscores,
}
use sentinel_drive.Value.{
  Python, Value, none_value, bool, int, float, str, time, dict, Fields, end, put, or_else, text,
  text_or_empty, truthy, from_items, text_or_none,
}
use sentinel_drive.Value.Row.{Row}
use sentinel_drive.Sanitize.{Error}
use sentinel_drive.Normalization.Dedup.{normalize_text, stable_hash}

-- `raise NormalizationError(message)` and the chaining of what may raise.
abbrev pub normalization_error : String → Error
normalization_error m = record { message = m; class_name = "NormalizationError" }

infixl 5 ◌>>=◌
abbrev pub ◌>>=◌ : {A B : Type 0} → A ⊎ Error → (A → B ⊎ Error) → B ⊎ Error
inl a >>= f = f a
inr e >>= f = inr e

abbrev pub text_or_none_empty : String → Option String
text_or_none_empty s = if s == "" then none else some s

-- `value or ""` of an optional text, and `a or b`.
abbrev pub text_of : Option String → String
text_of none = ""
text_of (some s) = s

abbrev pub or_default : Option String → String → String
or_default none d = d
or_default (some s) d = if s == "" then d else s

abbrev pub is_present : Option String → Bool
is_present none = false
is_present (some s) = not (s == "")

-- The set of the texts, without the empty one, as a sorted list.
unfoldable pub distinct : List String → List String
distinct [] = []
distinct (x ∷ xs) = let rest = distinct xs in if contains rest x then rest else x ∷ rest

unfoldable pub sorted_set : List String → List String
unfolding distinct
sorted_set xs = sort_by text_le (distinct (keep (λ x. not (is_empty x)) xs))

abbrev pub severities : List String
severities = "unknown" ∷ "low" ∷ "medium" ∷ "high" ∷ "critical" ∷ []

unfoldable pub risk_level_from_severity : String → String
risk_level_from_severity severity =
    if severity == "critical" || severity == "high" || severity == "medium" || severity == "low"
    then severity
    else "info"

unfoldable pub category_to_intelligence_type : String → String
category_to_intelligence_type category =
    if category == "vulnerability" || category == "incident" || category == "exposure"
    then category
    else "advisory"

-- `require_datetime`
unfoldable pub require_datetime : Value → String → ℕ ⊎ Error
require_datetime (time t) name = inl t
require_datetime _ name = inr (normalization_error ("raw record missing " <> name))

module _ (P : Python) where
  -- `clean_optional`
  unfoldable pub clean_optional : Value → Option String
  clean_optional none_value = none
  clean_optional v = text_or_none_empty (join " " (split (strip (text P v))))

  abbrev pub title_or_error : Option String → String ⊎ Error
  title_or_error none = inr (normalization_error "raw record missing title/source URL")
  title_or_error (some t) = inl (take_text 500 t)

  unfoldable pub clean_title : Value → Row → String ⊎ Error
  clean_title v raw =
      title_or_error (clean_optional (or_else v (or_else (raw "source_url") (raw "external_id"))))

  unfoldable pub float_or_none : Value → Option ℤ
  float_or_none (bool true) = some (pos 100)
  float_or_none (bool false) = some (pos 0)
  float_or_none (int (pos n)) = some (pos (100 * n))
  float_or_none (int (negsuc n)) = some (negsuc (100 * n + 99))
  float_or_none (float n) = some n
  float_or_none (str s) = if s == "" then none else P.float_of_text s
  float_or_none _ = none

  unfoldable pub severity_value : Value → String
  severity_value v =
      let normalized = normalize_text P v in
      if contains severities normalized then normalized else "unknown"

  -- The texts of the values, joined, as they are searched.
  unfoldable pub joined : List Value → String
  joined values = join " " (map (text_or_empty P) values)

  unfoldable pub exploit_status_from_text : List Value → String
  exploit_status_from_text values =
      let haystack = normalize_text P (str (joined values)) in
      if any (λ term. is_in term haystack) ("known exploited" ∷ "exploited" ∷ "kev" ∷ [])
      then "exploited"
      else if any (λ term. is_in term haystack) ("proof of concept" ∷ "poc" ∷ [])
      then "proof_of_concept"
      else "unknown"

  unfoldable pub ransomware_tag : Option String → Value
  ransomware_tag value =
      if contains ("known" ∷ "yes" ∷ "true" ∷ []) (normalize_text P (text_or_none value))
      then str "ransomware_use"
      else none_value

  -- One value's tag; `None` gives none, and so does a text without words.
  unfoldable pub tag_of : Value → String
  tag_of none_value = ""
  tag_of v = take_text 80 (spaces_to_underscores (normalize_text P v))

  unfoldable pub compact_tags : List Value → List String
  compact_tags values = sorted_set (map tag_of values)

  unfoldable pub manual_dedup_key : String → Option String → String → String → String → String
  manual_dedup_key category cve_id title source_name source_url =
      if is_present cve_id
      then "manual:cve:" <> text_of cve_id
      else "manual:"
        <> (category
            <> (":"
                <> take_text 32 (
                    stable_hash P (
                      dict (
                        from_items (
                          ("category", str category)
                          ∷ ("title", str (normalize_text P (str title)))
                          ∷ ("source_name", str (normalize_text P (str source_name)))
                          ∷ ("source_url", str (lower source_url))
                          ∷ []))))))

  unfoldable pub source_external_ids : Row → Option String → Option String → Fields
  source_external_ids raw cve_id cwe_id =
      let source_name = text P (or_else (raw "source_name") (str "unknown")) in
      let named =
        if truthy (raw "external_id") then put end source_name (raw "external_id") else end in
      let numbered =
        if is_present cve_id then put named "cve_id" (text_or_none cve_id) else named in
      if is_present cwe_id then put numbered "cwe_id" (text_or_none cwe_id) else numbered
