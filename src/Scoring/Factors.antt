-- ===== src/Scoring/Factors.antt =====
-- Factors, numbers and levels of worker/sentineldrive_worker/scoring/rules.py.
use sentinel_drive.Prelude.{
  ℕ, ◌+◌, ◌*◌, ◌/◌, ◌%◌, String, true, false, Option, none, some, List, [], ◌∷◌, map, ◌==◌,
  string_Eq, nat_Eq, option_Eq, ltb, if◌then◌else◌, ℤ, pos, negsuc, ◌+ℤ◌, leb_ℤ, max_ℤ, min_ℤ,
}
use sentinel_drive.Text.{text_le}
use sentinel_drive.Value.{
  Python, Value, none_value, bool, int, float, str, time, other, list, dict, Fields, end, field,
  from_list,
}
use sentinel_drive.Scoring.Signals.{risk_levels}

pub record ScoreFactor : Type 0 where
  pub key : String
  pub label : String
  pub contribution : ℤ
  pub evidence : Value

abbrev pub factor : String → String → ℤ → Value → ScoreFactor
factor key label contribution evidence = record {
  key = key;
  label = label;
  contribution = contribution;
  evidence = evidence;
}

-- `if self.evidence is not None`
abbrev pub evidence_field : Value → Fields
evidence_field none_value = end
evidence_field v = field "evidence" v end

-- `ScoreFactor.to_payload`
unfoldable pub to_payload : ScoreFactor → Value
to_payload f = dict (
    field "key" (str f.key) (
      field "label" (str f.label)
        (field "contribution" (float f.contribution) (evidence_field f.evidence))))

pub record ScoringResult : Type 0 where
  pub risk_score : ℤ
  pub risk_level : String
  pub explanation : Fields

-- `round(n, 1)` of a number of hundredths that is not negative: the nearest tenth, a tie to even.
unfoldable pub round_tenth : ℕ → ℕ
round_tenth n =
    let tenths = n / 10 in
    let rest = n % 10 in
    10
    * (if ltb rest 5
        then tenths
        else if ltb 5 rest
        then tenths + 1
        else if tenths % 2 == 0
        then tenths
        else tenths + 1)

-- `bool` is a number, and a text is read by `float`.
unfoldable pub numeric_or_none : Python → Value → Option ℤ
numeric_or_none P none_value = none
numeric_or_none P (bool true) = some (pos 100)
numeric_or_none P (bool false) = some (pos 0)
numeric_or_none P (int (pos n)) = some (pos (100 * n))
numeric_or_none P (int (negsuc n)) = some (negsuc (100 * n + 99))
numeric_or_none P (float n) = some n
numeric_or_none P (str s) = if s == "" then none else P.float_of_text s
numeric_or_none P (time t) = none
numeric_or_none P (other s) = none
numeric_or_none P (list vs) = none
numeric_or_none P (dict fs) = none

-- `round(min(max(score, 0.0), 100.0), 2)`
unfoldable pub bounded_score : ℤ → ℤ
bounded_score score = min_ℤ (max_ℤ score (pos 0)) (pos 10000)

unfoldable pub level_from : List (ℤ × String) → ℤ → String
level_from [] score = "low"
level_from ((threshold, level) ∷ rest) score =
    if leb_ℤ threshold score then level else level_from rest score

unfoldable pub risk_level_for_score : ℤ → String
risk_level_for_score score = level_from risk_levels score

-- `sorted` on texts.
unfoldable pub insert_sorted : String → List String → List String
insert_sorted x [] = x ∷ []
insert_sorted x (y ∷ ys) =
    let rest = insert_sorted x ys in if text_le x y then x ∷ y ∷ ys else y ∷ rest

unfoldable pub sorted : List String → List String
sorted [] = []
sorted (x ∷ xs) = insert_sorted x (sorted xs)

unfoldable pub total : List ScoreFactor → ℤ
total [] = pos 0
total (f ∷ fs) = f.contribution +ℤ total fs

abbrev pub texts_value : List String → Value
texts_value xs = list (from_list (map str xs))

abbrev pub number_or_none : Option ℤ → Value
number_or_none none = none_value
number_or_none (some n) = float n
