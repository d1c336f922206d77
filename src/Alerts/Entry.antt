-- ===== src/Alerts/Entry.antt =====
-- The rows that the alert rules read, and the helpers of backend/app/services/alerts.py.
use Prim.Native.Nat.{max}
use sentinel_drive.Prelude.{
  ℕ, String, Bool, false, not, Option, none, some, List, [], ◌∷◌, ◌++◌, keep, length, contains,
  if◌then◌else◌, leb, ◌==◌, string_Eq, ℤ,
}
use sentinel_drive.Text.{lower, strip, upper, dashes_to_underscores}
use sentinel_drive.Value.{Value, dict, Fields, end, get}

pub data RiskLevel : Type 0 where
  info : RiskLevel
  low : RiskLevel
  medium : RiskLevel
  high : RiskLevel
  critical : RiskLevel

abbrev pub risk_value : RiskLevel → String
risk_value info = "info"
risk_value low = "low"
risk_value medium = "medium"
risk_value high = "high"
risk_value critical = "critical"

-- A row of threat intelligence as the rules read it; an enumerated column is its value. The
-- database holds a first sighting for each row.
pub record Entry : Type 0 where
  pub entry_id : String
  pub cve_id : Option String
  pub risk_score : Option ℤ
  pub risk_level : Option String
  pub severity : Option String
  pub vehicle_component : Option String
  pub attack_surface : Option String
  pub exploit_status : Option String
  pub affected_vendor : Option String
  pub tags : List String
  pub source_names : List String
  pub source_urls : List String
  pub link_urls : List String
  pub first_seen_at : ℕ
  pub last_seen_at : ℕ
  pub metadata : Fields

-- The order of `_max_risk`, and the larger of two levels, the first of equal ones.
abbrev pub risk_order : RiskLevel → ℕ
risk_order info = 0
risk_order low = 1
risk_order medium = 2
risk_order high = 3
risk_order critical = 4

unfoldable pub max_risk : RiskLevel → RiskLevel → RiskLevel
max_risk a b = if leb (risk_order b) (risk_order a) then a else b

-- `RiskLevel(value)`, and `INFO` for what is no level.
unfoldable pub risk_level_of : Option String → RiskLevel
risk_level_of none = info
risk_level_of (some s) =
    if s == "low"
    then low
    else if s == "medium"
    then medium
    else if s == "high"
    then high
    else if s == "critical"
    then critical
    else info

-- `_normalize` on a text column
unfoldable pub normalize_column : Option String → String
normalize_column none = ""
normalize_column (some s) = dashes_to_underscores (lower (strip s))

abbrev pub or_else_text : String → String → String
or_else_text s t = if s == "" then t else s

unfoldable pub component_key : Entry → String
component_key e =
    or_else_text (normalize_column e.vehicle_component) (normalize_column e.attack_surface)

abbrev pub scoring_or_empty : Value → Fields
scoring_or_empty (dict fs) = fs
scoring_or_empty _ = end

abbrev pub scoring_of : Value → Value → Fields
scoring_of (dict fs) v = fs
scoring_of _ v = scoring_or_empty v

unfoldable pub scoring_metadata : Entry → Fields
scoring_metadata e = scoring_of (get e.metadata "scoring") (get e.metadata "score_metadata")

abbrev pub is_level : String → Option String → Bool
is_level s none = false
is_level s (some t) = t == s

-- A set of texts as the list of its members.
unfoldable pub to_set : List String → List String
to_set [] = []
to_set (s ∷ ss) = let rest = to_set ss in if contains rest s then rest else s ∷ rest

-- `{value for value in values if value}`
abbrev pub texts : List String → List String
texts values = to_set (keep (λ s. not (s == "")) values)

unfoldable pub source_count : Entry → ℕ
source_count e =
    max (length (to_set (texts e.source_urls ++ texts e.link_urls))) (length (texts e.source_names))

abbrev pub upper_or_empty : Option String → String
upper_or_empty none = ""
upper_or_empty (some s) = upper s

unfoldable pub same_cve : String → List Entry → List Entry
same_cve cve entries = keep (λ e. upper_or_empty e.cve_id == cve) entries

unfoldable pub all_names : List Entry → List String
all_names [] = []
all_names (e ∷ es) = texts e.source_names ++ all_names es

unfoldable pub all_urls : List Entry → List String
all_urls [] = []
all_urls (e ∷ es) = texts e.source_urls ++ texts e.link_urls ++ all_urls es

-- `_cve_source_count`
unfoldable pub cve_source_count : Entry → List Entry → ℕ
cve_source_count e entries =
    if upper_or_empty e.cve_id == ""
    then 0
    else let same = same_cve (upper_or_empty e.cve_id) entries in
      max (max (source_count e) (length (to_set (all_names same))))
        (length (to_set (all_urls same)))
