-- ===== src/Normalization/Merge.antt =====
-- How a record is merged into a stored one, worker/sentineldrive_worker/normalization/service.py.
use sentinel_drive.Prelude.{
  ℕ, ◌-◌, String, Bool, true, false, ◌&&◌, ◌||◌, not, none, some, List, [], ◌∷◌, ◌++◌, length, drop,
  contains, ◌==◌, string_Eq, ltb, leb, if◌then◌else◌,
}
use sentinel_drive.Value.{
  Value, none_value, str, time, list, dict, nil, Fields, end, field, lookup, get, put, has_key,
  to_list, dict_or_empty,
}
use sentinel_drive.Value.Equality.{value_eq}
use sentinel_drive.Value.Row.{Row, with_columns}
use sentinel_drive.Normalization.Unique.{unique_values}
use sentinel_drive.Normalization.Record.{
  NormalizedRecord, normalized_common_values, text_values, list_value,
}

-- `value is None or value == "" or value == [] or value == {}`
abbrev pub is_empty : Value → Bool
is_empty none_value = true
is_empty (str s) = s == ""
is_empty (list nil) = true
is_empty (dict end) = true
is_empty _ = false

-- The items of a list column, where `[]` stands for a missing one.
abbrev pub items_or_empty : Value → List Value
items_or_empty (list vs) = to_list vs
items_or_empty _ = []

-- The stored value as a list: itself if it is one.
abbrev pub current : Value → List Value
current (list vs) = to_list vs
current v = v ∷ []

-- One key of `merge_external_ids`.
unfoldable pub merge_id : Fields → String → Value → Fields
merge_id merged key value = elim (lookup key merged) [
  | none ↦ put merged key value
  | some old ↦
      if is_empty old
      then put merged key value
      else if value_eq old value
      then merged
      else put merged key (list_value (unique_values (current old ++ (value ∷ []))))
]

unfoldable pub merge_external_ids : Fields → Fields → Fields
unfolding merge_id
merge_external_ids merged end = merged
merge_external_ids merged (field key value incoming) =
    merge_external_ids (merge_id merged key value) incoming

abbrev pub sighting_keys : List String
sighting_keys = "normalizer" ∷ "raw_source_type" ∷ "vendor" ∷ "feed_name" ∷ "date_added" ∷ []

unfoldable pub only_keys : List String → Fields → Fields
only_keys keys end = end
only_keys keys (field k v fs) =
    let rest = only_keys keys fs in if contains keys k then field k v rest else rest

-- `values[-20:]`
abbrev pub last_twenty : List Value → List Value
last_twenty vs = drop (length vs - 20) vs

-- The loop that adds the keys which the stored metadata lacks.
unfoldable pub add_missing : Fields → Fields → Fields
add_missing merged end = merged
add_missing merged (field k v incoming) =
    add_missing (if has_key merged k || is_empty v then merged else put merged k v) incoming

-- The list of normalisers is written if it has anything in it.
abbrev pub with_normalizers : Fields → List Value → Fields
with_normalizers merged [] = merged
with_normalizers merged (v ∷ vs) = put merged "normalizers" (list_value (v ∷ vs))

unfoldable pub merge_metadata : Fields → Fields → Fields
unfolding only_keys add_missing
merge_metadata existing incoming =
    let normalizers =
      unique_values
        (items_or_empty (get existing "normalizers") ++ (get incoming "normalizer" ∷ [])) in
    let merged = with_normalizers existing normalizers in
    let sightings =
      items_or_empty (get merged "sightings") ++ (dict (only_keys sighting_keys incoming) ∷ []) in
    add_missing (put merged "sightings" (list_value (last_twenty sightings))) incoming

-- `min_datetime` and `max_datetime` with a datetime as the second argument, as they are called.
unfoldable pub min_datetime : Value → ℕ → Value
min_datetime (time m) n = time (if leb m n then m else n)
min_datetime _ n = time n

unfoldable pub max_datetime : Value → ℕ → Value
max_datetime (time m) n = time (if leb n m then m else n)
max_datetime _ n = time n

-- `order.get(key, default)`
abbrev pub rank : ℕ → List (String × ℕ) → String → ℕ
rank default [] key = default
rank default ((k, n) ∷ order) key = if k == key then n else rank default order key

-- `value or default` on a text column.
abbrev pub text_or : Value → String → String
text_or (str s) default = if s == "" then default else s
text_or _ default = default

abbrev pub severity_order : List (String × ℕ)
severity_order = ("unknown", 0) ∷ ("low", 1) ∷ ("medium", 2) ∷ ("high", 3) ∷ ("critical", 4) ∷ []

abbrev pub exploit_order : List (String × ℕ)
exploit_order = ("unknown", 0) ∷ ("none_known", 1) ∷ ("proof_of_concept", 2) ∷ ("exploited", 3) ∷ []

abbrev pub confidence_order : List (String × ℕ)
confidence_order = ("low", 1) ∷ ("medium", 2) ∷ ("high", 3) ∷ []

unfoldable pub severity_rank : Value → ℕ
severity_rank v = rank 0 severity_order (text_or v "unknown")

unfoldable pub exploit_rank : Value → ℕ
exploit_rank v = rank 0 exploit_order (text_or v "unknown")

unfoldable pub confidence_rank : Value → ℕ
confidence_rank v = rank 2 confidence_order (text_or v "medium")

unfoldable pub stronger_severity : String → Value → Bool
stronger_severity incoming existing = ltb (severity_rank existing) (severity_rank (str incoming))

unfoldable pub stronger_exploit_status : String → Value → Bool
stronger_exploit_status incoming existing =
    ltb (exploit_rank existing) (exploit_rank (str incoming))

unfoldable pub stronger_confidence : String → Value → Bool
stronger_confidence incoming existing =
    ltb (confidence_rank existing) (confidence_rank (str incoming))

abbrev pub conservative_fields : List String
conservative_fields =
    "summary" ∷ "canonical_source_url" ∷ "cve_id" ∷ "cwe_id" ∷ "cvss_score" ∷ "cvss_vector"
    ∷ "affected_vendor" ∷ "affected_product" ∷ "affected_version" ∷ "vehicle_component"
    ∷ "attack_surface" ∷ "risk_score" ∷ "normalized_text_hash" ∷ []

-- Fields that are filled only where the stored row has nothing.
unfoldable pub conservative_values : Row → Row → List String → List (String × Value)
conservative_values existing incoming [] = []
conservative_values existing incoming (k ∷ ks) =
    let rest = conservative_values existing incoming ks in
    if is_empty (existing k) && not (is_empty (incoming k)) then (k, incoming k) ∷ rest else rest

-- `existing.get("title") in {None, "", existing.get("cve_id")}`
abbrev pub title_is_free : Row → Bool
title_is_free existing =
    value_eq (existing "title") none_value
    || value_eq (existing "title") (str "")
    || value_eq (existing "title") (existing "cve_id")

abbrev pub empty_row : Row
empty_row k = none_value

abbrev pub when : Bool → String → Value → List (String × Value)
when true k v = (k, v) ∷ []
when false k v = []

-- The columns that are always written.
unfoldable pub merged_values : Row → NormalizedRecord → ℕ → List (String × Value)
merged_values existing incoming now =
    (
      "source_names",
      list_value (
          unique_values
            (items_or_empty (existing "source_names") ++ text_values incoming.source_names)),
    )
    ∷ (
      "source_urls",
      list_value (
          unique_values
            (items_or_empty (existing "source_urls") ++ text_values incoming.source_urls)),
    )
    ∷ (
      "external_ids",
      dict (merge_external_ids (dict_or_empty (existing "external_ids")) incoming.external_ids),
    )
    ∷ (
      "tags",
      list_value (unique_values (items_or_empty (existing "tags") ++ text_values incoming.tags)),
    )
    ∷ ("first_seen_at", min_datetime (existing "first_seen_at") incoming.first_seen_at)
    ∷ ("last_seen_at", max_datetime (existing "last_seen_at") incoming.last_seen_at)
    ∷ ("metadata", dict (merge_metadata (dict_or_empty (existing "metadata")) incoming.metadata))
    ∷ ("updated_at", time now)
    ∷ []

-- The columns that are written if the incoming record says more.
unfoldable pub stronger_values : Row → NormalizedRecord → List (String × Value)
stronger_values existing incoming =
    when (stronger_severity incoming.severity (existing "severity")) "severity"
      (str incoming.severity)
    ++ (when (stronger_exploit_status incoming.exploit_status (existing "exploit_status"))
          "exploit_status" (str incoming.exploit_status)
        ++ (when (stronger_confidence incoming.confidence (existing "confidence")) "confidence"
              (str incoming.confidence)
            ++ when (title_is_free existing && not (incoming.title == "")) "title"
                (str incoming.title)))

unfoldable pub merge_normalized : Row → NormalizedRecord → ℕ → List (String × Value)
merge_normalized existing incoming now =
    let incoming_values = with_columns empty_row (normalized_common_values incoming) in
    merged_values existing incoming now
    ++ (conservative_values existing incoming_values conservative_fields
        ++ stronger_values existing incoming)
