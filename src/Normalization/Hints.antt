-- ===== src/Normalization/Hints.antt =====
-- Components and attack surfaces by their words,
-- worker/sentineldrive_worker/normalization/hints.py.
use sentinel_drive.Prelude.{
  String, ◌<>◌, ◌≡◌, refl, Bool, true, false, Option, none, some, List, [], ◌∷◌, ◌++◌, map, any,
  All, if◌then◌else◌, Bool-cases, inl, inr,
}
use sentinel_drive.Text.{is_in, join}
use sentinel_drive.Value.{Python, Value, str, text_or_empty}
use sentinel_drive.Normalization.Dedup.{normalize_text}

abbrev pub Terms : Type 0
Terms = List (String × List String)

abbrev pub vehicle_components : Terms
vehicle_components =
    ("app", " app" ∷ "mobile app" ∷ "application" ∷ [])
    ∷ ("tbox", "t-box" ∷ "tbox" ∷ "telematics" ∷ [])
    ∷ ("ivi", "ivi" ∷ "infotainment" ∷ "head unit" ∷ [])
    ∷ ("ota", "ota" ∷ "over-the-air" ∷ "firmware update" ∷ [])
    ∷ ("v2x", "v2x" ∷ "vehicle-to-everything" ∷ [])
    ∷ ("charging", "charging" ∷ "charger" ∷ "evse" ∷ [])
    ∷ ("cloud_api", "cloud api" ∷ "cloud" ∷ "api" ∷ [])
    ∷ ("bluetooth", "bluetooth" ∷ "ble" ∷ [])
    ∷ ("wifi", "wi-fi" ∷ "wifi" ∷ "wlan" ∷ [])
    ∷ ("cellular", "cellular" ∷ "4g" ∷ "5g" ∷ "lte" ∷ [])
    ∷ ("can", " can " ∷ "can bus" ∷ "controller area network" ∷ [])
    ∷ ("usb", "usb" ∷ [])
    ∷ []

abbrev pub attack_surfaces : Terms
attack_surfaces =
    ("bluetooth", "bluetooth" ∷ "ble" ∷ [])
    ∷ ("wifi", "wi-fi" ∷ "wifi" ∷ "wlan" ∷ [])
    ∷ ("cellular", "cellular" ∷ "4g" ∷ "5g" ∷ "lte" ∷ [])
    ∷ ("cloud_api", "cloud api" ∷ "cloud" ∷ "api" ∷ [])
    ∷ ("usb", "usb" ∷ [])
    ∷ ("can", " can " ∷ "can bus" ∷ "controller area network" ∷ [])
    ∷ ("v2x", "v2x" ∷ "vehicle-to-everything" ∷ [])
    ∷ ("charging", "charging" ∷ "charger" ∷ "evse" ∷ [])
    ∷ ("ota", "ota" ∷ "over-the-air" ∷ "firmware update" ∷ [])
    ∷ ("app", " app" ∷ "mobile app" ∷ "application" ∷ [])
    ∷ ("tbox", "t-box" ∷ "tbox" ∷ "telematics" ∷ [])
    ∷ ("ivi", "ivi" ∷ "infotainment" ∷ "head unit" ∷ [])
    ∷ []

-- `any(term in haystack for term in terms)`
unfoldable pub mentions : String → List String → Bool
mentions haystack = any (λ term. is_in term haystack)

unfoldable pub first_hint : String → Terms → Option String
first_hint haystack [] = none
first_hint haystack ((key, terms) ∷ mapping) =
    if mentions haystack terms then some key else first_hint haystack mapping

module _ (P : Python) where
  unfoldable pub haystack_of : List Value → String
  unfolding normalize_text join
  haystack_of values =
      " " <> normalize_text P (str (join " " (map (text_or_empty P) values))) <> " "

  unfoldable pub infer_from_text : Terms → List Value → Option String
  unfolding first_hint haystack_of
  infer_from_text mapping values = first_hint (haystack_of values) mapping

  unfoldable pub infer_vehicle_component : List Value → Option String
  unfolding infer_from_text
  infer_vehicle_component values = infer_from_text vehicle_components values

  unfoldable pub infer_attack_surface : List Value → Option String
  unfolding infer_from_text
  infer_attack_surface values = infer_from_text attack_surfaces values

-- A hint is the first entry of which a term occurs in the text: the entries before it have none.
abbrev pub FirstHint : String → Terms → Option String → Type 0
FirstHint haystack mapping none = All (λ (key, terms). mentions haystack terms ≡ false) mapping
FirstHint haystack mapping (some key) =
    (before : Terms) × (after : Terms) × (terms : List String) × ((mapping
        ≡ (before ++ (key, terms) ∷ after))
      × (mentions haystack terms ≡ true)
      × All (λ (key, terms). mentions haystack terms ≡ false) before)

further_hint :
    (haystack key : String) (terms : List String) (mapping : Terms) (o : Option String)
    → mentions haystack terms ≡ false
    → FirstHint haystack mapping o
    → FirstHint haystack ((key, terms) ∷ mapping) o
further_hint haystack key terms mapping none e h = (e, h)
further_hint haystack key terms mapping (some k) e (before, after, ts, (p, q, h)) =
    ((key, terms) ∷ before, after, ts, (rw p refl, q, (e, h)))

first_hint-First :
    (haystack : String) (mapping : Terms) → FirstHint haystack mapping (first_hint haystack mapping)
unfolding first_hint
first_hint-First haystack [] = tt
first_hint-First haystack ((key, terms) ∷ mapping) = elim (Bool-cases (mentions haystack terms)) [
  | inl e ↦ rw e ([], mapping, terms, (refl, e, tt))
  | inr e ↦ rw e (further_hint haystack key terms mapping _ e (first_hint-First haystack mapping))
]

-- The inferred key is that of the first entry of which a term occurs in the normalised text of the
-- values, and there is none exactly where no entry has such a term.
pub infer_from_text-First :
    (P : Python) (mapping : Terms) (values : List Value)
    → FirstHint (haystack_of P values) mapping (infer_from_text P mapping values)
unfolding infer_from_text
infer_from_text-First P mapping values = first_hint-First (haystack_of P values) mapping
