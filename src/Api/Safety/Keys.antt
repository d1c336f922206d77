-- ===== src/Api/Safety/Keys.antt =====
-- What is left of metadata after the redaction of backend/app/api/safety.py.
use sentinel_drive.Prelude.{
  ℕ, zero, suc, ◌≤◌, String, Bool, true, false, Option, none, some, ◌≡◌, refl, ◌∙◌, sym, ap, arith,
  ◌==◌, string_Eq, if◌then◌else◌, Bool-cases, beq_refl, inl, inr,
}
use sentinel_drive.Value.{
  Python, Value, none_value, bool, int, float, str, time, other, list, dict, Values, nil, cons,
  Fields, end, field, put, lookup, text_or_none,
}
use sentinel_drive.Value.Equality.{IsDict}
use sentinel_drive.Value.Dict.{lookup-put}
use sentinel_drive.Api.Safety.{
  Web, is_sensitive_name, safe_string, safe_url, looks_like_url, looks_sensitive_value,
  safe_metadata, safe_fields, safe_items, safe_dict,
}

-- The number of items.
unfoldable pub count_items : Values → ℕ
count_items nil = 0
count_items (cons v vs) = suc (count_items vs)

-- At every depth, no key has a sensitive name, and no list has more than fifty items.
abbrev mutual
  pub IsRedacted : Value → Type 0
  IsRedacted (list vs) = (count_items vs ≤ 50) × AllRedacted vs
  IsRedacted (dict fs) = FieldsRedacted fs
  IsRedacted _ = Unit

  pub AllRedacted : Values → Type 0
  AllRedacted nil = Unit
  AllRedacted (cons v vs) = IsRedacted v × AllRedacted vs

  pub FieldsRedacted : Fields → Type 0
  FieldsRedacted end = Unit
  FieldsRedacted (field k v fs) = (is_sensitive_name k ≡ false) × (IsRedacted v × FieldsRedacted fs)

text_or_none-IsRedacted : (o : Option String) → IsRedacted (text_or_none o)
text_or_none-IsRedacted none = tt
text_or_none-IsRedacted (some s) = tt

pub put-FieldsRedacted :
    (fs : Fields) (k : String) (v : Value)
    → is_sensitive_name k ≡ false
    → IsRedacted v
    → FieldsRedacted fs
    → FieldsRedacted (put fs k v)
unfolding put
put-FieldsRedacted end k v e r h = (e, (r, tt))
put-FieldsRedacted (field j w fs) k v e r (p, (q, h)) = elim (Bool-cases (j == k)) [
  | inl same ↦ rw same (p, (r, h))
  | inr differs ↦ rw differs (p, (q, put-FieldsRedacted fs k v e r h))
]

module _ (W : Web) (P : Python) where
  safe_string-IsRedacted : (s : String) → IsRedacted (safe_string W P s)
  unfolding safe_string
  safe_string-IsRedacted s = elim (Bool-cases (looks_like_url s)) [
    | inl e ↦ rw e (text_or_none-IsRedacted (safe_url W P (some s)))
    | inr e ↦ elim (Bool-cases (looks_sensitive_value W s)) [
      | inl f ↦ rw (e, f) tt
      | inr f ↦ rw (e, f) tt
    ]
  ]

  safe_items-count : (vs : Values) (n : ℕ) → count_items (safe_items W P vs n) ≤ n
  unfolding safe_items count_items
  safe_items-count nil n = omega arith
  safe_items-count (cons v vs) zero = omega arith
  safe_items-count (cons v vs) (suc n) = omega (arith, safe_items-count vs n)

  mutual
    unfolding safe_metadata

    redacted : (v : Value) → IsRedacted (safe_metadata W P v)
    redacted none_value = tt
    redacted (bool b) = tt
    redacted (int n) = tt
    redacted (float n) = tt
    redacted (str s) = safe_string-IsRedacted s
    redacted (time t) = tt
    redacted (other s) = tt
    redacted (list vs) = (safe_items-count vs 50, redacted_items vs 50)
    redacted (dict fs) = redacted_fields fs end tt

    redacted_items : (vs : Values) (n : ℕ) → AllRedacted (safe_items W P vs n)
    redacted_items nil n = tt
    redacted_items (cons v vs) zero = tt
    redacted_items (cons v vs) (suc n) = (redacted v, redacted_items vs n)

    redacted_fields :
        (fs safe : Fields) → FieldsRedacted safe → FieldsRedacted (safe_fields W P fs safe)
    redacted_fields end safe h = h
    redacted_fields (field k v fs) safe h = elim (Bool-cases (is_sensitive_name k)) [
      | inl e ↦ rw e (redacted_fields fs safe h)
      | inr e ↦ rw e (
          redacted_fields fs (put safe k (safe_metadata W P v))
            (put-FieldsRedacted safe k (safe_metadata W P v) e (redacted v) h))
    ]

  -- In redacted metadata no key at any depth has a sensitive name, and no list has more than fifty
  -- items.
  pub safe_metadata-IsRedacted : (v : Value) → IsRedacted (safe_metadata W P v)
  safe_metadata-IsRedacted v = redacted v

  -- What the redacted dict has under a key, from what the dict has and what was there before.
  abbrev pub redacted_entry : String → Option Value → Option Value → Option Value
  redacted_entry k none before = before
  redacted_entry k (some v) before =
      if is_sensitive_name k then before else some (safe_metadata W P v)

  lookup-step :
      (b : Bool) (j k : String) (w : Value) (safe : Fields)
      → lookup k (if b then safe else put safe j w)
        ≡ (if b then lookup k safe else if j == k then some w else lookup k safe)
  lookup-step true j k w safe = refl
  lookup-step false j k w safe = lookup-put k j w safe

  same_branches : (b : Bool) (o : Option Value) → (if b then o else o) ≡ o
  same_branches true o = refl
  same_branches false o = refl

  lookup-safe_fields :
      (k : String) (fs safe : Fields)
      → IsDict fs
      → lookup k (safe_fields W P fs safe) ≡ redacted_entry k (lookup k fs) (lookup k safe)
  unfolding safe_fields lookup
  lookup-safe_fields k end safe h = refl
  lookup-safe_fields k (field j v fs) safe (p, fresh, h) =
      let b = is_sensitive_name j in
      let w = safe_metadata W P v in
      lookup-safe_fields k fs (if b then safe else put safe j w) h
      ∙ (ap (redacted_entry k (lookup k fs)) (lookup-step b j k w safe)
          ∙ elim (Bool-cases (j == k)) [
            | inl same ↦ rw (sym ((string_Eq.equal_iff j k).0 same), fresh, beq_refl j)
            | inr differs ↦
                rw differs (ap (redacted_entry k (lookup k fs)) (same_branches b (lookup k safe)))
          ])

  -- A redacted dict whose keys are distinct has, under a key without a sensitive name, the redacted
  -- value of the dict where it has one, and nothing under the other keys.
  pub lookup-safe_dict :
      (k : String) (fs : Fields)
      → IsDict fs
      → lookup k (safe_dict W P fs) ≡ redacted_entry k (lookup k fs) none
  unfolding safe_dict safe_metadata lookup
  lookup-safe_dict k fs h = lookup-safe_fields k fs end h
