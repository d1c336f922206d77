-- ===== src/Persistence/Retention.antt =====
-- What is kept of a collected document.
use sentinel_drive.Prelude.{
  ℕ, String, ◌≤◌, ◌≡◌, refl, ◌∙◌, false, ◌&&◌, not, ltb, Bool-cases, inl, inr, ◌⊎◌, ◌==◌, string_Eq,
  arith,
}
use sentinel_drive.Value.{Value, none_value, str, Fields, get, put}
use sentinel_drive.Value.Equality.{value_eq, value_eq-none}
use sentinel_drive.Value.Dict.{get-put, get-put_other}
use sentinel_drive.Collection.Contracts.{SourceType}
use sentinel_drive.Persistence.{
  apply_retention_policy, with_retention, is_document, max_raw_content_bytes,
}

-- The content is gone, or it is small and not from a document.
abbrev pub Kept : (Value → ℕ) → SourceType → Value → Type 0
Kept byte_size source_type content =
    (content ≡ none_value) ⊎ ((byte_size content ≤ 256000) × (is_document source_type ≡ false))

retained-content :
    (item : Fields) (reason : String) → get (with_retention item reason) "raw_content" ≡ none_value
retained-content item reason =
    get-put_other "raw_content" "metadata" _
      (put (put item "raw_content" none_value) "retained_payload_mode" (str "metadata_only")) refl
    ∙ (get-put_other "raw_content" "retained_payload_mode" (str "metadata_only")
          (put item "raw_content" none_value) refl
        ∙ get-put "raw_content" none_value item)

retained-other :
    (item : Fields) (reason k : String)
    → ("raw_content" == k) ≡ false
    → ("retained_payload_mode" == k) ≡ false
    → ("metadata" == k) ≡ false
    → get (with_retention item reason) k ≡ get item k
retained-other item reason k a b c =
    let dropped = put item "raw_content" none_value in
    get-put_other k "metadata" _ (put dropped "retained_payload_mode" (str "metadata_only")) c
    ∙ (get-put_other k "retained_payload_mode" (str "metadata_only") dropped b
        ∙ get-put_other k "raw_content" none_value item a)

-- After the retention policy, an item has no content, or it has one that takes no more than 256,000
-- bytes and the source is neither HTML nor PDF.
pub retention-Kept :
    (byte_size : Value → ℕ) (item : Fields) (source_type : SourceType)
    → Kept byte_size source_type
        (get (apply_retention_policy byte_size item source_type) "raw_content")
unfolding apply_retention_policy
retention-Kept byte_size item source_type = elim (Bool-cases (is_document source_type)) [
  | inl d ↦ rw d (inl (retained-content item "metadata_only"))
  | inr d ↦ elim (Bool-cases (value_eq (get item "raw_content") none_value)) [
    | inl n ↦ rw (d, n) (inl (value_eq-none (get item "raw_content") n))
    | inr n ↦ elim (Bool-cases (ltb max_raw_content_bytes (byte_size (get item "raw_content")))) [
      | inl b ↦ rw (d, n, b) (inl (retained-content item "raw_content_too_large"))
      | inr b ↦ rw (d, n, b) (inr (ground arith, refl))
    ]
  ]
]

-- The policy leaves every other entry but the mode and the metadata as it was: the hash, the title
-- and the identifiers are those that were collected.
pub retention_keeps :
    (byte_size : Value → ℕ) (item : Fields) (source_type : SourceType) (k : String)
    → ("raw_content" == k) ≡ false
    → ("retained_payload_mode" == k) ≡ false
    → ("metadata" == k) ≡ false
    → get (apply_retention_policy byte_size item source_type) k ≡ get item k
unfolding apply_retention_policy
retention_keeps byte_size item source_type k a b c = elim (Bool-cases (is_document source_type)) [
  | inl d ↦ rw d (retained-other item "metadata_only" k a b c)
  | inr d ↦
      elim (Bool-cases (
        not (value_eq (get item "raw_content") none_value)
        && ltb max_raw_content_bytes (byte_size (get item "raw_content")))) [
          | inl e ↦ rw (d, e) (retained-other item "raw_content_too_large" k a b c)
          | inr e ↦ rw (d, e) refl
        ]
]
