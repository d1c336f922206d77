-- ===== src/Normalization/Service/Upsert.antt =====
-- The table of threat intelligence under `upsert_normalized_record`.
use sentinel_drive.Prelude.{
  ℕ, String, ◌≡◌, refl, sym, ap, Bool, true, false, ◌&&◌, not, Option, none, some, List, [], ◌∷◌,
  ◌++◌, map, All, All-append, length, contains, if◌then◌else◌, Bool-cases, inl, inr, ◌==◌,
  string_Eq, or-false,
}
use mathlib.Core.Path.{subst}
use mathlib.Core.Option.{some-injective}
use sentinel_drive.Value.{Value, str}
use sentinel_drive.Value.Equality.{value_eq, value_eq_refl}
use sentinel_drive.Value.Row.{Row, with_columns, Lacks, with_columns-Lacks}
use sentinel_drive.Database.{
  Table, column_is, select_first, update_where, insert_row, length-update_where,
}
use sentinel_drive.Normalization.Unique.{Distinct, has_value, Distinct-append}
use sentinel_drive.Normalization.Record.{
  NormalizedRecord, normalized_insert_values, normalized_common_values,
}
use sentinel_drive.Normalization.Merge.{
  merge_normalized, merged_values, conservative_values, conservative_fields, stronger_values, when,
  is_empty, empty_row, stronger_severity, stronger_exploit_status, stronger_confidence,
  title_is_free,
}
use sentinel_drive.Normalization.Merged.{written_fields}
use sentinel_drive.Normalization.Service.{Upserted, upsert_normalized_record, upsert_at, updated}

when-Lacks : (k j : String) (b : Bool) (v : Value) → (j == k) ≡ false → Lacks k (when b j v)
when-Lacks k j true v e = (e, tt)
when-Lacks k j false v e = tt

conservative-Lacks :
    (k : String) (existing incoming : Row) (ks : List String)
    → contains ks k ≡ false
    → Lacks k (conservative_values existing incoming ks)
unfolding conservative_values
conservative-Lacks k existing incoming [] h = tt
conservative-Lacks k existing incoming (j ∷ ks) h =
    let (e, h') = or-false (j == k) (contains ks k) h in
    elim (Bool-cases (is_empty (existing j) && not (is_empty (incoming j)))) [
      | inl p ↦ rw p (e, conservative-Lacks k existing incoming ks h')
      | inr p ↦ rw p (conservative-Lacks k existing incoming ks h')
    ]

-- A merge writes no column but its own.
merge-Lacks :
    (k : String) (existing : Row) (incoming : NormalizedRecord) (now : ℕ)
    → contains conservative_fields k ≡ false
    → All (λ j. (j == k) ≡ false) written_fields
    → Lacks k (merge_normalized existing incoming now)
unfolding merge_normalized merged_values stronger_values
merge-Lacks k existing incoming now apart
      (a, (b, (c, (d, (e, (f, (g, (h, (i, (j, (l, (m, _)))))))))))) =
    let L : String × Value → Type 0 = λ (j, v). (j == k) ≡ false in
    let incoming_row = with_columns empty_row (normalized_common_values incoming) in
    let severity =
      when (stronger_severity incoming.severity (existing "severity")) "severity"
        (str incoming.severity) in
    let exploit =
      when (stronger_exploit_status incoming.exploit_status (existing "exploit_status"))
        "exploit_status" (str incoming.exploit_status) in
    let confidence =
      when (stronger_confidence incoming.confidence (existing "confidence")) "confidence"
        (str incoming.confidence) in
    let title =
      when (title_is_free existing && not (incoming.title == "")) "title" (str incoming.title) in
    All-append L (merged_values existing incoming now)
      (conservative_values existing incoming_row conservative_fields
        ++ (severity ++ (exploit ++ (confidence ++ title))))
      (a, (b, (c, (d, (e, (f, (g, (h, tt))))))))
      (All-append L (conservative_values existing incoming_row conservative_fields)
        (severity ++ (exploit ++ (confidence ++ title)))
        (conservative-Lacks k existing incoming_row conservative_fields apart)
        (All-append L severity (exploit ++ (confidence ++ title))
          (when-Lacks k "severity" (stronger_severity incoming.severity (existing "severity"))
            (str incoming.severity) i)
          (All-append L exploit (confidence ++ title)
            (when-Lacks k "exploit_status"
              (stronger_exploit_status incoming.exploit_status (existing "exploit_status"))
              (str incoming.exploit_status) j)
            (All-append L confidence title
              (when-Lacks k "confidence"
                (stronger_confidence incoming.confidence (existing "confidence"))
                (str incoming.confidence) l)
              (when-Lacks k "title" (title_is_free existing && not (incoming.title == ""))
                (str incoming.title) m)))))

none_written : All (λ j. (j == "dedup_key") ≡ false) written_fields
none_written = (
  refl,
  (refl, (refl, (refl, (refl, (refl, (refl, (refl, (refl, (refl, (refl, (refl, tt))))))))))),
)

no_id_written : All (λ j. (j == "id") ≡ false) written_fields
no_id_written = (
  refl,
  (refl, (refl, (refl, (refl, (refl, (refl, (refl, (refl, (refl, (refl, (refl, tt))))))))))),
)

merge-Lacks_key :
    (existing : Row) (incoming : NormalizedRecord) (now : ℕ)
    → Lacks "dedup_key" (merge_normalized existing incoming now)
merge-Lacks_key existing incoming now =
    merge-Lacks "dedup_key" existing incoming now refl none_written

merge-Lacks_id :
    (existing : Row) (incoming : NormalizedRecord) (now : ℕ)
    → Lacks "id" (merge_normalized existing incoming now)
merge-Lacks_id existing incoming now = merge-Lacks "id" existing incoming now refl no_id_written

abbrev pub keys : Table → List Value
keys = map (λ r. r "dedup_key")

-- No two rows have one key.
abbrev pub UniqueKeys : Table → Type 0
UniqueKeys table = Distinct (keys table)

keys-update_where :
    (p : Row → Bool) (columns : List (String × Value)) (table : Table)
    → Lacks "dedup_key" columns
    → keys (update_where p columns table) ≡ keys table
unfolding update_where
keys-update_where p columns [] h = refl
keys-update_where p columns (r ∷ table) h = elim (Bool-cases (p r)) [
  | inl e ↦
      rw (e, with_columns-Lacks "dedup_key" r columns h, keys-update_where p columns table h) refl
  | inr e ↦ rw (e, keys-update_where p columns table h) refl
]

keys-append :
    (table : Table) (r : Row) → keys (table ++ (r ∷ [])) ≡ keys table ++ (r "dedup_key" ∷ [])
keys-append [] r = refl
keys-append (s ∷ table) r = ap (λ ks. s "dedup_key" ∷ ks) (keys-append table r)

no_key :
    (v : Value) (table : Table)
    → select_first (column_is "dedup_key" v) table ≡ none
    → has_value v (keys table) ≡ false
unfolding select_first
no_key v [] h = refl
no_key v (r ∷ table) h = elim (Bool-cases (value_eq (r "dedup_key") v)) [
  | inl e ↦ cc (rw e at h)
  | inr e ↦ rw e (no_key v table (rw e at h))
]

upsert_at-UniqueKeys :
    (o : Option Row) (incoming : NormalizedRecord) (new_id : Value) (now : ℕ) (table : Table)
    → select_first (column_is "dedup_key" (str incoming.dedup_key)) table ≡ o
    → UniqueKeys table
    → UniqueKeys (upsert_at o incoming new_id now table).table
unfolding insert_row normalized_insert_values
upsert_at-UniqueKeys none incoming new_id now table e h =
    let key = str incoming.dedup_key in
    subst Distinct
      (sym
        (keys-append table (with_columns empty_row (normalized_insert_values incoming new_id now))))
      (Distinct-append (keys table) key h (no_key key table e))
upsert_at-UniqueKeys (some existing) incoming new_id now table e h =
    subst Distinct
      (sym (
        keys-update_where (column_is "id" (existing "id")) (merge_normalized existing incoming now)
          table (merge-Lacks_key existing incoming now)))
      h

-- An insert or a merge keeps the keys of the table apart.
pub upsert-UniqueKeys :
    (incoming : NormalizedRecord) (new_id : Value) (now : ℕ) (table : Table)
    → UniqueKeys table
    → UniqueKeys (upsert_normalized_record incoming new_id now table).table
unfolding upsert_normalized_record
upsert-UniqueKeys incoming new_id now table h =
    upsert_at-UniqueKeys _ incoming new_id now table refl h

All-selected :
    (Q : Row → Type 0) (p : Row → Bool) (table : Table) (row : Row)
    → All Q table
    → select_first p table ≡ some row
    → Q row
unfolding select_first
All-selected Q p [] row h e = cc
All-selected Q p (r ∷ table) row (q, h) e = elim (Bool-cases (p r)) [
  | inl b ↦ subst Q (some-injective r row (rw b at e)) q
  | inr b ↦ All-selected Q p table row h (rw b at e)
]

abbrev row_after : (Row → Bool) → List (String × Value) → Row → Row
row_after p columns row = if p row then with_columns row columns else row

abbrev option_after : (Row → Bool) → List (String × Value) → Option Row → Option Row
option_after p columns none = none
option_after p columns (some row) = some (row_after p columns row)

-- The first row of a key after an update that writes no key: the row that was first, updated if it fits.
select-updated :
    (v : Value) (p : Row → Bool) (columns : List (String × Value)) (table : Table)
    → Lacks "dedup_key" columns
    → select_first (column_is "dedup_key" v) (update_where p columns table)
      ≡ option_after p columns (select_first (column_is "dedup_key" v) table)
unfolding select_first update_where
select-updated v p columns [] h = refl
select-updated v p columns (r ∷ table) h = elim (Bool-cases (p r)) [
  | inl b ↦
      rw (b, with_columns-Lacks "dedup_key" r columns h)
        (elim (Bool-cases (value_eq (r "dedup_key") v)) [
          | inl q ↦ rw (q, b) refl
          | inr q ↦ rw q (select-updated v p columns table h)
        ])
  | inr b ↦ rw b (elim (Bool-cases (value_eq (r "dedup_key") v)) [
    | inl q ↦ rw (q, b) refl
    | inr q ↦ rw q (select-updated v p columns table h)
  ])
]

select-inserted :
    (v : Value) (table : Table) (row : Row)
    → value_eq (row "dedup_key") v ≡ true
    → select_first (column_is "dedup_key" v) table ≡ none
    → select_first (column_is "dedup_key" v) (table ++ (row ∷ [])) ≡ some row
unfolding select_first
select-inserted v [] row h e = rw h refl
select-inserted v (r ∷ table) row h e = elim (Bool-cases (value_eq (r "dedup_key") v)) [
  | inl p ↦ cc (rw p at e)
  | inr p ↦ rw p (select-inserted v table row h (rw p at e))
]

id_after :
    (p : Row → Bool) (existing row : Row) (incoming : NormalizedRecord) (now : ℕ)
    → row_after p (merge_normalized existing incoming now) row "id" ≡ row "id"
id_after p existing row incoming now = elim (Bool-cases (p row)) [
  | inl b ↦ rw b (with_columns-Lacks "id" row _ (merge-Lacks_id existing incoming now))
  | inr b ↦ rw b refl
]

-- What an upsert leaves that merges a record into a row of a table: the row is reported, what the
-- merge gives is written to it, and the first row of the key is the merged one.
abbrev pub MergedInto : Row → NormalizedRecord → ℕ → Table → Upserted → Type 0
MergedInto existing incoming now table upserted =
    (upserted.action ≡ updated)
    × (upserted.intelligence_id ≡ existing "id")
    × (upserted.table
        ≡ update_where (column_is "id" (existing "id")) (merge_normalized existing incoming now)
            table)
    × (select_first (column_is "dedup_key" (str incoming.dedup_key)) upserted.table
        ≡ some (with_columns existing (merge_normalized existing incoming now)))
    × (length upserted.table ≡ length table)

-- An upsert of a record whose key is in the table merges it.
found-MergedInto :
    (incoming : NormalizedRecord) (new_id : Value) (now : ℕ) (table : Table) (existing : Row)
    → select_first (column_is "dedup_key" (str incoming.dedup_key)) table ≡ some existing
    → value_eq (existing "id") (existing "id") ≡ true
    → MergedInto existing incoming now table (upsert_normalized_record incoming new_id now table)
unfolding upsert_normalized_record
found-MergedInto incoming new_id now table existing f same =
    let p = column_is "id" (existing "id") in
    let columns = merge_normalized existing incoming now in
    let after =
      select-updated (str incoming.dedup_key) p columns table
        (merge-Lacks_key existing incoming now) in
    rw f (refl, refl, refl, rw (after, f, same) refl, length-update_where p columns table)

-- A row that the key finds after an upsert, whose identifier is the one reported and is equal to
-- itself.
abbrev Stored : Value → Upserted → Type 0
Stored key upserted =
    (existing : Row) × (select_first (column_is "dedup_key" key) upserted.table ≡ some existing)
    × (upserted.intelligence_id ≡ existing "id")
    × (value_eq (existing "id") (existing "id") ≡ true)

upsert_at-Stored :
    (o : Option Row) (incoming : NormalizedRecord) (new_id : Value) (now : ℕ) (table : Table)
    → select_first (column_is "dedup_key" (str incoming.dedup_key)) table ≡ o
    → value_eq new_id new_id ≡ true
    → All (λ r. value_eq (r "id") (r "id") ≡ true) table
    → Stored (str incoming.dedup_key) (upsert_at o incoming new_id now table)
unfolding insert_row normalized_insert_values
upsert_at-Stored none incoming new_id now table e s ss =
    let new = with_columns empty_row (normalized_insert_values incoming new_id now) in
    let key = str incoming.dedup_key in
    (new, select-inserted key table new (value_eq_refl key tt) e, refl, s)
upsert_at-Stored (some existing) incoming new_id now table e s ss =
    let key = str incoming.dedup_key in
    let p = column_is "id" (existing "id") in
    let columns = merge_normalized existing incoming now in
    let same = id_after p existing existing incoming now in
    (
      row_after p columns existing,
      rw (select-updated key p columns table (merge-Lacks_key existing incoming now), e) refl,
      sym same,
      rw same (
          All-selected (λ r. value_eq (r "id") (r "id") ≡ true) (column_is "dedup_key" key) table
            existing ss e),
    )

-- A record whose key was stored before is merged into that row, whatever the two records hold, where
-- the identifiers are equal to themselves: after the first upsert its key finds the row that it
-- reported, and the second upsert reports an update of this row, writes the merge of the row and the
-- second record to it, so that the key finds the merged row, and adds none.
pub upsert_again :
    (incoming again : NormalizedRecord) (new_id id' : Value) (now later : ℕ) (table : Table)
    → again.dedup_key ≡ incoming.dedup_key
    → value_eq new_id new_id ≡ true
    → All (λ r. value_eq (r "id") (r "id") ≡ true) table
    → let first = upsert_normalized_record incoming new_id now table in
      let second = upsert_normalized_record again id' later first.table in
      (existing : Row) × (select_first (column_is "dedup_key" (str incoming.dedup_key)) first.table
        ≡ some existing)
      × (first.intelligence_id ≡ existing "id")
      × MergedInto existing again later first.table second
unfolding upsert_normalized_record
upsert_again incoming again new_id id' now later table k s ss =
    let first = upsert_normalized_record incoming new_id now table in
    let (existing, found, id, same) = upsert_at-Stored _ incoming new_id now table refl s ss in
    (existing, found, id, found-MergedInto again id' later first.table existing (rw k found) same)
