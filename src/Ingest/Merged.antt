-- ===== src/Ingest/Merged.antt =====
-- What a merge leaves in an entry.
use Prim.Native.Nat.{max}
use sentinel_drive.Prelude.{
  ℕ, String, Bool, true, false, ◌&&◌, ◌||◌, not, some, List, [], ◌∷◌, ◌++◌, ◌==◌, ◌≡◌, refl, ◌∙◌,
  ap, string_Eq, inl, inr, Bool-cases, contains, contains-append, NoRepeats, NoRepeats-snoc, arith,
  or-false, beq_refl,
}
use mathlib.Core.Path.{subst}
use sentinel_drive.Text.{is_empty}
use sentinel_drive.Value.{Python}
use sentinel_drive.Api.Safety.{Web, aware}
use sentinel_drive.Ingest.Payload.{Payload, Severity}
use sentinel_drive.Ingest.Derived.{severity_rank, unique_from, unique, tags_of}
use sentinel_drive.Ingest.Store.{
  Entry, Incoming, datetime_or_min, merged_severity, merged_entry, on_aware, merge_existing,
}

unique_from-NoRepeats : (out vs : List String) → NoRepeats out → NoRepeats (unique_from out vs)
unfolding unique_from
unique_from-NoRepeats out [] h = h
unique_from-NoRepeats out (v ∷ vs) h = elim (Bool-cases (is_empty v || contains out v)) [
  | inl e ↦ rw e (unique_from-NoRepeats out vs h)
  | inr e ↦ rw e (
      unique_from-NoRepeats (out ++ v ∷ []) vs
        (NoRepeats-snoc out v h (or-false (is_empty v) (contains out v) e).1))
]

-- The unique texts of a list hold no text twice.
unique-NoRepeats : (vs : List String) → NoRepeats (unique vs)
unfolding unique
unique-NoRepeats vs = unique_from-NoRepeats [] vs tt

skip_test :
    (empty there rest : Bool)
    → (empty || there) ≡ true
    → (there || (not empty && rest)) ≡ (there || (not empty && (true || rest)))
skip_test true there rest h = refl
skip_test false true rest h = refl
skip_test false false rest h = cc

push_test :
    (there same empty rest : Bool)
    → (same ≡ true → empty ≡ false)
    → ((there || (same || false)) || (not empty && rest)) ≡ (there || (not empty && (same || rest)))
push_test true same empty rest h = refl
push_test false false empty rest h = refl
push_test false true true rest h = cc (h refl)
push_test false true false rest h = refl

kept_or_there :
    (v a : String) (out vs : List String)
    → (is_empty v || contains out v) ≡ true
    → (contains out a || (not (is_empty a) && contains vs a))
      ≡ (contains out a || (not (is_empty a) && (v == a || contains vs a)))
kept_or_there v a out vs h = elim (Bool-cases (v == a)) [
  | inl e ↦
      subst
        (λ b.
          (contains out b || (not (is_empty b) && contains vs b))
          ≡ (contains out b || (not (is_empty b) && (v == b || contains vs b))))
        ((string_Eq.equal_iff v a).0 e)
        (rw (beq_refl v) (skip_test (is_empty v) (contains out v) (contains vs v) h))
  | inr e ↦ rw e
]

contains-unique_from :
    (out vs : List String) (a : String)
    → contains (unique_from out vs) a ≡ (contains out a || (not (is_empty a) && contains vs a))
unfolding unique_from
contains-unique_from out [] a = ground arith
contains-unique_from out (v ∷ vs) a = elim (Bool-cases (is_empty v || contains out v)) [
  | inl e ↦ rw e (contains-unique_from out vs a ∙ kept_or_there v a out vs e)
  | inr e ↦ rw e (
      contains-unique_from (out ++ v ∷ []) vs a
      ∙ (ap (λ b. b || (not (is_empty a) && contains vs a)) (contains-append out (v ∷ []) a)
          ∙ push_test (contains out a) (v == a) (is_empty a) (contains vs a) (λ same.
            subst (λ b. is_empty b ≡ false) ((string_Eq.equal_iff v a).0 same)
              (or-false (is_empty v) (contains out v) e).0)))
]

-- A text is among the unique ones exactly where it is among all and is not empty.
contains-unique :
    (vs : List String) (a : String) → contains (unique vs) a ≡ (not (is_empty a) && contains vs a)
unfolding unique
contains-unique vs a = contains-unique_from [] vs a

rank-merged :
    (incoming stored : Severity)
    → severity_rank (merged_severity incoming stored)
      ≡ max (severity_rank stored) (severity_rank incoming)
rank-merged incoming stored = ground arith

-- What is unique of two lists, one behind the other.
abbrev pub IsUnion : List String → List String → List String → Type 0
IsUnion xs ys zs =
    NoRepeats zs
    × ((a : String) → contains zs a ≡ (not (is_empty a) && (contains xs a || contains ys a)))

unique-IsUnion : (xs ys : List String) → IsUnion xs ys (unique (xs ++ ys))
unique-IsUnion xs ys = (
  unique-NoRepeats (xs ++ ys),
  λ a. contains-unique (xs ++ ys) a ∙ ap (λ b. not (is_empty a) && b) (contains-append xs ys a),
)

module _ (P : Python) (W : Web) (e : Entry) (p : Payload) (i : Incoming) where
  -- A merge with a payload whose time of collection has an offset succeeds. It leaves the higher of the two severities and the later of the two last
  -- sightings; and as names, as URLs and as tags those that the entry had and those that the payload
  -- brings, without the empty text and each once.
  pub merge_existing-joins :
      (t : ℕ)
      → i.collected_at ≡ aware t
      → (m : Entry) × (merge_existing P W e p i ≡ some m)
        × (severity_rank m.severity ≡ max (severity_rank e.severity) (severity_rank p.severity))
        × (m.last_seen_at ≡ some (max (datetime_or_min e.last_seen_at) t))
        × IsUnion e.source_names (i.source_name ∷ []) m.source_names
        × IsUnion e.source_urls (i.source_url ∷ []) m.source_urls
        × IsUnion e.tags (tags_of p) m.tags
  unfolding merge_existing merged_entry
  merge_existing-joins t h = (
    merged_entry P W e p i t,
    ap (on_aware P W (merged_entry P W e p i)) h,
    rank-merged p.severity e.severity,
    refl,
    unique-IsUnion e.source_names (i.source_name ∷ []),
    unique-IsUnion e.source_urls (i.source_url ∷ []),
    unique-IsUnion e.tags (tags_of p),
  )
