-- ===== src/Ingest/Agreement.antt =====
-- The keys of the ingest and those that the worker gives to the same records.
use sentinel_drive.Prelude.{
  String, ◌≡◌, refl, false, not, Option, none, some, ◌==◌, string_Eq, Bool-cases, inl, inr,
}
use mathlib.Core.Option.{some-injective}
use mathlib.Core.Path.{subst}
use Prim.Native.String.{[], ◌∷◌}
use sentinel_drive.Text.{upper, strip, or_text}
use sentinel_drive.Text.Words.{upper_idem}
use sentinel_drive.Value.{Python}
use sentinel_drive.Normalization.Keys.{present, external_ingest_dedup_key}
use sentinel_drive.Api.Safety.{Web}
use sentinel_drive.Ingest.Payload.{Payload}
use sentinel_drive.Ingest.Request.{normalize_cve_id, is_cve, has_length}
use sentinel_drive.Ingest.Derived.{is_set, text_in, dedup_key_of}

-- A text in capital letters, or none.
abbrev IsUpper : Option String → Type 0
IsUpper o = upper (text_in o) ≡ text_in o

normalize_cve_id-IsUpper :
    (W : Web) (o c : Option String) → normalize_cve_id W o ≡ some c → IsUpper c
unfolding normalize_cve_id upper
normalize_cve_id-IsUpper W none c h = subst IsUpper (some-injective none c h) refl
normalize_cve_id-IsUpper W (some v) c h = elim (Bool-cases (has_length 0 32 v)) [
  | inl a ↦ elim (Bool-cases (is_cve W (upper (strip v)))) [
    | inl b ↦ subst IsUpper (some-injective _ c (rw (a, b) at h)) (upper_idem (strip v))
    | inr b ↦ cc (rw (a, b) at h)
  ]
  | inr a ↦ cc (rw a at h)
]

present-text_in : (o : Option String) → present o ≡ text_in o
present-text_in none = refl
present-text_in (some s) = refl

is_set-lem : (o : Option String) → is_set o ≡ not (present o == "")
is_set-lem none = refl
is_set-lem (some s) = refl

or_text_of_set : (s t : String) → (s == "") ≡ false → or_text s t ≡ s
or_text_of_set [] t h = cc
or_text_of_set (c ∷ s) t h = refl

-- A request whose CVE number is what the validator gives has the key that the worker computes from
-- its fields, where the hash of its text is not empty.
pub dedup_key_of-external :
    (P : Python) (W : Web) (p : Payload) (raw : Option String)
    (source_name source_url content hash : String)
    → normalize_cve_id W raw ≡ some p.cve_id
    → (hash == "") ≡ false
    → dedup_key_of P W p source_name source_url content hash
      ≡ external_ingest_dedup_key P p.cve_id p.dedup_key p.external_id source_name
          (some source_url)
          p.content_hash
          (some hash)
unfolding dedup_key_of external_ingest_dedup_key
dedup_key_of-external P W p raw source_name source_url content hash h k = rw (
  is_set-lem p.cve_id,
  is_set-lem p.dedup_key,
  is_set-lem p.external_id,
  is_set-lem p.content_hash,
  or_text_of_set hash content k,
  k,
  present-text_in p.cve_id,
  present-text_in p.dedup_key,
  present-text_in p.external_id,
  present-text_in p.content_hash,
  normalize_cve_id-IsUpper W raw p.cve_id h,
)
