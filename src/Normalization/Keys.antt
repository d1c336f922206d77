-- ===== src/Normalization/Keys.antt =====
-- The keys under which intelligence is stored: the second half of
-- worker/sentineldrive_worker/normalization/dedup.py. What `urllib.parse` does is a parameter.
use sentinel_drive.Prelude.{
  String, ◌<>◌, ◌≡◌, refl, false, ◌||◌, ◌&&◌, not, Option, none, some, List, [], ◌∷◌, if◌then◌else◌,
  ◌==◌, string_Eq,
}
use sentinel_drive.Text.{lower, upper, strip, take_text, or_text}
use sentinel_drive.Value.{Python, Value, none_value, str, dict, from_items, text, text_or_none}
use sentinel_drive.Normalization.Dedup.{stable_hash, normalize_text}

pub record SplitUrl : Type 0 where
  pub scheme : String
  pub netloc : String
  pub path : String
  pub query : String

-- `urldefrag(text)[0]`, `urlsplit` and `urlunsplit` with an empty fragment.
pub record UrlParse : Type 0 where
  pub defrag : String → String
  pub urlsplit : String → SplitUrl
  pub urlunsplit : SplitUrl → String

-- `str(value)` if it is not None
abbrev pub present : Option String → String
present none = ""
present (some s) = s

-- `stable_hash({…})[:48]`
unfoldable pub hash_of : Python → List (String × Value) → String
hash_of P items = take_text 48 (stable_hash P (dict (from_items items)))

module _ (P : Python) (U : UrlParse) where
  -- What is done with a URL without white space around it that is not empty.
  unfoldable pub canonical_text : String → String
  canonical_text t =
      let url = U.defrag t in
      let parsed = U.urlsplit url in
      if parsed.scheme == "http" || parsed.scheme == "https"
      then U.urlunsplit (record {
        scheme = lower parsed.scheme;
        netloc = lower parsed.netloc;
        path = or_text parsed.path "/";
        query = parsed.query;
      })
      else t

  unfoldable pub canonical_url : Value → Option String
  canonical_url none_value = none
  canonical_url v = let t = strip (text P v) in if t == "" then none else some (canonical_text t)

  -- `dedup_key`, of a record that a connector collected
  unfoldable pub dedup_key :
      Option String
      → Option String
      → Option String
      → Option String
      → Option String
      → Option String
      → String
  dedup_key cve_id source_url title source_name content_hash normalized_text_hash =
      let url = canonical_url (text_or_none source_url) in
      let title_key = normalize_text P (text_or_none title) in
      let source_key = normalize_text P (text_or_none source_name) in
      if not (present cve_id == "")
      then "cve:" <> upper (present cve_id)
      else if not (present url == "")
      then "url:" <> hash_of P (("url", str (present url)) ∷ [])
      else if not (title_key == "") && not (source_key == "")
      then "title-source:"
        <> hash_of P (("title", str title_key) ∷ ("source_name", str source_key) ∷ [])
      else if not (present content_hash == "")
      then "content:" <> present content_hash
      else if not (present normalized_text_hash == "")
      then "text:" <> present normalized_text_hash
      else "fallback:"
        <> hash_of P (("title", text_or_none title) ∷ ("source", text_or_none source_name) ∷ [])

-- `external_ingest_dedup_key`
unfoldable pub external_ingest_dedup_key :
    Python
    → Option String
    → Option String
    → Option String
    → String
    → Option String
    → Option String
    → Option String
    → String
external_ingest_dedup_key P cve_id key external_id source_name source_url content_hash
      normalized_text_hash =
    if not (present cve_id == "")
    then "cve:" <> upper (present cve_id)
    else if not (present key == "")
    then "external:" <> hash_of P (("dedup_key", str (present key)) ∷ [])
    else if not (present external_id == "")
    then "external:"
      <> hash_of P
          (("source_name", str source_name) ∷ ("external_id", str (present external_id)) ∷ [])
    else if not (present content_hash == "")
    then "content:" <> present content_hash
    else if not (present source_url == "")
    then "url:" <> hash_of P (("url", str (present source_url)) ∷ [])
    else "text:"
      <> (if not (present normalized_text_hash == "")
          then present normalized_text_hash
          else text P (text_or_none content_hash))

-- A vulnerability has one key, in whatever letter case its number is written and whether it comes
-- from a connector or through the ingest.
pub keys-converge :
    (P : Python) (U : UrlParse) (cve cve' : String) (url title name content hash : Option String)
    (key external : Option String) (source : String) (url' content' hash' : Option String)
    → (cve == "") ≡ false
    → upper cve ≡ upper cve'
    → (cve' == "") ≡ false
    → dedup_key P U (some cve) url title name content hash
      ≡ external_ingest_dedup_key P (some cve') key external source url' content' hash'
unfolding dedup_key external_ingest_dedup_key
keys-converge P U cve cve' url title name content hash key external source url' content' hash' h e
      h' =
    rw (h, h', e) refl
