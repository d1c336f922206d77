-- ===== src/Tests/Samples.antt =====
-- Sample data: what Python gives is fixed to simple functions.
use sentinel_drive.Prelude.{
  ℕ, String, ◌<>◌, Bool, ◌&&◌, ◌||◌, ◌==◌, string_Eq, if◌then◌else◌, none, some, pos, List, [], ◌∷◌,
  leb,
}
use sentinel_drive.Value.{
  Python, Value, none_value, str, float, time, other, list, dict, end, field, from_list,
}
use sentinel_drive.Value.Row.{Row}
use sentinel_drive.Api.Safety.{Web, aware, no_port}
use sentinel_drive.Ingest.Payload.{Payload, Severity}

abbrev pub plain : Python
plain = record {
  str_int = λ n. "0";
  str_float = λ n. "0.0";
  str_time = λ t. "2026-05-19";
  repr = λ v. "{}";
  float_of_text = λ s. none;
  dumps = λ v. "{}";
  sha256 = λ s. s;
}

abbrev pub row_of : List (String × Value) → Row
row_of [] k = none_value
row_of ((j, v) ∷ rest) k = if j == k then v else row_of rest k

-- A critical vulnerability of a telematics unit from the KEV catalogue.
abbrev pub kev_row : Row
kev_row = row_of (
    ("id", other "a1")
    ∷ ("title", str "T-Box  remote code execution")
    ∷ ("summary", str "Unauthenticated attackers reach the modem.")
    ∷ ("source_names", list (from_list (str "CISA-KEV" ∷ [])))
    ∷ ("tags", list (from_list (str "cisa-kev" ∷ [])))
    ∷ ("cvss_score", float (pos 980))
    ∷ ("cvss_vector", str "CVSS:3.1/AV:N/AC:L/PR:N/UI:N")
    ∷ ("severity", str "critical")
    ∷ ("vehicle_component", str "tbox")
    ∷ ("exploit_status", str "exploited")
    ∷ ("confidence", str "high")
    ∷ ("processing_status", str "normalized")
    ∷ ("risk_level", str "info")
    ∷ ("metadata", dict (field "normalizer" (str "cisa-kev") end))
    ∷ ("updated_at", time 5)
    ∷ ("created_at", time 4)
    ∷ [])

-- A note with little in it.
abbrev pub plain_row : Row
plain_row = row_of (
    ("id", other "b2")
    ∷ ("title", str "Note")
    ∷ ("severity", str "low")
    ∷ ("confidence", str "low")
    ∷ ("processing_status", str "normalized")
    ∷ ("risk_level", str "info")
    ∷ ("metadata", dict end)
    ∷ ("updated_at", time 6)
    ∷ ("created_at", time 6)
    ∷ [])

abbrev is_ascii_word : ℕ → Bool
is_ascii_word n = (leb 48 n && leb n 57) || (leb 65 n && leb n 90) || (leb 97 n && leb n 122)

-- A `urllib.parse` that knows one address, of a scheme.
abbrev pub web_of : String → Web
web_of scheme = record {
  urlsplit = λ s. some (record {
    scheme = scheme;
    netloc = "example.com";
    path = "/a";
    query = "";
    fragment = "";
    hostname = some "example.com";
    port_of = no_port;
  });
  urlunsplit = λ s n p q f. s <> ("://" <> (n <> p));
  parse_qsl = λ q. [];
  urlencode = λ items. "";
  defrag = some;
  is_word = is_ascii_word;
  is_digit = λ n. leb 48 n && leb n 57;
  isoformat = λ t. "2026-05-19T00:00:00+00:00";
  str_naive = λ t. "2026-05-19 00:00:00";
  instant_of_naive = λ t. t;
  json_size = λ v. 2;
}

-- A report of a vulnerability, with an address.
abbrev pub payload_at : String → Payload
payload_at url = record {
  source_name = "Feed";
  source_url = url;
  platform = some "Board";
  title = "Remote code execution";
  summary = "A modem";
  description = none;
  external_id = some "X1";
  cve_id = some "CVE-2026-1234";
  cnvd_id = none;
  vendor_advisory_id = none;
  affected_vendor = none;
  affected_products = "unit" ∷ [];
  components = [];
  attack_surfaces = "ota" ∷ [];
  severity = Severity.high;
  external_score = some (pos 750);
  published_at = none;
  collected_at = some (aware 7);
  dedup_key = none;
  content_hash = none;
  raw_payload = some (field "token" (str "abc") (field "kind" (str "note") end));
  tags = "modem" ∷ [];
}
