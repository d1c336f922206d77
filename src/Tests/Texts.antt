-- ===== src/Tests/Texts.antt =====
-- Texts, keys and redaction.
use sentinel_drive.Prelude.{some, ◌≡◌, refl}
use sentinel_drive.Text.{text_runs}
use sentinel_drive.Value.{str, value_runs}
use sentinel_drive.Normalization.Dedup.{normalize_text}
use sentinel_drive.Sanitize.{Error, sanitize_error, sanitize_runtime_error, fold_code}
use sentinel_drive.Sanitize.Clean.{IsClean, sanitize_error-IsClean}
use sentinel_drive.Tests.Samples.{plain}

normalize_text_run : normalize_text plain (str "  A\tBig  Gap ") ≡ "a big gap"
unfolding normalize_text text_runs value_runs
normalize_text_run = refl

abbrev leak : Error
leak = record { message = "GET /x?API-Key=abc&b=1 with Password"; class_name = "HTTPError" }

sanitize_error_run : sanitize_error leak ≡ "GET /x?[redacted]=[redacted]&b=1 with [redacted]"
unfolding sanitize_error text_runs fold_code
sanitize_error_run = refl

sanitize_error-IsClean_example :
    IsClean (sanitize_error leak) × IsClean (sanitize_runtime_error (some leak))
sanitize_error-IsClean_example = sanitize_error-IsClean leak
