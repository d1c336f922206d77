-- ===== src/Normalization/Sources/Builtin.antt =====
-- `register_builtin_normalizers` of worker/sentineldrive_worker/normalization/normalizers.py.
use sentinel_drive.Value.{Python}
use sentinel_drive.Normalization.Keys.{UrlParse}
use sentinel_drive.Normalization.Numbers.{CharClasses}
use sentinel_drive.Normalization.Registry.{
  Registry, register_source_name, register_source_type, register_entry_origin,
}
use sentinel_drive.Normalization.Service.{Normalizer}
use sentinel_drive.Normalization.Sources.Feeds.{
  nvd_normalizer, kev_normalizer, rss_normalizer, vendor_normalizer, fallback_normalizer,
}
use sentinel_drive.Normalization.Sources.Entries.{
  manual_normalizer, external_ingest_normalizer, recall_normalizer,
}

module _ (P : Python) (U : UrlParse) (K : CharClasses) where
  unfoldable pub register_builtin_normalizers : Registry Normalizer → Registry Normalizer
  register_builtin_normalizers r =
      register_entry_origin P "external_ingest" (external_ingest_normalizer P U K) (
        register_source_type P "pdf" (vendor_normalizer P U K) (
          register_source_type P "html" (vendor_normalizer P U K) (
            register_source_type P "api" (fallback_normalizer P U K) (
              register_source_type P "vendor" (vendor_normalizer P U K) (
                register_source_type P "rss" (rss_normalizer P U K) (
                  register_source_type P "manual" (manual_normalizer P U K) (
                    register_source_name P "nhtsa-recalls" (recall_normalizer P U K) (
                      register_source_name P "vendor-advisories" (vendor_normalizer P U K) (
                        register_source_name P "rss" (rss_normalizer P U K) (
                          register_source_name P "cisa-kev" (kev_normalizer P U K)
                            (register_source_name P "nvd" (nvd_normalizer P U K) r)))))))))))
