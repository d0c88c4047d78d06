-- ===== src/Settings/Sections.antt =====
-- crawler_config.py: the parsers of the sections.
use emule_indexer.Common.{
  false, not, Option, none, some, List, [], ◌∷◌, ok, err, ◌>>=◌, any, if◌then◌else◌,
}
use emule_indexer.Common.Text.{Str, str_eq, codes}
use emule_indexer.Common.Dict.{Dict}
use emule_indexer.Observability.Policy.{Audience, community, operations}
use emule_indexer.Settings.Values.{
  Value, null, boolean, integer, negative, floating, text, sequence, mapping, Items, nil, cons,
  Fields, end, field, config_error, type_error, Numbers, Parsed, required, guard, get,
  require_mapping, positive, non_negative, positive_int, bool, bool_default, require_str,
  require_port, or_empty, optional, text_of,
}
use emule_indexer.Settings.Model.{
  BackoffConfig, AmuleEndpoint, NotificationTarget, VerifyConfig, DownloadConfig, PortSyncConfig,
  MetricsConfig, ObservabilityConfig,
}

-- `_LOG_LEVELS`, in the order of the source
abbrev pub log_levels : List Str
log_levels = codes "DEBUG" ∷ codes "INFO" ∷ codes "WARNING" ∷ codes "ERROR" ∷ codes "CRITICAL" ∷ []

-- `Audience(tag_raw)`
abbrev pub audience_of : Str → Parsed Audience
audience_of tag =
    if str_eq tag (codes "community")
    then ok community
    else if str_eq tag (codes "operations")
    then ok operations
    else err config_error

abbrev pub default_keywords : List Str
default_keywords = codes "keroro" ∷ codes "titar" ∷ []

module _ {Float : Type 0} where
  -- A section that is there and enabled; of one that is not enabled nothing else is read.
  abbrev pub section_of :
      {A : Type 0} → (Fields Float → Parsed (Option A)) → Value Float → Parsed (Option A)
  section_of read v = do
    section ← require_mapping v
    enabled ← bool_default (codes "enabled") false section
    if enabled then read section else ok none

module _ {Float : Type 0} (env : Dict Str) where
  -- `_parse_endpoint`
  unfoldable pub parse_endpoint : Fields Float → Parsed AmuleEndpoint
  parse_endpoint fields = do
    name ← require_str env (codes "name") fields
    host ← require_str env (codes "host") fields
    port ← require_port fields
    password ← require_str env (codes "password") fields
    ok (record { name = name; host = host; port = port; password = password })

  -- The loop over the instances, with the names that it has seen.
  unfoldable pub parse_amules : List Str → Items Float → Parsed (List AmuleEndpoint)
  unfolding parse_endpoint
  parse_amules seen nil = ok []
  parse_amules seen (cons entry entries) = do
    fields ← require_mapping entry
    endpoint ← parse_endpoint fields
    _ ← guard (not (any (str_eq endpoint.name) seen))
    endpoints ← parse_amules (endpoint.name ∷ seen) entries
    ok (endpoint ∷ endpoints)

  abbrev pub some_amules : Items Float → Parsed (List AmuleEndpoint)
  some_amules nil = err config_error
  some_amules (cons entry entries) = parse_amules [] (cons entry entries)

  -- A list that is not empty.
  abbrev pub amules_of : Value Float → Parsed (List AmuleEndpoint)
  amules_of (sequence items) = some_amules items
  amules_of null = err config_error
  amules_of (boolean b) = err config_error
  amules_of (integer n) = err config_error
  amules_of (negative n) = err config_error
  amules_of (floating x) = err config_error
  amules_of (text s) = err config_error
  amules_of (mapping fields) = err config_error

  unfoldable pub parse_target : Value Float → Parsed NotificationTarget
  parse_target entry = do
    fields ← require_mapping entry
    tag_raw ← require_str env (codes "tag") fields
    tag ← audience_of tag_raw
    url ← require_str env (codes "url") fields
    ok (record { url = url; tag = tag })

  unfoldable pub parse_targets : Items Float → Parsed (List NotificationTarget)
  unfolding parse_target
  parse_targets nil = ok []
  parse_targets (cons entry entries) = do
    target ← parse_target entry
    targets ← parse_targets entries
    ok (target ∷ targets)

  -- `enumerate(raw.get("notifications", []))`: a loop over a text has its characters, and one
  -- over a mapping its keys, none of which is a mapping.
  abbrev pub targets_of : Value Float → Parsed (List NotificationTarget)
  targets_of (sequence items) = parse_targets items
  targets_of (text []) = ok []
  targets_of (text (c ∷ s)) = err config_error
  targets_of (mapping end) = ok []
  targets_of (mapping (field key value fields)) = err config_error
  targets_of null = err type_error
  targets_of (boolean b) = err type_error
  targets_of (integer n) = err type_error
  targets_of (negative n) = err type_error
  targets_of (floating x) = err type_error

  module _ (numbers : Numbers Float) where
    abbrev pub log_level_of : Value Float → Parsed Str
    log_level_of v = do level ← text_of v; _ ← guard (any (str_eq level) log_levels); ok level

    abbrev pub metrics_of : Value Float → Parsed (Option MetricsConfig)
    metrics_of v = do
      fields ← require_mapping v
      enabled ← bool (codes "enabled") fields
      port ← positive_int (codes "port") fields
      ok (some (record { enabled = enabled; port = port }))

    -- `_parse_observability`
    unfoldable pub parse_observability : Fields Float → Parsed (ObservabilityConfig Float)
    unfolding get
    parse_observability raw = do
      level ← optional (codes "INFO") log_level_of (get (codes "log_level") raw)
      metrics ← optional none metrics_of (get (codes "metrics") raw)
      let timeout_key = codes "notification_timeout_seconds"
      timeout ← optional numbers.five (λ v. positive numbers timeout_key raw) (get timeout_key raw)
      targets ← optional [] targets_of (get (codes "notifications") raw)
      ok (record {
        log_level = level;
        metrics = metrics;
        notification_timeout_seconds = timeout;
        notifications = targets;
      })

    abbrev pub verify_of : Fields Float → Parsed (VerifyConfig Float)
    verify_of raw = do
      interval ← positive numbers (codes "poll_interval_seconds") raw
      let timeout_key = codes "client_timeout_seconds"
      timeout ←
          optional numbers.hundred_eighty (λ v. positive numbers timeout_key raw)
            (get timeout_key raw)
      ok (record { poll_interval_seconds = interval; client_timeout_seconds = timeout })

    unfoldable pub enabled_download : Fields Float → Parsed (Option (DownloadConfig Float))
    unfolding get parse_endpoint
    enabled_download section = do
      endpoint_raw ← required require_mapping (get (codes "endpoint") section)
      verify_raw ← require_mapping (or_empty (get (codes "verify") section))
      interval ← positive numbers (codes "poll_interval_seconds") section
      cap ← positive_int (codes "disk_cap_bytes") section
      endpoint ← parse_endpoint endpoint_raw
      staging ← require_str env (codes "staging_dir") section
      quarantine ← require_str env (codes "quarantine_dir") section
      url ← require_str env (codes "verifier_url") section
      verify ← verify_of verify_raw
      ok (
          some (record {
            poll_interval_seconds = interval;
            disk_cap_bytes = cap;
            endpoint = endpoint;
            staging_dir = staging;
            quarantine_dir = quarantine;
            verifier_url = url;
            verify = verify;
          }))

    unfoldable pub enabled_port_sync : Fields Float → Parsed (Option (PortSyncConfig Float))
    enabled_port_sync section = do
      interval ← positive numbers (codes "poll_interval_seconds") section
      minimum ← positive numbers (codes "restart_min_interval_seconds") section
      control ← require_str env (codes "gluetun_control_url") section
      restarter ← require_str env (codes "restarter_url") section
      ok (
          some (record {
            poll_interval_seconds = interval;
            restart_min_interval_seconds = minimum;
            gluetun_control_url = control;
            restarter_url = restarter;
          }))

    -- `_parse_download` and `_parse_port_sync`
    unfoldable pub parse_download : Fields Float → Parsed (Option (DownloadConfig Float))
    unfolding get enabled_download
    parse_download raw = optional none (section_of enabled_download) (get (codes "download") raw)

    unfoldable pub parse_port_sync : Fields Float → Parsed (Option (PortSyncConfig Float))
    unfolding get enabled_port_sync
    parse_port_sync raw = optional none (section_of enabled_port_sync) (get (codes "port_sync") raw)

module _ {Float : Type 0} (numbers : Numbers Float) where
  unfoldable pub parse_backoff : Fields Float → Parsed (BackoffConfig Float)
  unfolding positive non_negative
  parse_backoff raw = do
    factor ← positive numbers (codes "factor") raw
    _ ← guard (not (numbers.less factor numbers.one))
    base ← positive numbers (codes "base_seconds") raw
    cap ← positive numbers (codes "cap_seconds") raw
    jitter ← non_negative numbers (codes "jitter_ratio") raw
    _ ← guard (not (numbers.less cap base))
    ok (record { base_seconds = base; cap_seconds = cap; factor = factor; jitter_ratio = jitter })
