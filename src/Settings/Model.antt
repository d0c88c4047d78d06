-- ===== src/Settings/Model.antt =====
-- crawler_config.py: the records of a configuration.
use emule_indexer.Common.{ℕ, Bool, Option, List}
use emule_indexer.Common.Text.{Str}
use emule_indexer.Observability.Policy.{Audience}

pub record BackoffConfig (Float : Type 0) : Type 0 where
  pub base_seconds : Float
  pub cap_seconds : Float
  pub factor : Float
  pub jitter_ratio : Float

pub record AmuleEndpoint : Type 0 where
  pub name : Str
  pub host : Str
  pub port : ℕ
  pub password : Str

pub record NotificationTarget : Type 0 where
  pub url : Str
  pub tag : Audience

pub record VerifyConfig (Float : Type 0) : Type 0 where
  pub poll_interval_seconds : Float
  pub client_timeout_seconds : Float

pub record DownloadConfig (Float : Type 0) : Type 0 where
  pub poll_interval_seconds : Float
  pub disk_cap_bytes : ℕ
  pub endpoint : AmuleEndpoint
  pub staging_dir : Str
  pub quarantine_dir : Str
  pub verifier_url : Str
  pub verify : VerifyConfig Float

pub record PortSyncConfig (Float : Type 0) : Type 0 where
  pub poll_interval_seconds : Float
  pub restart_min_interval_seconds : Float
  pub gluetun_control_url : Str
  pub restarter_url : Str

pub record MetricsConfig : Type 0 where
  pub enabled : Bool
  pub port : ℕ

pub record ObservabilityConfig (Float : Type 0) : Type 0 where
  pub log_level : Str
  pub metrics : Option MetricsConfig
  pub notification_timeout_seconds : Float
  pub notifications : List NotificationTarget

pub record CrawlerConfig (Float : Type 0) : Type 0 where
  pub cycle_interval_seconds : Float
  pub search_poll_budget_seconds : Float
  pub search_poll_interval_seconds : Float
  pub keyword_pause_min_seconds : Float
  pub keyword_pause_max_seconds : Float
  pub backoff : BackoffConfig Float
  pub decision_poll_interval_seconds : Float
  pub shutdown_deadline_seconds : Float
  pub amules : List AmuleEndpoint
  pub catalog_db_path : Str
  pub local_db_path : Str
  pub node_id : Option Str
  pub search_keywords : List Str
  pub observability : Option (ObservabilityConfig Float)
  pub download : Option (DownloadConfig Float)
  pub port_sync : Option (PortSyncConfig Float)
