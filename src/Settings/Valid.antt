-- ===== src/Settings/Valid.antt =====
-- What the sections promise that their parsers have let through.
use emule_indexer.Common.{
  ◌<◌, ◌≡◌, refl, ◌⊎◌, inl, inr, true, false, Option, none, some, ok, if◌then◌else◌, Holds,
  Holds->>=, Holds-after, Holds-imp,
}
use emule_indexer.Common.Text.{Str, codes}
use emule_indexer.Common.Dict.{Dict}
use emule_indexer.Settings.Values.{
  Value, Fields, Numbers, Parsed, required, get, require_mapping, positive, optional, bool_default,
  or_empty,
}
use emule_indexer.Settings.Model.{VerifyConfig, BackoffConfig, DownloadConfig, PortSyncConfig}
use emule_indexer.Settings.Sections.{
  parse_backoff, section_of, verify_of, enabled_download, enabled_port_sync, parse_download,
  parse_port_sync,
}
use emule_indexer.Settings.Readers.{
  IsNonempty, IsEndpoint, positive_int-Holds, parse_endpoint-Holds, IsPositive, positive-Holds,
  then_positive, then_text, guard-not, non_negative-Holds, optional-Holds,
}

-- What holds of a value, if there is one.
abbrev pub OfSome {ℓ κ} : {A : Type ℓ} → (A → Type κ) → Option A → Type κ
OfSome P none = Unit
OfSome P (some a) = P a

module _ {Float : Type 0} (numbers : Numbers Float) where
  pub record IsBackoff (b : BackoffConfig Float) : Type 0 where
    pub base : IsPositive numbers b.base_seconds
    pub cap : IsPositive numbers b.cap_seconds
    pub factor : IsPositive numbers b.factor
    pub grows : numbers.less b.factor numbers.one ≡ false
    pub capped : numbers.less b.cap_seconds b.base_seconds ≡ false
    pub jitter : numbers.less b.jitter_ratio numbers.zero_value ≡ false

  pub record IsPortSync (p : PortSyncConfig Float) : Type 0 where
    pub interval : IsPositive numbers p.poll_interval_seconds
    pub minimum : IsPositive numbers p.restart_min_interval_seconds
    pub control : IsNonempty p.gluetun_control_url
    pub restarter : IsNonempty p.restarter_url

  pub parse_backoff-Holds : (fields : Fields Float) → Holds IsBackoff (parse_backoff numbers fields)
  unfolding parse_backoff
  parse_backoff-Holds fields = then_positive numbers IsBackoff (codes "factor") fields _ (λ f p.
      guard-not IsBackoff (numbers.less f numbers.one) _ (λ grows.
        then_positive numbers IsBackoff (codes "base_seconds") fields _ (λ b q.
          then_positive numbers IsBackoff (codes "cap_seconds") fields _ (λ c r.
            Holds->>= (λ x. numbers.less x numbers.zero_value ≡ false) IsBackoff _ _
              (non_negative-Holds numbers (codes "jitter_ratio") fields)
              (λ j n. guard-not IsBackoff (numbers.less c b) _ (λ capped. record {
                base = q;
                cap = r;
                factor = p;
                grows = grows;
                capped = capped;
                jitter = n;
              }))))))

  section_of-Holds :
      {A : Type 0} (P : A → Type 0) (read : Fields Float → Parsed (Option A)) (v : Value Float)
      → ((section : Fields Float) → Holds (OfSome P) (read section))
      → Holds (OfSome P) (section_of read v)
  section_of-Holds P read v h = Holds-after (OfSome P) (require_mapping v) _ (λ section.
      Holds-after (OfSome P) (bool_default (codes "enabled") false section)
        (λ enabled. if enabled then read section else ok none)
        (λ enabled. elim enabled as (λ b. Holds (OfSome P) (if b then read section else ok none)) [
          | true ↦ h section
          | false ↦ tt
        ]))

  -- A timeout that may be left out is its default or positive.
  abbrev pub IsTimeout : Float → Float → Type 0
  IsTimeout default x = (x ≡ default) ⊎ IsPositive numbers x

  pub optional-IsTimeout :
      (default : Float) (key : Str) (raw : Fields Float)
      → Holds (IsTimeout default) (optional default (λ v. positive numbers key raw) (get key raw))
  optional-IsTimeout default key raw =
      optional-Holds (IsTimeout default) (λ v. positive numbers key raw) (get key raw) (inl refl)
        (λ v.
          Holds-imp (IsPositive numbers) (IsTimeout default) (positive numbers key raw)
            (λ x p. inr p) (positive-Holds numbers key raw))

  pub record IsVerify (v : VerifyConfig Float) : Type 0 where
    pub interval : IsPositive numbers v.poll_interval_seconds
    pub timeout : IsTimeout numbers.hundred_eighty v.client_timeout_seconds

  verify_of-Holds :
      (env : Dict Str) (raw : Fields Float) → Holds IsVerify (verify_of env numbers raw)
  unfolding get
  verify_of-Holds env raw =
      then_positive numbers IsVerify (codes "poll_interval_seconds") raw _ (λ x p.
        Holds->>= (IsTimeout numbers.hundred_eighty) IsVerify _ _
          (optional-IsTimeout numbers.hundred_eighty (codes "client_timeout_seconds") raw)
          (λ timeout q. record { interval = p; timeout = q }))

  pub record IsDownload (d : DownloadConfig Float) : Type 0 where
    pub interval : IsPositive numbers d.poll_interval_seconds
    pub cap : 0 < d.disk_cap_bytes
    pub endpoint : IsEndpoint d.endpoint
    pub staging : IsNonempty d.staging_dir
    pub quarantine : IsNonempty d.quarantine_dir
    pub url : IsNonempty d.verifier_url
    pub verify : IsVerify d.verify

  enabled_download-Holds :
      (env : Dict Str) (raw : Fields Float)
      → Holds (OfSome IsDownload) (enabled_download env numbers raw)
  unfolding enabled_download
  enabled_download-Holds env raw =
      let P = OfSome IsDownload in
      Holds-after P (required require_mapping (get (codes "endpoint") raw)) _ (λ endpoint_raw.
        Holds-after P (require_mapping (or_empty (get (codes "verify") raw))) _ (λ verify_raw.
          then_positive numbers P (codes "poll_interval_seconds") raw _ (λ x p.
            Holds->>= (λ n. 0 < n) P _ _ (positive_int-Holds (codes "disk_cap_bytes") raw)
              (λ cap c.
                Holds->>= IsEndpoint P _ _ (parse_endpoint-Holds env endpoint_raw) (λ e valid.
                  then_text P env (codes "staging_dir") raw _ (λ staging s.
                    then_text P env (codes "quarantine_dir") raw _ (λ quarantine q.
                      then_text P env (codes "verifier_url") raw _ (λ url u.
                        Holds->>= IsVerify P _ _ (verify_of-Holds env verify_raw) (λ verify v.
                          record {
                            interval = p;
                            cap = c;
                            endpoint = valid;
                            staging = s;
                            quarantine = q;
                            url = u;
                            verify = v;
                          })))))))))

  enabled_port_sync-Holds :
      (env : Dict Str) (raw : Fields Float)
      → Holds (OfSome IsPortSync) (enabled_port_sync env numbers raw)
  unfolding enabled_port_sync
  enabled_port_sync-Holds env raw =
      let P = OfSome IsPortSync in
      then_positive numbers P (codes "poll_interval_seconds") raw _ (λ x p.
        then_positive numbers P (codes "restart_min_interval_seconds") raw _ (λ y q.
          then_text P env (codes "gluetun_control_url") raw _ (λ control c.
            then_text P env (codes "restarter_url") raw _
              (λ restarter r. record { interval = p; minimum = q; control = c; restarter = r }))))

  pub parse_download-Holds :
      (env : Dict Str) (raw : Fields Float)
      → Holds (OfSome IsDownload) (parse_download env numbers raw)
  unfolding parse_download
  parse_download-Holds env raw =
      optional-Holds (OfSome IsDownload) (section_of (enabled_download env numbers))
        (get (codes "download") raw) tt
        (λ v.
          section_of-Holds IsDownload (enabled_download env numbers) v (enabled_download-Holds env))

  pub parse_port_sync-Holds :
      (env : Dict Str) (raw : Fields Float)
      → Holds (OfSome IsPortSync) (parse_port_sync env numbers raw)
  unfolding parse_port_sync
  parse_port_sync-Holds env raw =
      optional-Holds (OfSome IsPortSync) (section_of (enabled_port_sync env numbers))
        (get (codes "port_sync") raw) tt
        (λ v.
          section_of-Holds IsPortSync (enabled_port_sync env numbers) v
            (enabled_port_sync-Holds env))
