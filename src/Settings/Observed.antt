-- ===== src/Settings/Observed.antt =====
-- What the section `observability` promises that its parser has let through.
use emule_indexer.Common.{
  ◌<◌, ◌≡◌, refl, true, [], ◌∷◌, ok, any, All, Holds, Holds->>=, Holds-after,
}
use emule_indexer.Common.Text.{Str, str_eq, codes}
use emule_indexer.Common.Dict.{Dict}
use emule_indexer.Settings.Values.{
  Value, null, boolean, integer, negative, floating, text, sequence, mapping, Items, nil, cons,
  Fields, end, field, Numbers, get, require_mapping, bool, text_of,
}
use emule_indexer.Settings.Model.{ObservabilityConfig, MetricsConfig, NotificationTarget}
use emule_indexer.Settings.Sections.{
  log_levels, log_level_of, metrics_of, audience_of, parse_target, parse_targets, targets_of,
  parse_observability,
}
use emule_indexer.Settings.Crawler.{observability_of}
use emule_indexer.Settings.Readers.{
  IsNonempty, guard-Holds, positive_int-Holds, then_text, optional-Holds,
}
use emule_indexer.Settings.Valid.{OfSome, IsTimeout, optional-IsTimeout}

-- A level that logging knows.
abbrev pub IsLevel : Str → Type 0
IsLevel level = any (str_eq level) log_levels ≡ true

abbrev pub IsMetrics : MetricsConfig → Type 0
IsMetrics m = 0 < m.port

abbrev pub IsTarget : NotificationTarget → Type 0
IsTarget t = IsNonempty t.url

module _ {Float : Type 0} (numbers : Numbers Float) where
  pub record IsObservability (o : ObservabilityConfig Float) : Type 0 where
    pub level : IsLevel o.log_level
    pub metrics : OfSome IsMetrics o.metrics
    pub timeout : IsTimeout numbers numbers.five o.notification_timeout_seconds
    pub targets : All IsTarget o.notifications

  module _ (env : Dict Str) where
    parse_target-Holds : (entry : Value Float) → Holds IsTarget (parse_target env entry)
    unfolding parse_target
    parse_target-Holds entry = Holds-after IsTarget (require_mapping entry) _ (λ fields.
        then_text IsTarget env (codes "tag") fields _ (λ tag_raw n.
          Holds-after IsTarget (audience_of tag_raw) _
            (λ tag. then_text IsTarget env (codes "url") fields _ (λ url some_url. some_url))))

    parse_targets-Holds : (entries : Items Float) → Holds (All IsTarget) (parse_targets env entries)
    unfolding parse_targets
    parse_targets-Holds nil = tt
    parse_targets-Holds (cons entry entries) =
        Holds->>= IsTarget (All IsTarget) _ _ (parse_target-Holds entry) (λ t first.
          Holds->>= (All IsTarget) (All IsTarget) _ _ (parse_targets-Holds entries)
            (λ ts rest. (first, rest)))

    targets_of-Holds : (v : Value Float) → Holds (All IsTarget) (targets_of env v)
    targets_of-Holds (sequence items) = parse_targets-Holds items
    targets_of-Holds (text []) = tt
    targets_of-Holds (text (c ∷ s)) = tt
    targets_of-Holds (mapping end) = tt
    targets_of-Holds (mapping (field key value fields)) = tt
    targets_of-Holds null = tt
    targets_of-Holds (boolean b) = tt
    targets_of-Holds (integer n) = tt
    targets_of-Holds (negative n) = tt
    targets_of-Holds (floating x) = tt

    log_level_of-Holds : (v : Value Float) → Holds IsLevel (log_level_of env numbers v)
    log_level_of-Holds v = Holds-after IsLevel (text_of v) _ (λ level.
        Holds->>= (λ done. IsLevel level) IsLevel _ (λ done. ok level)
          (guard-Holds (any (str_eq level) log_levels)) (λ done known. known))

    metrics_of-Holds : (v : Value Float) → Holds (OfSome IsMetrics) (metrics_of env numbers v)
    metrics_of-Holds v = Holds-after (OfSome IsMetrics) (require_mapping v) _ (λ fields.
        Holds-after (OfSome IsMetrics) (bool (codes "enabled") fields) _ (λ enabled.
          Holds->>= (λ n. 0 < n) (OfSome IsMetrics) _ _ (positive_int-Holds (codes "port") fields)
            (λ port p. p)))

    default-IsLevel : IsLevel (codes "INFO")
    unfolding str_eq
    default-IsLevel = refl

    parse_observability-Holds :
        (raw : Fields Float) → Holds IsObservability (parse_observability env numbers raw)
    unfolding parse_observability
    parse_observability-Holds raw =
        let P = IsObservability in
        Holds->>= IsLevel P _ _
          (optional-Holds IsLevel (log_level_of env numbers) (get (codes "log_level") raw)
            default-IsLevel log_level_of-Holds)
          (λ level l.
            Holds->>= (OfSome IsMetrics) P _ _
              (optional-Holds (OfSome IsMetrics) (metrics_of env numbers)
                (get (codes "metrics") raw) tt metrics_of-Holds)
              (λ metrics m.
                Holds->>= (IsTimeout numbers numbers.five) P _ _
                  (optional-IsTimeout numbers numbers.five (codes "notification_timeout_seconds")
                    raw)
                  (λ timeout t.
                    Holds->>= (All IsTarget) P _ _
                      (optional-Holds (All IsTarget) (targets_of env)
                        (get (codes "notifications") raw) tt targets_of-Holds)
                      (λ targets ts. record {
                        level = l;
                        metrics = m;
                        timeout = t;
                        targets = ts;
                      }))))

    pub observability_of-Holds :
        (v : Value Float) → Holds (OfSome IsObservability) (observability_of numbers env v)
    observability_of-Holds v = Holds-after (OfSome IsObservability) (require_mapping v) _ (λ fields.
        Holds->>= IsObservability (OfSome IsObservability) _ _ (parse_observability-Holds fields)
          (λ o valid. valid))
