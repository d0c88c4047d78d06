-- ===== src/Settings/Accepted.antt =====
-- What a configuration promises that parse_crawler_config has let through.
use emule_indexer.Common.{◌≡◌, false, ok, Holds, Holds->>=, Holds-after, Holds-ok}
use emule_indexer.Common.Text.{Str, codes}
use emule_indexer.Common.Dict.{Dict}
use emule_indexer.Settings.Values.{Fields, Numbers, get, require_mapping, or_empty}
use emule_indexer.Settings.Model.{CrawlerConfig}
use emule_indexer.Settings.Sections.{amules_of}
use emule_indexer.Settings.Crawler.{
  parse_crawler_config, Checked, parse_checked, parse_rest, observability_of,
}
use emule_indexer.Settings.Readers.{
  IsNonempty, required-Holds, optional-Holds, IsPositive, then_positive, then_text, guard-not,
}
use emule_indexer.Settings.Pool.{ArePool, amules_of-Holds}
use emule_indexer.Settings.Valid.{
  OfSome, IsBackoff, IsDownload, IsPortSync, parse_backoff-Holds, parse_download-Holds,
  parse_port_sync-Holds,
}
use emule_indexer.Settings.Observed.{IsObservability, observability_of-Holds}
use emule_indexer.Settings.Searched.{
  AreKeywords, parse_search_keywords-AreKeywords, node_id_of-Holds,
}

module _ {Float : Type 0} (numbers : Numbers Float) where
  pub record IsCrawler (c : CrawlerConfig Float) : Type 0 where
    pub backoff : IsBackoff numbers c.backoff
    pub amules : ArePool c.amules
    pub pause_min : IsPositive numbers c.keyword_pause_min_seconds
    pub pause_max : IsPositive numbers c.keyword_pause_max_seconds
    pub pauses : numbers.less c.keyword_pause_max_seconds c.keyword_pause_min_seconds ≡ false
    pub cycle : IsPositive numbers c.cycle_interval_seconds
    pub budget : IsPositive numbers c.search_poll_budget_seconds
    pub interval : IsPositive numbers c.search_poll_interval_seconds
    pub decision : IsPositive numbers c.decision_poll_interval_seconds
    pub deadline : IsPositive numbers c.shutdown_deadline_seconds
    pub catalog : IsNonempty c.catalog_db_path
    pub local_db : IsNonempty c.local_db_path
    pub node : OfSome IsNonempty c.node_id
    pub keywords : AreKeywords c.search_keywords
    pub observability : OfSome (IsObservability numbers) c.observability
    pub download : OfSome (IsDownload numbers) c.download
    pub port_sync : OfSome (IsPortSync numbers) c.port_sync

  -- What holds of the values that were checked first.
  record IsChecked (c : Checked Float) : Type 0 where
    backoff : IsBackoff numbers c.backoff
    pause_min : IsPositive numbers c.pause_min
    pause_max : IsPositive numbers c.pause_max
    pauses : numbers.less c.pause_max c.pause_min ≡ false
    amules : ArePool c.amules
    node : OfSome IsNonempty c.node_id
    observability : OfSome (IsObservability numbers) c.observability

  module _ (env : Dict Str) (raw : Fields Float) where
    parse_checked-Holds : Holds IsChecked (parse_checked numbers env raw)
    unfolding parse_checked
    parse_checked-Holds =
        let P = IsChecked in
        Holds-after P (require_mapping (or_empty (get (codes "backoff") raw))) _ (λ fields.
          Holds->>= (IsBackoff numbers) P _ _ (parse_backoff-Holds numbers fields) (λ backoff b.
            then_positive numbers P (codes "keyword_pause_min_seconds") raw _ (λ pmin m.
              then_positive numbers P (codes "keyword_pause_max_seconds") raw _ (λ pmax n.
                guard-not P (numbers.less pmax pmin) _ (λ pauses.
                  Holds->>= ArePool P _ _
                    (required-Holds ArePool (amules_of env) (get (codes "amules") raw)
                      (amules_of-Holds env))
                    (λ amules a.
                      Holds->>= (OfSome IsNonempty) P _ _
                        (node_id_of-Holds (get (codes "node_id") raw))
                        (λ node i.
                          Holds->>= (OfSome (IsObservability numbers)) P _ _
                            (optional-Holds (OfSome (IsObservability numbers))
                              (observability_of numbers env) (get (codes "observability") raw) tt
                              (observability_of-Holds numbers env))
                            (λ o valid. record {
                              backoff = b;
                              pause_min = m;
                              pause_max = n;
                              pauses = pauses;
                              amules = a;
                              node = i;
                              observability = valid;
                            }))))))))

    parse_rest-Holds :
        (c : Checked Float) → IsChecked c → Holds IsCrawler (parse_rest numbers env raw c)
    unfolding parse_rest
    parse_rest-Holds c valid =
        let P = IsCrawler in
        then_positive numbers P (codes "cycle_interval_seconds") raw _ (λ x cycle.
          then_positive numbers P (codes "search_poll_budget_seconds") raw _ (λ x budget.
            then_positive numbers P (codes "search_poll_interval_seconds") raw _ (λ x interval.
              then_positive numbers P (codes "decision_poll_interval_seconds") raw _ (λ x decision.
                then_positive numbers P (codes "shutdown_deadline_seconds") raw _ (λ x deadline.
                  then_text P env (codes "catalog_db_path") raw _ (λ x catalog.
                    then_text P env (codes "local_db_path") raw _ (λ x local.
                      Holds->>= AreKeywords P _ _ (parse_search_keywords-AreKeywords raw) (λ x k.
                        Holds->>= (OfSome (IsDownload numbers)) P _ _
                          (parse_download-Holds numbers env raw)
                          (λ x d.
                            Holds->>= (OfSome (IsPortSync numbers)) P _ _
                              (parse_port_sync-Holds numbers env raw)
                              (λ x s. record {
                                backoff = valid.backoff;
                                amules = valid.amules;
                                pause_min = valid.pause_min;
                                pause_max = valid.pause_max;
                                pauses = valid.pauses;
                                node = valid.node;
                                observability = valid.observability;
                                cycle = cycle;
                                budget = budget;
                                interval = interval;
                                decision = decision;
                                deadline = deadline;
                                catalog = catalog;
                                local_db = local;
                                keywords = k;
                                download = d;
                                port_sync = s;
                              }))))))))))

    parse_crawler_config-Holds : Holds IsCrawler (parse_crawler_config numbers env raw)
    unfolding parse_crawler_config
    parse_crawler_config-Holds =
        Holds->>= IsChecked IsCrawler _ (parse_rest numbers env raw) parse_checked-Holds
          parse_rest-Holds

  -- A configuration that parse_crawler_config returns is valid: it has an instance, the names of
  -- the instances differ and their ports are in range; there is a keyword and none is empty; no
  -- duration that is required is at most zero; the cap of the backoff is not below its base, nor the
  -- longest pause below the shortest. In the sections that are there and enabled likewise no
  -- required duration is at most zero, and each of the two timeouts that may be left out is its
  -- default or not at most zero.
  pub parse_crawler_config-IsCrawler :
      (env : Dict Str) (raw : Fields Float) (config : CrawlerConfig Float)
      → parse_crawler_config numbers env raw ≡ ok config
      → IsCrawler config
  parse_crawler_config-IsCrawler env raw config e =
      Holds-ok IsCrawler (parse_crawler_config numbers env raw) (parse_crawler_config-Holds env raw)
        e
