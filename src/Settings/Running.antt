-- ===== src/Settings/Running.antt =====
-- composition/app.py: the search of a crawler whose configuration was let through.
use emule_indexer.Common.{ℕ, ◌<◌, ◌≡◌, Bool, List, map, length, length-map, ok, arith}
use emule_indexer.Common.Text.{Str}
use emule_indexer.Common.Dict.{Dict}
use emule_indexer.Domain.Keywords.{generate_keywords, texts_of}
use emule_indexer.Search.Progress.{Proceeds, drain-Proceeds}
use emule_indexer.Search.Cycle.{shuffle_for_cycle, search_all}
use emule_indexer.Settings.Values.{Fields, Numbers}
use emule_indexer.Settings.Model.{AmuleEndpoint, CrawlerConfig}
use emule_indexer.Settings.Crawler.{parse_crawler_config}
use emule_indexer.Settings.Accepted.{parse_crawler_config-IsCrawler}

-- The workers are named for the instances of the configuration.
abbrev pub instance_names : List AmuleEndpoint → List Str
instance_names amules = map (λ e. e.name) amules

-- With the instances and the keywords of a configuration that parse_crawler_config returns, and
-- while a task is not done, some worker has a turn in which it does something that is no repeated
-- refusal.
pub parse_crawler_config-Proceeds :
    {Float : Type 0} (numbers : Numbers Float) (env : Dict Str) (raw : Fields Float)
    (config : CrawlerConfig Float) (shuffled : Str → List Str → List Str) (node_id : Str)
    (cycle_index : ℕ) (schedule : List (ℕ × Bool))
    → parse_crawler_config numbers env raw ≡ ok config
    → 0
      < (search_all shuffled node_id cycle_index config.search_keywords
          (instance_names config.amules)
          schedule).shelf.unfinished
    → (place : ℕ) × Proceeds
        (length (instance_names config.amules))
        place
        (search_all shuffled node_id cycle_index config.search_keywords
          (instance_names config.amules)
          schedule).workers
        (search_all shuffled node_id cycle_index config.search_keywords
          (instance_names config.amules)
          schedule).shelf.queue
unfolding search_all
parse_crawler_config-Proceeds numbers env raw config shuffled node_id cycle_index schedule parsed
      open_tasks =
    let valid = parse_crawler_config-IsCrawler numbers env raw config parsed in
    drain-Proceeds (instance_names config.amules)
      (shuffle_for_cycle shuffled node_id cycle_index
        (texts_of (generate_keywords config.search_keywords)))
      schedule (valid.amules.0).distinct
      (omega (arith, valid.amules.1, length-map (λ (e : AmuleEndpoint). e.name) config.amules))
      open_tasks
