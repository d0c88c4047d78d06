-- ===== src/Settings/Crawler.antt =====
-- crawler_config.py: the parser of the configuration.
use emule_indexer.Common.{not, Option, none, some, List, [], ◌∷◌, ok, err, ◌>>=◌}
use emule_indexer.Common.Text.{Str, codes}
use emule_indexer.Common.Dict.{Dict}
use emule_indexer.Settings.Values.{
  Value, null, boolean, integer, negative, floating, text, sequence, mapping, Items, nil, cons,
  Fields, config_error, Numbers, Parsed, required, guard, get, require_mapping, positive,
  require_str, or_empty, optional, not_empty, text_of,
}
use emule_indexer.Settings.Model.{BackoffConfig, AmuleEndpoint, ObservabilityConfig, CrawlerConfig}
use emule_indexer.Settings.Sections.{
  parse_amules, amules_of, parse_observability, parse_download, parse_port_sync, parse_backoff,
  default_keywords,
}

-- `_parse_search_keywords`: the entries of the list.
unfoldable pub parse_keywords : {Float : Type 0} → Items Float → Parsed (List Str)
parse_keywords nil = ok []
parse_keywords (cons entry entries) = do
  s ← text_of entry
  keyword ← not_empty s
  keywords ← parse_keywords entries
  ok (keyword ∷ keywords)

abbrev pub some_keywords : {Float : Type 0} → Items Float → Parsed (List Str)
some_keywords nil = err config_error
some_keywords (cons entry entries) = parse_keywords (cons entry entries)

abbrev pub keywords_of : {Float : Type 0} → Value Float → Parsed (List Str)
keywords_of (sequence items) = some_keywords items
keywords_of null = err config_error
keywords_of (boolean b) = err config_error
keywords_of (integer n) = err config_error
keywords_of (negative n) = err config_error
keywords_of (floating x) = err config_error
keywords_of (text s) = err config_error
keywords_of (mapping fields) = err config_error

abbrev pub search_of : {Float : Type 0} → Value Float → Parsed (List Str)
search_of v = do
  section ← require_mapping v
  optional default_keywords keywords_of (get (codes "keywords") section)

unfoldable pub parse_search_keywords : {Float : Type 0} → Fields Float → Parsed (List Str)
unfolding get parse_keywords
parse_search_keywords raw = optional default_keywords search_of (get (codes "search") raw)

-- `node_id`: a text that is not empty, which is not interpolated, or nothing.
abbrev pub node_id_of : {Float : Type 0} → Option (Value Float) → Parsed (Option Str)
node_id_of none = ok none
node_id_of (some null) = ok none
node_id_of (some (text [])) = err config_error
node_id_of (some (text (c ∷ s))) = ok (some (c ∷ s))
node_id_of (some (boolean b)) = err config_error
node_id_of (some (integer n)) = err config_error
node_id_of (some (negative n)) = err config_error
node_id_of (some (floating x)) = err config_error
node_id_of (some (sequence items)) = err config_error
node_id_of (some (mapping fields)) = err config_error

-- The values that parse_crawler_config has checked before it reads the others.
pub record Checked (Float : Type 0) : Type 0 where
  pub backoff : BackoffConfig Float
  pub pause_min : Float
  pub pause_max : Float
  pub amules : List AmuleEndpoint
  pub node_id : Option Str
  pub observability : Option (ObservabilityConfig Float)

module _ {Float : Type 0} (numbers : Numbers Float) (env : Dict Str) where
  abbrev pub observability_of : Value Float → Parsed (Option (ObservabilityConfig Float))
  observability_of v = do
    fields ← require_mapping v
    observability ← parse_observability env numbers fields
    ok (some observability)

  unfoldable pub parse_checked : Fields Float → Parsed (Checked Float)
  unfolding get positive parse_amules parse_backoff parse_observability
  parse_checked raw = do
    backoff_raw ← require_mapping (or_empty (get (codes "backoff") raw))
    backoff ← parse_backoff numbers backoff_raw
    pause_min ← positive numbers (codes "keyword_pause_min_seconds") raw
    pause_max ← positive numbers (codes "keyword_pause_max_seconds") raw
    _ ← guard (not (numbers.less pause_max pause_min))
    amules ← required (amules_of env) (get (codes "amules") raw)
    node_id ← node_id_of (get (codes "node_id") raw)
    observability ← optional none observability_of (get (codes "observability") raw)
    ok (record {
      backoff = backoff;
      pause_min = pause_min;
      pause_max = pause_max;
      amules = amules;
      node_id = node_id;
      observability = observability;
    })

  -- The arguments of `CrawlerConfig(...)`, in their order.
  unfoldable pub parse_rest : Fields Float → Checked Float → Parsed (CrawlerConfig Float)
  unfolding positive parse_search_keywords parse_download parse_port_sync
  parse_rest raw checked = do
    cycle ← positive numbers (codes "cycle_interval_seconds") raw
    budget ← positive numbers (codes "search_poll_budget_seconds") raw
    interval ← positive numbers (codes "search_poll_interval_seconds") raw
    decision ← positive numbers (codes "decision_poll_interval_seconds") raw
    deadline ← positive numbers (codes "shutdown_deadline_seconds") raw
    catalog ← require_str env (codes "catalog_db_path") raw
    local ← require_str env (codes "local_db_path") raw
    keywords ← parse_search_keywords raw
    download ← parse_download env numbers raw
    port_sync ← parse_port_sync env numbers raw
    ok (record {
      cycle_interval_seconds = cycle;
      search_poll_budget_seconds = budget;
      search_poll_interval_seconds = interval;
      keyword_pause_min_seconds = checked.pause_min;
      keyword_pause_max_seconds = checked.pause_max;
      backoff = checked.backoff;
      decision_poll_interval_seconds = decision;
      shutdown_deadline_seconds = deadline;
      amules = checked.amules;
      catalog_db_path = catalog;
      local_db_path = local;
      node_id = checked.node_id;
      search_keywords = keywords;
      observability = checked.observability;
      download = download;
      port_sync = port_sync;
    })

  unfoldable pub parse_crawler_config : Fields Float → Parsed (CrawlerConfig Float)
  unfolding parse_checked parse_rest
  parse_crawler_config raw = parse_checked raw >>= parse_rest raw
