-- ===== src/Settings/Tests.antt =====
-- A configuration of two instances, over natural numbers.
use emule_indexer.Common.{
  ℕ, ◌≡◌, ◌↔◌, ◌<◌, refl, Bool, true, none, some, List, [], ◌∷◌, ok, err, ltb, leb, arith,
}
use Prim.Native.String.{String}
use emule_indexer.Common.Text.{Str, codes, str_eq}
use emule_indexer.Common.Dict
use emule_indexer.Common.Dict.{Dict}
use emule_indexer.Settings.Interpolation.{interpolate, interpolate_from, reference, take_name}
use emule_indexer.Settings.Templates.{
  Part, literal, variable, render, Fills, LacksOne, interpolate-render,
}
use emule_indexer.Settings.Values.{
  Value, null, integer, text, sequence, mapping, nil, cons, Fields, end, field, Numbers, get,
  number, positive, non_negative, require_str, require_port, positive_int, type_error,
}
use emule_indexer.Settings.Model.{AmuleEndpoint, CrawlerConfig}
use emule_indexer.Settings.Sections.{
  parse_endpoint, parse_amules, parse_backoff, parse_download, parse_port_sync, parse_observability,
}
use emule_indexer.Settings.Crawler.{
  parse_crawler_config, parse_checked, parse_rest, parse_search_keywords,
}
use emule_indexer.Settings.Accepted.{IsCrawler, parse_crawler_config-IsCrawler}
use emule_indexer.Domain.Keywords.{generate_keywords, keywords_from}
use emule_indexer.Search.Tasks.{enqueue, add_name}
use emule_indexer.Search.Pool.{drain, start, turn_at}
use emule_indexer.Search.Progress.{Proceeds}
use emule_indexer.Search.Cycle.{search_all, shuffle_for_cycle}
use emule_indexer.Settings.Running.{instance_names, parse_crawler_config-Proceeds}

abbrev env : Dict Str
env = (codes "PW", codes "s") ∷ []

abbrev parts : List Part
parts = literal (codes "a") ∷ variable (codes "PW") ∷ literal (codes "}") ∷ []

interpolate-render_example :
    ((text : Str) → (interpolate (render parts) env ≡ some text) ↔ Fills env parts text)
    × ((interpolate (render parts) env ≡ none) ↔ LacksOne env parts)
interpolate-render_example =
    interpolate-render env parts ((refl, tt), ((refl, (refl, (refl, tt))), ((refl, tt), tt)))

abbrev numbers : Numbers ℕ
numbers = record {
  of_integer = λ n. some n;
  of_negative = λ n. none;
  zero_value = 0;
  one = 1;
  less = ltb;
  at_most = leb;
  five = 5;
  hundred_eighty = 180;
}

abbrev instance_of : String → Value ℕ
instance_of name = mapping (
    field (codes "name") (text (codes name)) (
      field (codes "host") (text (codes "h")) (
        field (codes "port") (integer 4712) (field (codes "password") (text (codes "${PW}")) end))))

abbrev seconds : List Str → Fields ℕ → Fields ℕ
seconds [] rest = rest
seconds (key ∷ keys) rest = field key (integer 2) (seconds keys rest)

abbrev raw : Fields ℕ
raw =
    field (codes "backoff")
      (mapping (
        seconds
          (codes "factor" ∷ codes "base_seconds" ∷ codes "cap_seconds" ∷ codes "jitter_ratio" ∷ [])
          end))
      (field (codes "amules") (sequence (cons (instance_of "a") (cons (instance_of "b") nil))) (
        field (codes "catalog_db_path") (text (codes "c")) (
          field (codes "local_db_path") (text (codes "l")) (
            seconds
              (codes "keyword_pause_min_seconds"
                ∷ codes "keyword_pause_max_seconds"
                ∷ codes "cycle_interval_seconds"
                ∷ codes "search_poll_budget_seconds"
                ∷ codes "search_poll_interval_seconds"
                ∷ codes "decision_poll_interval_seconds"
                ∷ codes "shutdown_deadline_seconds"
                ∷ [])
              end))))

abbrev endpoint_of : String → AmuleEndpoint
endpoint_of name = record { name = codes name; host = codes "h"; port = 4712; password = codes "s" }

abbrev accepted : CrawlerConfig ℕ
accepted = record {
  cycle_interval_seconds = 2;
  search_poll_budget_seconds = 2;
  search_poll_interval_seconds = 2;
  keyword_pause_min_seconds = 2;
  keyword_pause_max_seconds = 2;
  backoff = record { base_seconds = 2; cap_seconds = 2; factor = 2; jitter_ratio = 2 };
  decision_poll_interval_seconds = 2;
  shutdown_deadline_seconds = 2;
  amules = endpoint_of "a" ∷ endpoint_of "b" ∷ [];
  catalog_db_path = codes "c";
  local_db_path = codes "l";
  node_id = none;
  search_keywords = codes "keroro" ∷ codes "titar" ∷ [];
  observability = none;
  download = none;
  port_sync = none;
}

parsed : parse_crawler_config numbers env raw ≡ ok accepted
unfolding parse_crawler_config parse_checked parse_rest interpolate interpolate_from reference
    take_name get number positive non_negative require_str require_port positive_int parse_endpoint
    parse_amules parse_backoff parse_download parse_port_sync parse_search_keywords str_eq Dict.get
parsed = refl

parse_crawler_config-IsCrawler_example : IsCrawler numbers accepted
parse_crawler_config-IsCrawler_example =
    parse_crawler_config-IsCrawler numbers env raw accepted parsed

-- `a` is in backoff and has refused the first task.
abbrev refused : List (ℕ × Bool)
refused = (0, true) ∷ []

abbrev same_order : Str → List Str → List Str
same_order seed items = items

still_open :
    0
    < (search_all same_order
        (codes "n")
        0
        accepted.search_keywords
        (instance_names accepted.amules)
        refused).shelf.unfinished
unfolding search_all generate_keywords keywords_from shuffle_for_cycle drain start enqueue turn_at
    add_name str_eq
still_open = omega arith

parse_crawler_config-Proceeds_example :
    (place : ℕ) × Proceeds 2 place
      (search_all same_order
        (codes "n")
        0
        accepted.search_keywords
        (instance_names accepted.amules)
        refused).workers
      (search_all same_order
        (codes "n")
        0
        accepted.search_keywords
        (instance_names accepted.amules)
        refused).shelf.queue
parse_crawler_config-Proceeds_example =
    parse_crawler_config-Proceeds numbers env raw accepted same_order (codes "n") 0 refused parsed
      still_open

-- `notifications: null` is no error of the configuration.
abbrev no_targets : Fields ℕ
no_targets = field (codes "notifications") null end

no_targets_raises : parse_observability env numbers no_targets ≡ err type_error
unfolding parse_observability get str_eq
no_targets_raises = refl
