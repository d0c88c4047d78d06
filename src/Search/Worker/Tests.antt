-- ===== src/Search/Worker/Tests.antt =====
-- A worker whose instance is up, and one whose instance is down for good; seconds are numbers.
use emule_indexer.Common.{
  ℕ, ◌+◌, ◌*◌, ◌^◌, ◌≡◌, refl, true, false, none, some, List, [], ◌∷◌, ok, err, ltb, if◌then◌else◌,
  arith,
}
use Prim.Native.Nat.{min}
use emule_indexer.Common.Text.{Str, codes, str_eq, str_lt}
use emule_indexer.Common.Dict.{Dict, get, put}
use emule_indexer.Matching.Sample.{ascii}
use emule_indexer.Matching.Config.{download}
use emule_indexer.Matching.Engine.{MatchDecision, to_record}
use emule_indexer.Search.Tasks.{SearchTask, kad, new_task}
use emule_indexer.Search.Backoff.{
  Timing, ChannelBackoff, WorkerPolicy, is_in_backoff, record_failure, pop,
}
use emule_indexer.Search.Backoff.Laws.{
  Report, failure, success, report_all, attempts_of, failures_in_row, report_all-failures_in_row,
}
use emule_indexer.Search.World
use emule_indexer.Search.World.{State, FileObservation, overflow_error}
use emule_indexer.Search.Observing.{record_observation}
use emule_indexer.Search.Verdicts.{Recorded, record_observation-Recorded}
use emule_indexer.Search.Worker.{poll, run_task, channel_key}
use emule_indexer.Search.Worker.Polling.{CameToEnd, poll-CameToEnd}
use emule_indexer.Search.Worker.Overflow.{run_task_overflow}

abbrev timing : Timing ℕ
timing = record {
  zero_seconds = 0;
  less = ltb;
  minimum = min;
  plus = λ a b. a + b;
  times = λ a b. a * b;
  power = λ x n. if ltb (x ^ n) 1000 then some (x ^ n) else none;
  Time = ℕ;
  later = λ now delay. now + delay;
  iso = λ now. now ∷ [];
}

abbrev policy : WorkerPolicy ℕ
policy = record {
  backoff_base_seconds = 5;
  backoff_cap_seconds = 60;
  backoff_factor = 2;
  backoff_jitter_ratio = 0;
  poll_budget_seconds = 10;
  poll_interval_seconds = 4;
}

abbrev verdict : MatchDecision ascii
verdict = record {
  target_id = codes "t";
  rule_name = codes "r";
  tier = download;
  explanation = record {
    target_id = codes "t";
    rules_fired = [];
    tokens_matched = [];
    coverage_values = [];
  };
}

abbrev seen : FileObservation
seen = record {
  ed2k_hash = codes "0123456789abcdef0123456789abcdef";
  filename = codes "keroro 01.avi";
  size_bytes = 1048576;
  media_length_sec = none;
  bitrate_kbps = some 128;
}

-- An instance that answers, with the file in its results twice.
abbrev up : World.World ascii timing
up = record {
  now = λ n. 100 + n;
  jitter = λ n span. span;
  connects = λ n. true;
  start_search = λ n keyword channel. ok tt;
  search_progress = λ n. ok (some 40);
  fetch_results = λ n. ok (seen ∷ seen ∷ []);
  repository_fails = λ n. false;
  evaluate = λ candidate. some verdict;
}

abbrev down : World.World ascii timing
down = record up { connects = λ n. false }

abbrev failed_before : ℕ → Dict ChannelBackoff
failed_before n = (codes "a", record { attempts = n; retry_after = 50 ∷ [] }) ∷ []

abbrev idle : ℕ → State ascii
idle n = record {
  backoff = failed_before n;
  connected = false;
  observations = [];
  decisions = [];
  signals = [];
  events = [];
  calls = 0;
}

abbrev task : SearchTask
task = new_task (codes "keroro") kad

-- Of two equal verdicts one is written, and the connection clears the instance.
searched_twice :
    (run_task ascii timing policy up (codes "a") 5 task (idle 2)).1.decisions
    ≡ (seen.ed2k_hash, verdict) ∷ []
unfolding run_task record_observation pop is_in_backoff str_lt str_eq poll get to_record
searched_twice = refl

third_failure :
    (run_task ascii timing policy down (codes "a") 5 task (idle 2)).1.backoff
    ≡ (codes "a", record { attempts = 3; retry_after = 124 ∷ [] }) ∷ []
unfolding run_task record_failure is_in_backoff str_lt str_eq get put
third_failure = refl

record_observation-Recorded_example :
    Recorded ascii timing up seen
      (idle 2)
      (record_observation ascii timing up (codes "kad") seen (idle 2))
record_observation-Recorded_example =
    record_observation-Recorded ascii timing up (codes "kad") seen (idle 2)

poll-CameToEnd_example :
    CameToEnd ascii timing policy up
      (codes "a")
      (poll ascii timing policy up (codes "a") 4 0 (idle 2)).0
poll-CameToEnd_example = poll-CameToEnd ascii timing policy up (codes "a") 3 0 (idle 2) refl

-- 2 to the power of 10 is no number here.
instance_free : is_in_backoff timing 100 (codes "a") (failed_before 10) ≡ false
unfolding is_in_backoff get str_lt str_eq
instance_free = refl

channel_free : is_in_backoff timing 101 (channel_key (codes "a") kad) (failed_before 10) ≡ false
unfolding is_in_backoff get str_eq
channel_free = refl

failed_known :
    get (codes "a") (failed_before 10) ≡ some (record { attempts = 10; retry_after = 50 ∷ [] })
unfolding get str_eq
failed_known = refl

run_task_overflow_example :
    (run_task ascii timing policy down (codes "a") 5 task (idle 10)).0 ≡ err overflow_error
run_task_overflow_example =
    run_task_overflow ascii timing policy down (codes "a") 5 task (idle 10)
      (record { attempts = 10; retry_after = 50 ∷ [] }) refl failed_known (omega arith) refl
      instance_free channel_free refl

abbrev history : List (Str × Report ℕ ℕ)
history =
    (codes "a", failure 100 (λ span. span))
    ∷ (codes "b", success)
    ∷ (codes "a", failure 200 (λ span. span))
    ∷ []

two_failures :
    report_all timing policy history []
    ≡ some ((codes "a", record { attempts = 2; retry_after = 210 ∷ [] }) ∷ [])
unfolding report_all record_failure pop get put str_eq
two_failures = refl

report_all-failures_in_row_example :
    attempts_of
      (get (codes "a") ((codes "a", record { attempts = 2; retry_after = 210 ∷ [] }) ∷ []))
    ≡ failures_in_row timing policy (codes "a") history (attempts_of (get (codes "a") []))
report_all-failures_in_row_example =
    report_all-failures_in_row timing policy (codes "a") history []
      ((codes "a", record { attempts = 2; retry_after = 210 ∷ [] }) ∷ []) two_failures
