-- ===== src/Search/Tasks.antt =====
-- search_worker.py and run_search_cycle.py: the tasks of a cycle and the queue that they start in.
use emule_indexer.Common.{Option, some, List, [], ◌∷◌, any, if◌then◌else◌}
use emule_indexer.Common.Text.{Str, codes, str_eq}

pub data SearchChannel : Type 0 where
  global kad : SearchChannel

pub record SearchTask : Type 0 where
  pub keyword : Str
  pub channel : SearchChannel
  -- the set of the names of the instances that refused the task
  pub skipped_by : List Str

-- `network_label`
unfoldable pub network_label : SearchChannel → Str
network_label global = codes "ed2k"
network_label kad = codes "kad"

-- `skipped_by | {name}`
unfoldable pub add_name : Str → List Str → List Str
add_name name names = if any (str_eq name) names then names else name ∷ names

abbrev pub new_task : Str → SearchChannel → SearchTask
new_task keyword channel = record { keyword = keyword; channel = channel; skipped_by = [] }

-- Both loops over `put_nowait`: what was put last stands first.
unfoldable pub enqueue : List Str → List (Option SearchTask) → List (Option SearchTask)
enqueue [] queue = queue
enqueue (text ∷ texts) queue =
    enqueue texts (some (new_task text kad) ∷ some (new_task text global) ∷ queue)
