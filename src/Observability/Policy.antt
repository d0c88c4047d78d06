-- ===== src/Observability/Policy.antt =====
-- events.py and policy.py. Floats, their conversion from a count and the format `.1f` are
-- parameters; the set of audiences is a list.
use emule_indexer.Common.{ℕ, Bool, List, [], ◌∷◌, ◌++◌, if◌then◌else◌}
use emule_indexer.Common.Text.{Str, codes, decimal, str_eq}

pub data Severity : Type 0 where
  debug info warning error : Severity

pub data Audience : Type 0 where
  community operations : Audience

pub data MetricName : Type 0 where
  search_cycles search_cycle_duration searches observations : MetricName
  search_failures search_tasks_dropped mule_unreachable search_blind_cycles : MetricName
  decisions downloads_queued downloads_completed promotion_failures : MetricName
  verifications verifier_unavailable_count connected_instances verification_queue_depth : MetricName
  crawler_up port_syncs high_ids port_mismatch : MetricName

pub data MetricKind : Type 0 where
  inc set observe : MetricKind

pub data Event (Float : Type 0) : Type 0 where
  search_cycle_completed : ℕ → Float → Event Float
  search_executed : Str → ℕ → Event Float
  instance_unreachable : Str → Event Float
  search_failed : Str → Str → Event Float
  search_task_dropped : Str → Str → Event Float
  all_instances_blind : Bool → Event Float
  observation_recorded : Str → Event Float
  decision_recorded : Str → Str → Event Float
  download_queued : Str → Event Float
  download_completed : Str → Str → Event Float
  promotion_failed : Str → Event Float
  verification_completed : Str → Str → Event Float
  verifier_unavailable : Bool → Event Float
  connected_instances_sampled : Str → ℕ → Event Float
  verification_queue_depth_sampled : ℕ → Event Float
  crawler_started : Str → Event Float
  port_sync_triggered : ℕ → ℕ → Event Float
  high_id_recovered : ℕ → Event Float
  port_mismatch_unresolved : Bool → ℕ → ℕ → Event Float

pub record MetricInstruction (Float : Type 0) : Type 0 where
  pub name : MetricName
  pub kind : MetricKind
  pub labels : List (Str × Str)
  pub value : Float

pub record Report (Float : Type 0) : Type 0 where
  pub severity : Severity
  pub message : Str
  pub metrics : List (MetricInstruction Float)
  pub audiences : List Audience

-- `_VERDICT_SEVERITY.get(verdict, WARNING)`
unfoldable pub verdict_severity : Str → Severity
verdict_severity verdict =
    if str_eq verdict (codes "clean")
    then info
    else if str_eq verdict (codes "suspicious")
    then info
    else warning

-- `_VERDICT_AUDIENCES.get(verdict, frozenset())`
unfoldable pub verdict_audiences : Str → List Audience
verdict_audiences verdict =
    if str_eq verdict (codes "clean")
    then community ∷ []
    else if str_eq verdict (codes "suspicious")
    then operations ∷ []
    else if str_eq verdict (codes "malicious")
    then operations ∷ []
    else []

-- `frozenset({Audience.OPERATIONS}) if event.first_occurrence else frozenset()`
abbrev pub alert : Bool → List Audience
alert first_occurrence = if first_occurrence then operations ∷ [] else []

module _ {Float : Type 0} (of_count : ℕ → Float) (seconds : Float → Str) where
  abbrev pub counter : MetricName → List (Str × Str) → MetricInstruction Float
  counter name labels = record { name = name; kind = inc; labels = labels; value = of_count 1 }

  abbrev pub gauge : MetricName → List (Str × Str) → Float → MetricInstruction Float
  gauge name labels value = record { name = name; kind = set; labels = labels; value = value }

  -- `_verification`
  unfoldable pub report_verification : Str → Str → Report Float
  unfolding verdict_severity verdict_audiences
  report_verification target_id verdict = record {
    severity = verdict_severity verdict;
    message = codes "vérification " ++ (target_id ++ (codes " : verdict=" ++ verdict));
    metrics = counter verifications ((codes "verdict", verdict) ∷ []) ∷ [];
    audiences = verdict_audiences verdict;
  }

  unfoldable pub describe : Event Float → Report Float
  unfolding report_verification
  describe (search_cycle_completed cycle_index duration) = record {
    severity = info;
    message =
        codes "cycle "
        ++ (decimal cycle_index ++ (codes " terminé (" ++ (seconds duration ++ (codes "s)"))));
    metrics =
        counter search_cycles []
        ∷ record { name = search_cycle_duration; kind = observe; labels = []; value = duration }
        ∷ [];
    audiences = [];
  }
  describe (search_executed network n_results) = record {
    severity = debug;
    message =
        codes "recherche "
        ++ (network ++ (codes " : " ++ (decimal n_results ++ (codes " résultat(s)"))));
    metrics = counter searches ((codes "network", network) ∷ []) ∷ [];
    audiences = [];
  }
  describe (instance_unreachable instance_name) = record {
    severity = warning;
    message = codes "instance " ++ (instance_name ++ (codes " injoignable"));
    metrics = counter mule_unreachable ((codes "instance", instance_name) ∷ []) ∷ [];
    audiences = [];
  }
  describe (search_failed instance_name network) = record {
    severity = warning;
    message =
        codes "recherche en échec sur "
        ++ (network ++ (codes " (instance " ++ (instance_name ++ (codes ")"))));
    metrics = counter search_failures ((codes "network", network) ∷ []) ∷ [];
    audiences = [];
  }
  describe (search_task_dropped keyword network) = record {
    severity = warning;
    message =
        codes "tâche '"
        ++ (keyword
            ++ (codes "'/"
                ++ (network ++ (codes " abandonnée (toutes les instances en backoff)"))));
    metrics = counter search_tasks_dropped ((codes "network", network) ∷ []) ∷ [];
    audiences = [];
  }
  describe (all_instances_blind first_occurrence) = record {
    severity = warning;
    message = codes "couverture aveugle : aucune instance search-capable";
    metrics = counter search_blind_cycles [] ∷ [];
    audiences = alert first_occurrence;
  }
  describe (observation_recorded network) = record {
    severity = debug;
    message = codes "observation enregistrée (" ++ (network ++ (codes ")"));
    metrics = counter observations ((codes "network", network) ∷ []) ∷ [];
    audiences = [];
  }
  describe (decision_recorded target_id tier) = record {
    severity = info;
    message = codes "décision " ++ (tier ++ (codes " pour " ++ (target_id)));
    metrics = counter decisions ((codes "tier", tier) ∷ []) ∷ [];
    audiences = if str_eq tier (codes "download") then community ∷ [] else [];
  }
  describe (download_queued target_id) = record {
    severity = info;
    message = codes "download mis en file : " ++ (target_id);
    metrics = counter downloads_queued [] ∷ [];
    audiences = [];
  }
  describe (download_completed target_id ed2k_hash) = record {
    severity = info;
    message = codes "✅ téléchargement terminé : " ++ (target_id);
    metrics = counter downloads_completed [] ∷ [];
    audiences = community ∷ [];
  }
  describe (promotion_failed ed2k_hash) = record {
    severity = warning;
    message = codes "mise en quarantaine échouée : " ++ (ed2k_hash);
    metrics = counter promotion_failures [] ∷ [];
    audiences = [];
  }
  describe (verification_completed target_id verdict) = report_verification target_id verdict
  describe (verifier_unavailable first_occurrence) = record {
    severity = warning;
    message = codes "verifier injoignable";
    metrics = counter verifier_unavailable_count [] ∷ [];
    audiences = alert first_occurrence;
  }
  describe (connected_instances_sampled network count) = record {
    severity = debug;
    message = codes "instances connectées (" ++ (network ++ (codes ") : " ++ (decimal count)));
    metrics = gauge connected_instances ((codes "network", network) ∷ []) (of_count count) ∷ [];
    audiences = [];
  }
  describe (verification_queue_depth_sampled count) = record {
    severity = debug;
    message = codes "file de vérification : " ++ (decimal count ++ (codes " en attente"));
    metrics = gauge verification_queue_depth [] (of_count count) ∷ [];
    audiences = [];
  }
  describe (crawler_started mode) = record {
    severity = info;
    message = codes "🟢 instance en ligne (mode " ++ (mode ++ (codes ")"));
    metrics = gauge crawler_up [] (of_count 1) ∷ [];
    audiences = community ∷ operations ∷ [];
  }
  describe (port_sync_triggered old new) = record {
    severity = info;
    message =
        codes "port-sync : "
        ++ (decimal old ++ (codes " → " ++ (decimal new ++ (codes " (restart amuled)"))));
    metrics = counter port_syncs [] ∷ [];
    audiences = [];
  }
  describe (high_id_recovered port) = record {
    severity = info;
    message = codes "High-ID retrouvé sur le port " ++ (decimal port);
    metrics = counter high_ids [] ∷ [];
    audiences = community ∷ [];
  }
  describe (port_mismatch_unresolved first_occurrence live configured) = record {
    severity = warning;
    message =
        codes "High-ID non rétabli (port forwardé "
        ++ (decimal live ++ (codes ", port amuled " ++ (decimal configured ++ (codes ")"))));
    metrics = counter port_mismatch [] ∷ [];
    audiences = alert first_occurrence;
  }
