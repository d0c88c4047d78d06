-- ===== src/Observability/Audiences.antt =====
-- Whom the events are told.
use emule_indexer.Common.{
  ℕ, ◌≡◌, ◌≢◌, ◌↔◌, ◌⊎◌, refl, sym, ◌∙◌, inl, inr, Bool, true, false, [], ◌∷◌, In, Bool-cases,
  if◌then◌else◌, arith,
}
use emule_indexer.Common.Text.{Str, codes, str_eq, str_eq_iff}
use emule_indexer.Observability.Policy.{
  debug, community, operations, Event, describe, report_verification, verdict_severity,
  verdict_audiences, alert, search_cycle_completed, search_executed, instance_unreachable,
  search_failed, search_task_dropped, all_instances_blind, observation_recorded, decision_recorded,
  download_queued, download_completed, promotion_failed, verification_completed,
  verifier_unavailable, connected_instances_sampled, verification_queue_depth_sampled,
  crawler_started, port_sync_triggered, high_id_recovered, port_mismatch_unresolved,
}

-- What asks for the operators: a first occurrence of an outage, a start, and a file that is
-- suspicious or malicious.
abbrev pub Alarming : {Float : Type 0} → Event Float → Type 0
Alarming (search_cycle_completed cycle_index duration) = ⊥
Alarming (search_executed network n_results) = ⊥
Alarming (instance_unreachable instance_name) = ⊥
Alarming (search_failed instance_name network) = ⊥
Alarming (search_task_dropped keyword network) = ⊥
Alarming (all_instances_blind first_occurrence) = first_occurrence ≡ true
Alarming (observation_recorded network) = ⊥
Alarming (decision_recorded target_id tier) = ⊥
Alarming (download_queued target_id) = ⊥
Alarming (download_completed target_id ed2k_hash) = ⊥
Alarming (promotion_failed ed2k_hash) = ⊥
Alarming (verification_completed target_id verdict) =
    (verdict ≡ codes "suspicious") ⊎ (verdict ≡ codes "malicious")
Alarming (verifier_unavailable first_occurrence) = first_occurrence ≡ true
Alarming (connected_instances_sampled network count) = ⊥
Alarming (verification_queue_depth_sampled count) = ⊥
Alarming (crawler_started mode) = Unit {0}
Alarming (port_sync_triggered old new) = ⊥
Alarming (high_id_recovered port) = ⊥
Alarming (port_mismatch_unresolved first_occurrence live configured) = first_occurrence ≡ true

apart : true ≢ false
apart e = cc

alert_iff : (first : Bool) → In operations (alert first) ↔ (first ≡ true)
alert_iff true = (λ _. refl, λ _. inl refl)
alert_iff false = (λ m. absurd m, λ h. cc)

verdict_severity-ne-debug : (verdict : Str) → verdict_severity verdict ≢ debug
unfolding verdict_severity
verdict_severity-ne-debug verdict h = ground arith

not_told : In operations (community ∷ []) → ⊥
not_told (inl e) = absurd (cc)
not_told (inr m) = absurd m

verdicts_differ :
    (str_eq (codes "suspicious") (codes "clean") ≡ false)
    × (str_eq (codes "malicious") (codes "clean") ≡ false)
unfolding str_eq
verdicts_differ = (refl, refl)

verdict_iff :
    (verdict : Str)
    → In operations (verdict_audiences verdict)
      ↔ ((verdict ≡ codes "suspicious") ⊎ (verdict ≡ codes "malicious"))
unfolding verdict_audiences
verdict_iff verdict = elim (Bool-cases (str_eq verdict (codes "clean"))) [
  | inl clean ↦ rw clean (
    λ m. absurd (not_told m),
    λ v. elim v [
      | inl e ↦ absurd (apart (sym (rw e at clean) ∙ verdicts_differ.0))
      | inr e ↦ absurd (apart (sym (rw e at clean) ∙ verdicts_differ.1))
    ],
  )
  | inr dirty ↦ elim (Bool-cases (str_eq verdict (codes "suspicious"))) [
    | inl suspicious ↦
        rw (dirty, suspicious)
          (λ _. inl ((str_eq_iff verdict (codes "suspicious")).0 suspicious), λ _. inl refl)
    | inr fine ↦ elim (Bool-cases (str_eq verdict (codes "malicious"))) [
      | inl malicious ↦
          rw (dirty, fine, malicious)
            (λ _. inr ((str_eq_iff verdict (codes "malicious")).0 malicious), λ _. inl refl)
      | inr other ↦
          rw (dirty, fine, other)
            (
              λ m. absurd m,
              λ v. elim v [
                | inl e ↦
                    absurd (apart (sym ((str_eq_iff verdict (codes "suspicious")).1 e) ∙ fine))
                | inr e ↦
                    absurd (apart (sym ((str_eq_iff verdict (codes "malicious")).1 e) ∙ other))
              ],
            )
    ]
  ]
]

module _ {Float : Type 0} (of_count : ℕ → Float) (seconds : Float → Str) where
  decision_told :
      (tier : Str)
      → In operations (if str_eq tier (codes "download") then community ∷ [] else [])
      → ⊥
  decision_told tier m = elim (Bool-cases (str_eq tier (codes "download"))) [
    | inl download ↦ not_told (rw download at m)
    | inr other ↦ (rw other at m)
  ]

  -- The operators are told of an event exactly if it is alarming, and nobody is told what is only
  -- for debugging.
  pub describe_iff :
      (e : Event Float)
      → (In operations (describe of_count seconds e).audiences ↔ Alarming e)
        × ((describe of_count seconds e).severity ≡ debug
            → (describe of_count seconds e).audiences ≡ [])
  unfolding describe report_verification
  describe_iff (search_cycle_completed cycle_index duration) =
      ((λ m. absurd m, λ h. absurd h), λ h. refl)
  describe_iff (search_executed network n_results) = ((λ m. absurd m, λ h. absurd h), λ h. refl)
  describe_iff (instance_unreachable instance_name) = ((λ m. absurd m, λ h. absurd h), λ h. refl)
  describe_iff (search_failed instance_name network) = ((λ m. absurd m, λ h. absurd h), λ h. refl)
  describe_iff (search_task_dropped keyword network) = ((λ m. absurd m, λ h. absurd h), λ h. refl)
  describe_iff (all_instances_blind first_occurrence) = (alert_iff first_occurrence, λ h. cc)
  describe_iff (observation_recorded network) = ((λ m. absurd m, λ h. absurd h), λ h. refl)
  describe_iff (decision_recorded target_id tier) = ((decision_told tier, λ h. absurd h), λ h. cc)
  describe_iff (download_queued target_id) = ((λ m. absurd m, λ h. absurd h), λ h. refl)
  describe_iff (download_completed target_id ed2k_hash) = ((not_told, λ h. absurd h), λ h. cc)
  describe_iff (promotion_failed ed2k_hash) = ((λ m. absurd m, λ h. absurd h), λ h. refl)
  describe_iff (verification_completed target_id verdict) =
      (verdict_iff verdict, λ h. absurd (verdict_severity-ne-debug verdict h))
  describe_iff (verifier_unavailable first_occurrence) = (alert_iff first_occurrence, λ h. cc)
  describe_iff (connected_instances_sampled network count) =
      ((λ m. absurd m, λ h. absurd h), λ h. refl)
  describe_iff (verification_queue_depth_sampled count) =
      ((λ m. absurd m, λ h. absurd h), λ h. refl)
  describe_iff (crawler_started mode) = ((λ _. tt, λ _. inr (inl refl)), λ h. cc)
  describe_iff (port_sync_triggered old new) = ((λ m. absurd m, λ h. absurd h), λ h. refl)
  describe_iff (high_id_recovered port) = ((not_told, λ h. absurd h), λ h. cc)
  describe_iff (port_mismatch_unresolved first_occurrence live configured) =
      (alert_iff first_occurrence, λ h. cc)
