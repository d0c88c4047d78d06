-- ===== src/Observability/Tests.antt =====
-- An outage of two cycles, and another.
use emule_indexer.Common.{ℕ, ◌≡◌, ◌↔◌, true, false, none, some, [], ◌∷◌, In}
use emule_indexer.Common.Text.{codes, decimal}
use emule_indexer.Observability.Policy.{debug, operations, describe, all_instances_blind}
use emule_indexer.Observability.Audiences.{describe_iff}
use emule_indexer.Observability.Edge.{watch, watch-edges}

describe_iff_example :
    (In operations (describe {Float = ℕ} (λ n. n) decimal (all_instances_blind true)).audiences
      ↔ (true ≡ true))
    × ((describe {Float = ℕ} (λ n. n) decimal (all_instances_blind true)).severity ≡ debug
        → (describe {Float = ℕ} (λ n. n) decimal (all_instances_blind true)).audiences ≡ [])
describe_iff_example = describe_iff {Float = ℕ} (λ n. n) decimal (all_instances_blind true)

watch-edges_example :
    watch (codes "coverage_blind") (true ∷ true ∷ false ∷ true ∷ []) []
    ≡ some true ∷ some false ∷ none ∷ some true ∷ []
watch-edges_example = watch-edges (codes "coverage_blind") (true ∷ true ∷ false ∷ true ∷ []) []
