-- ===== src/Domain/Tests.antt =====
-- The keywords, sets and buckets on small inputs.
use emule_indexer.Common.{ℕ, ◌≡◌, ◌≢◌, ◌↔◌, refl, List, [], ◌∷◌, ◌++◌, map, In}
use emule_indexer.Common.Members.{Nodup}
use emule_indexer.Common.Text.{Str, codes, str_eq}
use emule_indexer.Domain.Keywords.{texts_of, generate_keywords, generate_keywords_iff}
use emule_indexer.Domain.Buckets.{ObservationRow, Group, sum, bucketize, bucketize_total}

abbrev joined : List Str → Str
joined [] = []
joined (s ∷ names) = s ++ joined names

abbrev row : Str → Str → ℕ → ObservationRow
row file at n = record {
  ed2k_hash = codes "h";
  node_id = codes "n";
  filename = file;
  source_count = n;
  complete_source_count = 1;
  observed_at = at;
}

-- Two observations of one day and one of the next.
abbrev rows : List ObservationRow
rows =
    row (codes "f") (codes "2026-01-01T08") 3
    ∷ row (codes "g") (codes "2026-01-01T09") 5
    ∷ row (codes "f") (codes "2026-01-02T08") 2
    ∷ []

bucketize_total_example :
    (sum (map (λ b. b.observation_count) (bucketize joined rows)) ≡ 3)
    × ((sum (map (λ b. b.source_count_sum) (bucketize joined rows)) ≡ 10)
        × (sum (map (λ b. b.complete_source_count_sum) (bucketize joined rows)) ≡ 3))
bucketize_total_example = bucketize_total joined rows

two_buckets : map (λ b. b.observation_count) (bucketize joined rows) ≡ 2 ∷ 1 ∷ []
unfolding bucketize str_eq
two_buckets = refl

abbrev group : Group
group = (row (codes "f") (codes "2026-01-01T08") 3, row (codes "g") (codes "2026-01-01T09") 5 ∷ [])

abbrev configured : List Str
configured = codes "keroro" ∷ codes "" ∷ codes "titar" ∷ codes "keroro" ∷ []

generate_keywords_iff_example :
    Nodup (texts_of (generate_keywords configured))
    × ((text : Str)
        → In text (texts_of (generate_keywords configured)) ↔ (In text configured × (text ≢ [])))
generate_keywords_iff_example = generate_keywords_iff configured

generated : texts_of (generate_keywords configured) ≡ codes "keroro" ∷ codes "titar" ∷ []
unfolding generate_keywords str_eq
generated = refl
