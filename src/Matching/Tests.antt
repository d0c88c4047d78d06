-- ===== src/Matching/Tests.antt =====
-- The matching engine on two segments of one episode.
use emule_indexer.Common.{
  ◌≡◌, ◌≢◌, ◌≤◌, ◌<◌, ◌↔◌, ◌⊎◌, inl, inr, refl, sym, ◌∙◌, true, false, Option, none, some, List, [],
  ◌∷◌, All, ok,
}
use emule_indexer.Common.Text.{Str, codes, str_eq, str_eq_iff, str_lt, decimal, decimal_padded}
use emule_indexer.Common.Dict.{get, put}
use emule_indexer.Matching.Models.{FileCandidate, target_id}
use emule_indexer.Matching.Normalization.{fold, split, normalize, tokenize, join_words}
use emule_indexer.Matching.Matchers.{Matcher, keyword, all_of, not_of, keyword_matches, matches}
use emule_indexer.Matching.Keyword.{Occurs, keyword_matches_iff}
use emule_indexer.Matching.Config.{
  MatcherConfig, keyword_def, all_def, not_def, bare, catalog, download,
}
use emule_indexer.Matching.Config
use emule_indexer.Matching.Matchers
use emule_indexer.Matching.Resolver.{ResolvedTarget}
use emule_indexer.Matching.Engine.{evaluate, resolve_targets, key_lt, MatchDecision}
use emule_indexer.Matching.Engine.Verdict.{Reports, NothingTrue, evaluate-some, evaluate-none}
use emule_indexer.Matching.Engine.Decision.{UniqueIds, evaluate_order}
use emule_indexer.Matching.Engine.Resolved.{evaluate_total, resolve_targets-HasRules}
use emule_indexer.Matching.Engine.Total.{HasRules}
use emule_indexer.Matching.Sample.{ascii, segment}

abbrev config : MatcherConfig ascii
config = record {
  tokens = (codes "k", keyword_def (codes "keroro")) ∷ [];
  rules =
      record { name = codes "wanted"; tier = download; condition = not_def (bare (codes "k")) }
      ∷ record {
        name = codes "seen";
        tier = catalog;
        condition = all_def (Config.cons (bare (codes "k")) Config.nil);
      }
      ∷ [];
}

abbrev word : Matcher ascii
word = keyword (codes "keroro" ∷ [])

abbrev resolved : Str → ResolvedTarget ascii
resolved name = record {
  target = segment name;
  tokens = (codes "k", word) ∷ [];
  rules =
      (codes "wanted", not_of word) ∷ (codes "seen", all_of (Matchers.cons word Matchers.nil)) ∷ [];
}

abbrev both : List (ResolvedTarget ascii)
both = resolved (codes "a") ∷ resolved (codes "b") ∷ []

abbrev file : FileCandidate ascii
file = record {
  filename = codes "keroro 2.avi";
  size_mb = some 90;
  duration_sec = none;
  bitrate_kbps = none;
}

resolve_targets-both :
    resolve_targets ascii 2 config (segment (codes "a") ∷ segment (codes "b") ∷ []) ≡ ok both
unfolding resolve_targets get str_eq tokenize put split normalize join_words fold
resolve_targets-both = refl

evaluate_total_example :
    (o : Option (MatchDecision ascii)) × (evaluate ascii config file 20 both ≡ ok o)
evaluate_total_example =
    evaluate_total ascii config 2 (segment (codes "a") ∷ segment (codes "b") ∷ []) both file 20
      resolve_targets-both

both-HasRules : All (HasRules ascii config.rules) both
both-HasRules =
    resolve_targets-HasRules ascii config 2 (segment (codes "a") ∷ segment (codes "b") ∷ []) both
      resolve_targets-both

abbrev decision : MatchDecision ascii
decision = record {
  target_id = codes "S1E002A";
  rule_name = codes "seen";
  tier = catalog;
  explanation = record {
    target_id = codes "S1E002A";
    rules_fired = codes "seen" ∷ [];
    tokens_matched = codes "k" ∷ [];
    coverage_values = [];
  };
}

evaluate-both : evaluate ascii config file 20 both ≡ ok (some decision)
unfolding evaluate get str_eq matches keyword_matches tokenize split normalize join_words fold
    key_lt str_lt target_id decimal decimal_padded
evaluate-both = refl

evaluate-some_example : (12 ≤ 20) × Reports ascii config file both decision
evaluate-some_example = evaluate-some ascii config file 20 both decision evaluate-both

evaluate-none_example :
    (evaluate ascii config file 5 both ≡ ok none) ↔ ((5 < 12) ⊎ NothingTrue ascii config file both)
evaluate-none_example = evaluate-none ascii config file 5 both both-HasRules

abbrev swapped : List (ResolvedTarget ascii)
swapped = resolved (codes "b") ∷ resolved (codes "a") ∷ []

swapped-HasRules : All (HasRules ascii config.rules) swapped
swapped-HasRules = (both-HasRules.1.0, (both-HasRules.0, tt))

true-ne-false : true ≢ false
true-ne-false e = cc

ids_differ :
    str_eq (target_id ascii (segment (codes "a"))) (target_id ascii (segment (codes "b"))) ≡ false
unfolding str_eq target_id decimal decimal_padded
ids_differ = refl

id_ne : target_id ascii (segment (codes "a")) ≢ target_id ascii (segment (codes "b"))
id_ne e = true-ne-false (sym ((str_eq_iff _ _).1 e) ∙ ids_differ)

both-UniqueIds : UniqueIds ascii config file both
both-UniqueIds r r' (inl h) (inl k) e = h ∙ sym k
both-UniqueIds r r' (inl h) (inr (inr x)) e = elim x [ ]
both-UniqueIds r r' (inr (inl h)) (inr (inr x)) e = elim x [ ]
both-UniqueIds r r' (inr (inr x)) _ e = elim x [ ]
both-UniqueIds r r' (inl h) (inr (inl k)) e = absurd (id_ne (rw (h, k) at e))
both-UniqueIds r r' (inr (inl h)) (inl k) e = absurd (id_ne (sym (rw (h, k) at e)))
both-UniqueIds r r' (inr (inl h)) (inr (inl k)) e = h ∙ sym k

evaluate_order_example : evaluate ascii config file 20 both ≡ evaluate ascii config file 20 swapped
evaluate_order_example =
    evaluate_order ascii config file 20 both swapped both-HasRules swapped-HasRules both-UniqueIds
      (λ r m. elim m [ inl h ↦ inr (inl h) | inr (inl h) ↦ inl h | inr (inr x) ↦ elim x [ ] ])
      (λ r m. elim m [ inl h ↦ inr (inl h) | inr (inl h) ↦ inl h | inr (inr x) ↦ elim x [ ] ])

keyword_matches_iff_example :
    (keyword_matches (codes "a" ∷ []) (codes "b" ∷ codes "a" ∷ []) ≡ true)
    ↔ Occurs (codes "a" ∷ []) (codes "b" ∷ codes "a" ∷ [])
keyword_matches_iff_example = keyword_matches_iff (codes "a" ∷ []) (codes "b" ∷ codes "a" ∷ [])
