-- ===== src/Settings/Searched.antt =====
-- What the keywords and the identifier of the node promise that the parser has let through.
use emule_indexer.Common.{
  ◌<◌, Option, none, some, List, [], ◌∷◌, ok, arith, All, length, Holds, Holds->>=, Holds-after,
}
use emule_indexer.Common.Text.{Str, codes}
use emule_indexer.Settings.Values.{
  Value, null, boolean, integer, negative, floating, text, sequence, mapping, Items, nil, cons,
  Fields, get, require_mapping, text_of,
}
use emule_indexer.Settings.Sections.{default_keywords}
use emule_indexer.Settings.Crawler.{
  parse_search_keywords, parse_keywords, keywords_of, search_of, node_id_of,
}
use emule_indexer.Settings.Readers.{IsNonempty, not_empty-Holds, optional-Holds}
use emule_indexer.Settings.Valid.{OfSome}

-- A list of keywords: not empty, and no keyword is empty.
pub record AreKeywords (keywords : List Str) : Type 0 where
  pub some_keyword : 0 < length keywords
  pub nonempty : All IsNonempty keywords

module _ {Float : Type 0} where
  parse_keywords-All-IsNonempty :
      (entries : Items Float) → Holds (All IsNonempty) (parse_keywords entries)
  unfolding parse_keywords
  parse_keywords-All-IsNonempty nil = tt
  parse_keywords-All-IsNonempty (cons entry entries) =
      Holds-after (All IsNonempty) (text_of entry) _ (λ s.
        Holds->>= IsNonempty (All IsNonempty) _ _ (not_empty-Holds s) (λ keyword some_text.
          Holds->>= (All IsNonempty) (All IsNonempty) _ _ (parse_keywords-All-IsNonempty entries)
            (λ keywords rest. (some_text, rest))))

  parse_keywords-AreKeywords :
      (entry : Value Float) (entries : Items Float)
      → Holds AreKeywords (parse_keywords (cons entry entries))
  unfolding parse_keywords
  parse_keywords-AreKeywords entry entries = Holds-after AreKeywords (text_of entry) _ (λ s.
      Holds->>= IsNonempty AreKeywords _ _ (not_empty-Holds s) (λ keyword some_text.
        Holds->>= (All IsNonempty) AreKeywords _ (λ keywords. ok (keyword ∷ keywords))
          (parse_keywords-All-IsNonempty entries)
          (λ keywords rest. record { some_keyword = omega arith; nonempty = (some_text, rest) })))

  keywords_of-AreKeywords : (v : Value Float) → Holds AreKeywords (keywords_of v)
  keywords_of-AreKeywords (sequence nil) = tt
  keywords_of-AreKeywords (sequence (cons entry entries)) = parse_keywords-AreKeywords entry entries
  keywords_of-AreKeywords null = tt
  keywords_of-AreKeywords (boolean b) = tt
  keywords_of-AreKeywords (integer n) = tt
  keywords_of-AreKeywords (negative n) = tt
  keywords_of-AreKeywords (floating x) = tt
  keywords_of-AreKeywords (text s) = tt
  keywords_of-AreKeywords (mapping fields) = tt

  pub parse_search_keywords-AreKeywords :
      (raw : Fields Float) → Holds AreKeywords (parse_search_keywords raw)
  unfolding parse_search_keywords
  parse_search_keywords-AreKeywords raw =
      let some_default : AreKeywords default_keywords = record {
        some_keyword = omega arith;
        nonempty = (λ e. absurd (cc), (λ e. absurd (cc), tt));
      } in
      optional-Holds AreKeywords search_of (get (codes "search") raw) some_default (λ v.
        Holds-after AreKeywords (require_mapping v) _ (λ section.
          optional-Holds AreKeywords keywords_of (get (codes "keywords") section) some_default
            keywords_of-AreKeywords))

  pub node_id_of-Holds : (v : Option (Value Float)) → Holds (OfSome IsNonempty) (node_id_of v)
  node_id_of-Holds none = tt
  node_id_of-Holds (some null) = tt
  node_id_of-Holds (some (text [])) = tt
  node_id_of-Holds (some (text (c ∷ s))) = λ e. absurd (cc)
  node_id_of-Holds (some (boolean b)) = tt
  node_id_of-Holds (some (integer n)) = tt
  node_id_of-Holds (some (negative n)) = tt
  node_id_of-Holds (some (floating x)) = tt
  node_id_of-Holds (some (sequence items)) = tt
  node_id_of-Holds (some (mapping fields)) = tt
