-- ===== src/Settings/Pool.antt =====
-- What the pool of instances promises that the parser has let through.
use emule_indexer.Common.{
  ◌<◌, ◌≡◌, inl, inr, true, false, not, List, [], ◌∷◌, map, ok, arith, All, any, In, ◌||◌, length,
  Holds, Holds->>=, Holds-after, Holds-both,
}
use emule_indexer.Common.Members.{Nodup}
use emule_indexer.Common.Text.{Str, str_eq, str_eq_refl}
use emule_indexer.Common.Dict.{Dict}
use emule_indexer.Settings.Values.{
  Value, null, boolean, integer, negative, floating, text, sequence, mapping, Items, nil, cons,
  guard, require_mapping,
}
use emule_indexer.Settings.Model.{AmuleEndpoint}
use emule_indexer.Settings.Sections.{parse_endpoint, parse_amules, amules_of}
use emule_indexer.Settings.Readers.{IsEndpoint, guard-Holds, parse_endpoint-Holds}

-- The instances that the loop returns, after the names that it has seen.
pub record AreInstances (seen : List Str) (amules : List AmuleEndpoint) : Type 0 where
  pub endpoints : All IsEndpoint amules
  pub distinct : Nodup (map (λ e. e.name) amules)
  pub new : (name : Str) → In name (map (λ e. e.name) amules) → any (str_eq name) seen ≡ false

AreInstances-cons :
    (seen : List Str) (e : AmuleEndpoint) (es : List AmuleEndpoint)
    → IsEndpoint e
    → not (any (str_eq e.name) seen) ≡ true
    → AreInstances (e.name ∷ seen) es
    → AreInstances seen (e ∷ es)
AreInstances-cons seen e es valid new rest = record {
  endpoints = (valid, rest.endpoints);
  distinct = (
    λ m.
        let other : (str_eq e.name e.name || any (str_eq e.name) seen) ≡ false =
          rest.new e.name m in
        absurd (ground (arith, other, str_eq_refl e.name)),
    rest.distinct,
  );
  new = λ name m. elim m [
    | inl same ↦ rw same (ground (arith, new))
    | inr m' ↦
        let other : (str_eq name e.name || any (str_eq name) seen) ≡ false = rest.new name m' in
        ground (arith, other)
  ];
}

-- The instances of a configuration.
abbrev pub ArePool : List AmuleEndpoint → Type 0
ArePool amules = AreInstances [] amules × (0 < length amules)

module _ {Float : Type 0} (env : Dict Str) where
  parse_amules-Holds :
      (seen : List Str) (entries : Items Float)
      → Holds (AreInstances seen) (parse_amules env seen entries)
  unfolding parse_amules
  parse_amules-Holds seen nil = record { endpoints = tt; distinct = tt; new = λ name m. absurd m }
  parse_amules-Holds seen (cons entry entries) =
      Holds-after (AreInstances seen) (require_mapping entry) _ (λ fields.
        Holds->>= IsEndpoint (AreInstances seen) _ _ (parse_endpoint-Holds env fields) (λ e valid.
          Holds->>= (λ done. not (any (str_eq e.name) seen) ≡ true) (AreInstances seen) _ _
            (guard-Holds (not (any (str_eq e.name) seen)))
            (λ done new.
              Holds->>= (AreInstances (e.name ∷ seen)) (AreInstances seen) _ _
                (parse_amules-Holds (e.name ∷ seen) entries)
                (λ es rest. AreInstances-cons seen e es valid new rest))))

  -- Here the list has an entry for each instance.
  parse_amules-some :
      (entry : Value Float) (entries : Items Float)
      → Holds (λ es. 0 < length es) (parse_amules env [] (cons entry entries))
  unfolding parse_amules
  parse_amules-some entry entries =
      Holds-after (λ es. 0 < length es) (require_mapping entry) _
        (λ fields.
          Holds-after (λ es. 0 < length es) (parse_endpoint env fields) _
            (λ e.
              Holds-after (λ es. 0 < length es) (guard true) _
                (λ done.
                  Holds-after (λ es. 0 < length es) (parse_amules env (e.name ∷ []) entries)
                    (λ es. ok (e ∷ es)) (λ es. omega arith))))

  pub amules_of-Holds : (v : Value Float) → Holds ArePool (amules_of env v)
  amules_of-Holds (sequence nil) = tt
  amules_of-Holds (sequence (cons entry entries)) =
      Holds-both (AreInstances []) (λ es. 0 < length es) _
        (parse_amules-Holds [] (cons entry entries)) (parse_amules-some entry entries)
  amules_of-Holds null = tt
  amules_of-Holds (boolean b) = tt
  amules_of-Holds (integer n) = tt
  amules_of-Holds (negative n) = tt
  amules_of-Holds (floating x) = tt
  amules_of-Holds (text s) = tt
  amules_of-Holds (mapping fields) = tt
