-- ===== src/Matching/Validation/Building.antt =====
-- resolver.py: a definition whose references resolve and whose placeholders are known is built, but
-- for a regular expression that RE2 refuses.
use emule_indexer.Common.{◌≡◌, Option, none, some, All, All-append-inv, Result, ok, err, ◌>>=◌}
use emule_indexer.Common.Text.{Str}
use emule_indexer.Matching.Library.{Library}
use emule_indexer.Matching.Models.{TargetSegment}
use emule_indexer.Matching.Interpolation.{MatchError, regex_error, interpolate}
use emule_indexer.Matching.Config.{
  Operand, Operands, Condition, TokenDef, bare, token_ref, inline, nil, cons, all_def, any_def,
  not_def, keyword_def, regex_def, coverage_def, attr_between_def, composite,
}
use emule_indexer.Matching.Resolver.{
  Resolve, compiled, regex_matcher, build_operand, build_condition, build_operands, build_def,
}
use emule_indexer.Matching.References.{condition_refs, operand_refs, operands_refs, def_refs}
use emule_indexer.Matching.Validation.{probe_target}
use emule_indexer.Matching.Validation.Placeholders.{interpolate_same}

-- It fails, if it does, by a regular expression that does not compile.
abbrev pub OnlyRegex : {A : Type 0} → Result MatchError A → Type 0
OnlyRegex r = (e : MatchError) → r ≡ err e → e ≡ regex_error

pub >>=-OnlyRegex :
    {A B : Type 0} (m : Result MatchError A) (next : A → Result MatchError B)
    → OnlyRegex m
    → ((a : A) → OnlyRegex (next a))
    → OnlyRegex (m >>= next)
>>=-OnlyRegex (ok a) next h k = k a
>>=-OnlyRegex (err e) next h k = λ e' same. h e' cc

pub ok-OnlyRegex : {A : Type 0} (a : A) → OnlyRegex (ok a)
ok-OnlyRegex a e h = cc

module _ (lib : Library) where
  compiled-OnlyRegex : (re : Option lib.Regex) → OnlyRegex (compiled lib re)
  compiled-OnlyRegex none e h = cc
  compiled-OnlyRegex (some re) e h = cc

  regex_matcher-OnlyRegex : (p flags : Str) → OnlyRegex (regex_matcher lib p flags)
  unfolding regex_matcher
  regex_matcher-OnlyRegex p flags = compiled-OnlyRegex _

  -- The placeholders of a pattern are known.
  abbrev pub Interpolates : TokenDef lib → Type 0
  Interpolates (regex_def p flags) = (text : Str) × (interpolate lib probe_target p ≡ ok text)
  Interpolates _ = Unit {0}

  module _ (resolve : Resolve lib) (P : Str → Type 0)
      (safe : (name : Str) (lo fuzz : Option lib.Float)
        → P name
        → OnlyRegex (resolve name lo fuzz)) where
    mutual
      unfolding operand_refs build_operand

      build_operand-OnlyRegex :
          (op : Operand lib)
          → All P (operand_refs lib op)
          → OnlyRegex (build_operand lib resolve op)
      build_operand-OnlyRegex (bare name) h = safe name none none h.0
      build_operand-OnlyRegex (token_ref name lo fuzz) h = safe name lo fuzz h.0
      build_operand-OnlyRegex (inline c) h = build_condition-OnlyRegex c h

      pub build_condition-OnlyRegex :
          (c : Condition lib)
          → All P (condition_refs lib c)
          → OnlyRegex (build_condition lib resolve c)
      build_condition-OnlyRegex (all_def ops) h =
          >>=-OnlyRegex (build_operands lib resolve ops) _ (build_operands-OnlyRegex ops h)
            (λ ms. ok-OnlyRegex _)
      build_condition-OnlyRegex (any_def ops) h =
          >>=-OnlyRegex (build_operands lib resolve ops) _ (build_operands-OnlyRegex ops h)
            (λ ms. ok-OnlyRegex _)
      build_condition-OnlyRegex (not_def op) h =
          >>=-OnlyRegex (build_operand lib resolve op) _ (build_operand-OnlyRegex op h)
            (λ m. ok-OnlyRegex _)

      build_operands-OnlyRegex :
          (ops : Operands lib)
          → All P (operands_refs lib ops)
          → OnlyRegex (build_operands lib resolve ops)
      build_operands-OnlyRegex nil h = ok-OnlyRegex _
      build_operands-OnlyRegex (cons op ops) h =
          let (front, back) = All-append-inv P (operand_refs lib op) (operands_refs lib ops) h in
          >>=-OnlyRegex (build_operand lib resolve op) _ (build_operand-OnlyRegex op front) (λ m.
            >>=-OnlyRegex (build_operands lib resolve ops) _ (build_operands-OnlyRegex ops back)
              (λ ms. ok-OnlyRegex _))

    pub build_def-OnlyRegex :
        (target : TargetSegment) (d : TokenDef lib) (lo fuzz : Option lib.Float)
        → Interpolates d
        → All P (def_refs lib d)
        → OnlyRegex (build_def lib resolve target d lo fuzz)
    unfolding build_def def_refs
    build_def-OnlyRegex target (keyword_def phrase) lo fuzz i h = ok-OnlyRegex _
    build_def-OnlyRegex target (regex_def p flags) lo fuzz (text, e) h =
        let (text', e') = interpolate_same lib probe_target target p text e in
        rw e' (regex_matcher-OnlyRegex text' flags)
    build_def-OnlyRegex target (coverage_def reference lo' fuzz') lo fuzz i h = ok-OnlyRegex _
    build_def-OnlyRegex target (attr_between_def attr lo' hi') lo fuzz i h = ok-OnlyRegex _
    build_def-OnlyRegex target (composite c) lo fuzz i h = build_condition-OnlyRegex c h
