-- ===== src/Matching/Config.antt =====
-- config.py. The closed sets of strings TIERS and ATTR_NAMES are data types.
use emule_indexer.Common.{ℕ, Option, List}
use emule_indexer.Common.Text.{Str}
use emule_indexer.Common.Dict.{Dict}
use emule_indexer.Matching.Library.{Library}
use emule_indexer.Matching.Matchers.{Attr}

mutual
  -- a bare token name, a `TokenRef` with its overrides of `min` and `fuzz`, or a condition
  pub data Operand (lib : Library) : Type 0 where
    bare : Str → Operand lib
    token_ref : Str → Option lib.Float → Option lib.Float → Operand lib
    inline : Condition lib → Operand lib

  pub data Operands (lib : Library) : Type 0 where
    nil : Operands lib
    cons : Operand lib → Operands lib → Operands lib

  pub data Condition (lib : Library) : Type 0 where
    all_def : Operands lib → Condition lib
    any_def : Operands lib → Condition lib
    not_def : Operand lib → Condition lib

pub data TokenDef (lib : Library) : Type 0 where
  keyword_def : Str → TokenDef lib
  -- pattern and flags
  regex_def : Str → Str → TokenDef lib
  -- reference, min, fuzz
  coverage_def : Str → lib.Float → lib.Float → TokenDef lib
  attr_between_def : Attr → Option lib.Float → Option lib.Float → TokenDef lib
  composite : Condition lib → TokenDef lib

pub data Tier : Type 0 where
  catalog notify download : Tier

abbrev pub tier_rank : Tier → ℕ
tier_rank catalog = 0
tier_rank notify = 1
tier_rank download = 2

pub record Rule (lib : Library) : Type 0 where
  pub name : Str
  pub tier : Tier
  pub condition : Condition lib

pub record MatcherConfig (lib : Library) : Type 0 where
  pub tokens : Dict (TokenDef lib)
  pub rules : List (Rule lib)
