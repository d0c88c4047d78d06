-- ===== src/Matching/References.antt =====
-- validation.py: the tokens that operands, conditions and definitions refer to.
use emule_indexer.Common.{Option, List, [], ◌∷◌, ◌++◌}
use emule_indexer.Common.Text.{Str}
use emule_indexer.Matching.Library.{Library}
use emule_indexer.Matching.Config.{
  Operand, Operands, Condition, TokenDef, bare, token_ref, inline, nil, cons, all_def, any_def,
  not_def, keyword_def, regex_def, coverage_def, attr_between_def, composite,
}

module _ (lib : Library) where
  -- `_operand_refs`, and the same loop in `_def_refs`.
  unfoldable mutual
    pub operand_refs : Operand lib → List Str
    operand_refs (bare name) = name ∷ []
    operand_refs (token_ref name lo fuzz) = name ∷ []
    operand_refs (inline c) = condition_refs c

    pub condition_refs : Condition lib → List Str
    condition_refs (all_def ops) = operands_refs ops
    condition_refs (any_def ops) = operands_refs ops
    condition_refs (not_def op) = operand_refs op

    pub operands_refs : Operands lib → List Str
    operands_refs nil = []
    operands_refs (cons op ops) = operand_refs op ++ operands_refs ops

  -- `_def_refs`
  unfoldable pub def_refs : TokenDef lib → List Str
  unfolding condition_refs
  def_refs (composite c) = condition_refs c
  def_refs (keyword_def phrase) = []
  def_refs (regex_def pattern flags) = []
  def_refs (coverage_def reference lo fuzz) = []
  def_refs (attr_between_def attr lo hi) = []

  -- A `TokenRef`: its name, `min` and `fuzz`.
  abbrev pub TokenRef : Type 0
  TokenRef = Str × (Option lib.Float × Option lib.Float)

  -- `_operand_token_refs`, and the same loop in `_def_token_refs`.
  unfoldable mutual
    pub operand_token_refs : Operand lib → List TokenRef
    operand_token_refs (bare name) = []
    operand_token_refs (token_ref name lo fuzz) = (name, (lo, fuzz)) ∷ []
    operand_token_refs (inline c) = condition_token_refs c

    pub condition_token_refs : Condition lib → List TokenRef
    condition_token_refs (all_def ops) = operands_token_refs ops
    condition_token_refs (any_def ops) = operands_token_refs ops
    condition_token_refs (not_def op) = operand_token_refs op

    pub operands_token_refs : Operands lib → List TokenRef
    operands_token_refs nil = []
    operands_token_refs (cons op ops) = operand_token_refs op ++ operands_token_refs ops

  unfoldable pub def_token_refs : TokenDef lib → List TokenRef
  unfolding condition_token_refs
  def_token_refs (composite c) = condition_token_refs c
  def_token_refs (keyword_def phrase) = []
  def_token_refs (regex_def pattern flags) = []
  def_token_refs (coverage_def reference lo fuzz) = []
  def_token_refs (attr_between_def attr lo hi) = []
