-- ===== src/Matching/Engine/Order.antt =====
-- The key of a decision is a strict total order.
use emule_indexer.Common.{true, false, ◌≡◌, arith, Bool-cases, inl, inr}
use emule_indexer.Common.Text.{str_lt_irrefl, str_lt_trans, str_lt_antisym}
use emule_indexer.Matching.Engine.{Key, key_lt}

pub key_lt_irrefl : (a : Key) → key_lt a a ≡ false
unfolding key_lt
key_lt_irrefl a = ground (arith, str_lt_irrefl a.id)

pub key_lt_trans : (a b c : Key) → key_lt a b ≡ true → key_lt b c ≡ true → key_lt a c ≡ true
unfolding key_lt
key_lt_trans a b c h k = ground (arith, str_lt_trans a.id b.id c.id)

pub key_lt_antisym : (a b : Key) → key_lt a b ≡ false → key_lt b a ≡ false → a ≡ b
unfolding key_lt
key_lt_antisym a b h k = ground (arith, str_lt_antisym a.id b.id)

pub key_lt_asym : (a b : Key) → key_lt a b ≡ true → key_lt b a ≡ false
key_lt_asym a b h = elim (Bool-cases (key_lt b a)) [
  | inl k ↦ cc (key_lt_trans a b a h k, key_lt_irrefl a)
  | inr k ↦ k
]

-- `a ≤ b` is that `b` is not before `a`.
pub key_le_trans : (a b c : Key) → key_lt a b ≡ false → key_lt b c ≡ false → key_lt a c ≡ false
key_le_trans a b c h k = elim (Bool-cases (key_lt a c)) [
  | inr ge ↦ ge
  | inl lt ↦ elim (Bool-cases (key_lt b a)) [
    | inl before ↦ cc (key_lt_trans b a c before lt)
    | inr after ↦ cc (key_lt_antisym a b h after)
  ]
]
