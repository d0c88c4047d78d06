-- ===== src/Search/Backoff/Laws.antt =====
-- BackoffRegistry: what the failures and the resets of a key add up to.
use emule_indexer.Common.{
  ℕ, ◌+◌, ◌≡◌, refl, ◌∙◌, inl, inr, Option, none, some, List, [], ◌∷◌, Bool-cases, Option-cases,
  some-injective, if◌then◌else◌, arith,
}
use emule_indexer.Common.Text.{Str, str_eq, str_eq_iff}
use emule_indexer.Common.Dict.{Dict, get, get-put}
use emule_indexer.Search.Backoff.{
  Timing, ChannelBackoff, WorkerPolicy, pop, next_attempts, write_failure, record_failure,
}

pub get-pop :
    {V : Type 0} (k j : Str) (d : Dict V) → get j (pop k d) ≡ (if str_eq k j then none else get j d)
unfolding get pop
get-pop k j [] = elim (Bool-cases (str_eq k j)) [ inl e ↦ rw e | inr e ↦ rw e ]
get-pop k j ((i, w) ∷ d) =
    ground (arith, str_eq_iff k j, str_eq_iff i k, str_eq_iff i j, get-pop k j d)

-- What happens to a key: a failure at a time, with what the jitter adds, or a success.
pub data Report (Float Time : Type 0) : Type 0 where
  failure : Time → (Float → Float) → Report Float Time
  success : Report Float Time

abbrev pub attempts_of : Option ChannelBackoff → ℕ
attempts_of none = 0
attempts_of (some state) = state.attempts

module _ {Float : Type 0} (t : Timing Float) (policy : WorkerPolicy Float) where
  abbrev pub states_of : Option (Float × Dict ChannelBackoff) → Option (Dict ChannelBackoff)
  states_of none = none
  states_of (some (delay, states)) = some states

  abbrev pub report : Str → Report Float t.Time → Dict ChannelBackoff → Option (Dict ChannelBackoff)
  report key (failure now jitter) states = states_of (record_failure t policy now jitter key states)
  report key success states = some (pop key states)

  abbrev pub then_report :
      (Dict ChannelBackoff → Option (Dict ChannelBackoff))
      → Option (Dict ChannelBackoff)
      → Option (Dict ChannelBackoff)
  then_report next none = none
  then_report next (some states) = next states

  unfoldable pub report_all :
      List (Str × Report Float t.Time) → Dict ChannelBackoff → Option (Dict ChannelBackoff)
  report_all [] states = some states
  report_all ((key, r) ∷ history) states = then_report (report_all history) (report key r states)

  -- The failures of a key since its last success.
  abbrev pub failures_in_row : Str → List (Str × Report Float t.Time) → ℕ → ℕ
  failures_in_row key [] n = n
  failures_in_row key ((k, failure now jitter) ∷ history) n =
      failures_in_row key history (if str_eq k key then n + 1 else n)
  failures_in_row key ((k, success) ∷ history) n =
      failures_in_row key history (if str_eq k key then 0 else n)

  next_attempts-attempts_of : (o : Option ChannelBackoff) → next_attempts o ≡ attempts_of o + 1
  next_attempts-attempts_of none = omega arith
  next_attempts-attempts_of (some state) = refl

  write_failure-some :
      (now : t.Time) (jitter : Float → Float) (key k : Str) (states states' : Dict ChannelBackoff)
      (nominal : Option Float)
      → states_of (write_failure t policy now jitter key states nominal) ≡ some states'
      → attempts_of (get k states')
        ≡ (if str_eq key k then attempts_of (get k states) + 1 else attempts_of (get k states))
  write_failure-some now jitter key k states states' none h = absurd (cc)
  write_failure-some now jitter key k states states' (some nominal) h =
      rw (← some-injective h, get-put)
        (elim (Bool-cases (str_eq key k)) [
          | inl same ↦
              let e = (str_eq_iff key k).0 same in
              rw (same, e) (next_attempts-attempts_of (get k states))
          | inr other ↦ rw other
        ])

  report-attempts :
      (key k : Str) (r : Report Float t.Time) (history : List (Str × Report Float t.Time))
      (states states' : Dict ChannelBackoff)
      → report key r states ≡ some states'
      → failures_in_row k history (attempts_of (get k states'))
        ≡ failures_in_row k ((key, r) ∷ history) (attempts_of (get k states))
  unfolding record_failure
  report-attempts key k (failure now jitter) history states states' h =
      rw (write_failure-some now jitter key k states states' _ h)
  report-attempts key k success history states states' h =
      rw (← some-injective h, get-pop)
        (elim (Bool-cases (str_eq key k)) [ inl same ↦ rw same | inr other ↦ rw other ])

  -- The attempts that the registry holds of a key are its failures since its last success, whatever
  -- happened to other keys between them.
  pub report_all-failures_in_row :
      (key : Str) (history : List (Str × Report Float t.Time))
      (states states' : Dict ChannelBackoff)
      → report_all history states ≡ some states'
      → attempts_of (get key states') ≡ failures_in_row key history (attempts_of (get key states))
  unfolding report_all
  report_all-failures_in_row key [] states states' h = rw (some-injective h)
  report_all-failures_in_row key ((k, r) ∷ history) states states' h =
      elim (Option-cases (report k r states)) [
        | inl raised ↦ absurd (cc (rw raised at h))
        | inr (next, e) ↦
            report_all-failures_in_row key history next states' (rw e at h)
            ∙ report-attempts k key r history states next e
      ]
