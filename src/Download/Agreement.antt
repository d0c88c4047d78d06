-- ===== src/Download/Agreement.antt =====
-- The variable `states` of an iteration and the table say the same of a download.
use emule_indexer.Common.{
  ℕ, ◌≡◌, refl, inl, inr, Bool-cases, Option, some, some-injective, List, In, Result, ok, err,
  ok-injective,
}
use emule_indexer.Common.Text.{Str, str_eq, str_eq_iff}
use emule_indexer.Common.Dict.{Dict, get, put, get-put}
use emule_indexer.Download.Rules.{DownloadState, quarantined}
use emule_indexer.Download.World.{
  Download, LoopError, repository_error, mule_unreachable, mule_search_failed, unicode_encode_error,
  State, World, Exec, ◌>>=◌, ◌>>◌, pure, gets,
}
use emule_indexer.Download.Table.{with_state, set_states, set_state}
use emule_indexer.Download.Cycle.{move, absorb}
use emule_indexer.Download.Moves.{Move, quiet, moves, stop, one}
use emule_indexer.Download.Runs.{Runs, Always, >>=-Runs, Kept-same}

-- `states` says of its hashes what the table says.
abbrev pub Agrees : State → Type 0
Agrees s =
    (h : Str) (st : DownloadState)
    → get h s.states ≡ some st
    → (d : Download) × (get h s.downloads ≡ some d) × (d.state ≡ st)

abbrev pub At : Str → DownloadState → State → Type 0
At h st s = Agrees s × (get h s.states ≡ some st)

abbrev pub Sent : Str → State → Type 0
Sent h s = In h s.promoted × In h s.verifications

-- After a change that was made, `states` has it; after one that failed, it is as before.
abbrev pub Moved : Str → DownloadState → Result LoopError (Unit {0}) → State → Type 0
Moved h next (ok a) s = At h next s
Moved h next (err e) s = Agrees s

pub Moved-Agrees :
    (h : Str) (next : DownloadState) (r : Result LoopError (Unit {0})) (s : State)
    → Moved h next r s
    → Agrees s
Moved-Agrees h next (ok a) s m = m.0
Moved-Agrees h next (err e) s m = m

get-put_same : {V : Type 0} (h : Str) (v : V) (d : Dict V) → get h (put h v d) ≡ some v
get-put_same h v d = rw (get-put h h v d, (str_eq_iff h h).1 refl)

-- Writing one hash in both keeps them in agreement.
Agrees-put :
    (s : State) (h : Str) (row : Download)
    → Agrees s
    → Agrees (
        set_states (put h row.state s.states) (record {
          downloads = put h row s.downloads;
          promoted = s.promoted;
          verifications = s.verifications;
          links = s.links;
          events = s.events;
          states = s.states;
          repository_calls = s.repository_calls;
        }))
Agrees-put s h row agrees k st e = elim (Bool-cases (str_eq h k)) [
  | inl same ↦ (
    row,
    rw (get-put h k row s.downloads, same),
    some-injective (rw (get-put h k row.state s.states, same) at e),
  )
  | inr other ↦
      let (d, f, g) = agrees k st (rw (get-put h k row.state s.states, other) at e) in
      (d, rw (get-put h k row s.downloads, other) f, g)
]

module _ (world : World) (targets : List (Str × Str)) (cap : ℕ) where
  pub move-Runs :
      (h : Str) (st next : DownloadState)
      → Move st next
      → Runs cap
          (λ s. At h st s × (next ≡ quarantined → Sent h s))
          (move world h next)
          (Moved h next)
  unfolding set_state
  move-Runs h st next mv s ((agrees, at), sent) =
      let (d, known, same) = agrees h st at in
      elim (Bool-cases (world.repository_fails s.repository_calls)) [
        | inl fails ↦ rw fails (one (quiet refl (Kept-same s)), agrees)
        | inr called ↦
            rw (called, known)
              (
                one (moves h d next known (rw same mv) sent refl (Kept-same s)),
                (Agrees-put s h (with_state d next) agrees, get-put_same h next s.states),
              )
      ]

  pub absorb-Runs : (P : State → Type 0) (e : LoopError) → Runs cap P (absorb e) (Always P)
  absorb-Runs P repository_error s p = (stop, p)
  absorb-Runs P mule_unreachable s p = (stop, p)
  absorb-Runs P mule_search_failed s p = (stop, p)
  absorb-Runs P unicode_encode_error s p = (stop, p)

  pub pure-Runs : (P : State → Type 0) → Runs cap P (pure tt) (Always P)
  pure-Runs P s p = (stop, p)

  -- What `states` says of a hash when it is read.
  abbrev pub Reads : Str → Option DownloadState → State → Type 0
  Reads h current s = Agrees s × (current ≡ get h s.states)

  -- A loop over hashes, of which each is looked up in `states`.
  pub looking-Runs :
      (h : Str) (entry : Option DownloadState → Exec (Unit {0})) (rest : Exec (Unit {0}))
      → ((current : Option DownloadState)
          → Runs cap (Reads h current) (entry current) (Always Agrees))
      → Runs cap Agrees rest (Always Agrees)
      → Runs cap Agrees
          (gets (λ s. get h s.states) >>= λ current. entry current >> rest)
          (Always Agrees)
  looking-Runs h entry rest each others =
      >>=-Runs cap (λ r s. Agrees s × (r ≡ ok (get h s.states))) (Always Agrees)
        (gets (λ s. get h s.states)) (λ current. entry current >> rest) (λ s a. (stop, (a, refl)))
        (λ current.
          >>=-Runs cap (Always Agrees) (Always Agrees) (entry current) (λ _. rest)
            (λ s (a, e). each current s (a, ok-injective e)) (λ _. others) (λ e t a. a))
        (λ e t (a, _). a)
