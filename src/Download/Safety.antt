-- ===== src/Download/Safety.antt =====
-- What the legal moves give: the disk cap, downloads that only advance, and a quarantine whose
-- files are on their way to the verification.
use emule_indexer.Common.{
  ℕ, ◌≤◌, ◌≡◌, refl, sym, ap, ◌∙◌, inl, inr, Bool-cases, some, some-injective, List, In,
}
use mathlib.Core.Path.{subst}
use emule_indexer.Common.Text.{Str, str_eq, str_eq_iff}
use emule_indexer.Common.Dict.{get, get-put}
use emule_indexer.Download.Rules.{DownloadState, quarantined}
use emule_indexer.Download.World.{Download, State, World}
use emule_indexer.Download.Table.{committed, with_state}
use emule_indexer.Download.Cycle.{run_download_cycle}
use emule_indexer.Download.Moves.{Move, Step, quiet, queues, moves, Steps_keep}
use emule_indexer.Download.Committed.{Step-committed}
use emule_indexer.Download.Iteration.{IsTable, run_download_cycle-Steps}

pub data Reaches (st : DownloadState) : DownloadState → Type 0 where
  here : Reaches st st
  onward : {st' st'' : DownloadState} → Reaches st st' → Move st' st'' → Reaches st st''

-- The row of a download after some moves: its state is one that its first state reaches.
pub record Advanced (h : Str) (d : Download) (s : State) : Type 0 where
  pub row : Download
  pub there : get h s.downloads ≡ some row
  pub reaches : Reaches d.state row.state
  pub same_size : row.size_bytes ≡ d.size_bytes
  pub same_target : row.target_id ≡ d.target_id

Step-Advanced :
    (cap : ℕ) (h : Str) (d : Download) (s s' : State)
    → Advanced h d s
    → Step cap s s'
    → Advanced h d s'
Step-Advanced cap h d s s' a (quiet e kept) = record {
  row = a.row;
  there = subst (λ r. get h r ≡ some a.row) e a.there;
  reaches = a.reaches;
  same_size = a.same_size;
  same_target = a.same_target;
}
Step-Advanced cap h d s s' a (queues k row absent is fits e kept) = elim (Bool-cases (str_eq k h)) [
  | inl same ↦ cc ((str_eq_iff k h).0 same, absent, a.there)
  | inr other ↦ record {
    row = a.row;
    there = subst (λ r. get h r ≡ some a.row) e (rw (get-put k h row s.downloads, other) a.there);
    reaches = a.reaches;
    same_size = a.same_size;
    same_target = a.same_target;
  }
]
Step-Advanced cap h d s s' a (moves k x next known mv sent e kept) =
    elim (Bool-cases (str_eq k h)) [
      | inl same ↦
          let found : x ≡ a.row =
            some-injective
              (sym known ∙ ap (λ y. get y s.downloads) ((str_eq_iff k h).0 same) ∙ a.there) in
          record {
            row = with_state x next;
            there =
                subst (λ r. get h r ≡ some (with_state x next)) e
                  (rw (get-put k h (with_state x next) s.downloads, same));
            reaches = onward a.reaches (subst (λ (y : Download). Move y.state next) found mv);
            same_size = ap (λ (y : Download). y.size_bytes) found ∙ a.same_size;
            same_target = ap (λ (y : Download). y.target_id) found ∙ a.same_target;
          }
      | inr other ↦ record {
        row = a.row;
        there =
            subst (λ r. get h r ≡ some a.row) e
              (rw (get-put k h (with_state x next) s.downloads, other) a.there);
        reaches = a.reaches;
        same_size = a.same_size;
        same_target = a.same_target;
      }
    ]

-- What is in the quarantine was promoted, and its verification was asked for.
abbrev pub IsSent : State → Type 0
IsSent s =
    (h : Str) (d : Download)
    → get h s.downloads ≡ some d
    → d.state ≡ quarantined
    → In h s.promoted × In h s.verifications

Step-IsSent : (cap : ℕ) (s s' : State) → IsSent s → Step cap s s' → IsSent s'
Step-IsSent cap s s' i (quiet e kept) h d there is =
    let (p, v) = i h d (rw e there) is in (kept.0 h p, kept.1 h v)
Step-IsSent cap s s' i (queues k row absent new fits e kept) h d there is =
    elim (Bool-cases (str_eq k h)) [
      | inl same ↦
          let found : row ≡ d =
            some-injective (rw (← e, get-put k h row s.downloads, same) at there) in
          cc (ap (λ (y : Download). y.state) found, new, is)
      | inr other ↦
          let (p, v) = i h d (rw (← e, get-put k h row s.downloads, other) at there) is in
          (kept.0 h p, kept.1 h v)
    ]
Step-IsSent cap s s' i (moves k x next known mv sent e kept) h d there is =
    elim (Bool-cases (str_eq k h)) [
      | inl same ↦
          let found : with_state x next ≡ d =
            some-injective (rw (← e, get-put k h (with_state x next) s.downloads, same) at there) in
          subst (λ y. In y s'.promoted × In y s'.verifications) ((str_eq_iff k h).0 same)
            (sent (ap (λ (y : Download). y.state) found ∙ is))
      | inr other ↦
          let (p, v) =
            i h d (rw (← e, get-put k h (with_state x next) s.downloads, other) at there) is in
          (kept.0 h p, kept.1 h v)
    ]

module _ (world : World) (targets : List (Str × Str)) (cap : ℕ) where
  -- If the downloads that are under way fit under the cap, they do so after an iteration.
  pub committed-run_download_cycle :
      (s : State)
      → IsTable s
      → committed s.downloads ≤ cap
      → committed (run_download_cycle world targets cap s).downloads ≤ cap
  committed-run_download_cycle s table fits =
      Steps_keep (λ t. committed t.downloads ≤ cap) (Step-committed cap) fits
        (run_download_cycle-Steps world targets cap s table).0

  -- An iteration loses no download and takes none back: each is still there, with its size and
  -- target, in a state that its state reaches.
  pub run_download_cycle-Advanced :
      (s : State) (h : Str) (d : Download)
      → IsTable s
      → get h s.downloads ≡ some d
      → Advanced h d (run_download_cycle world targets cap s)
  run_download_cycle-Advanced s h d table there =
      Steps_keep (Advanced h d) (Step-Advanced cap h d)
        (record { row = d; there = there; reaches = here; same_size = refl; same_target = refl })
        (run_download_cycle-Steps world targets cap s table).0

  -- An iteration puts nothing into the quarantine whose file was not promoted and whose
  -- verification was not asked for.
  pub run_download_cycle-IsSent :
      (s : State) → IsTable s → IsSent s → IsSent (run_download_cycle world targets cap s)
  run_download_cycle-IsSent s table sent =
      Steps_keep IsSent (Step-IsSent cap) sent
        (run_download_cycle-Steps world targets cap s table).0
